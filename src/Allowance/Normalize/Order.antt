-- ===== src/Allowance/Normalize/Order.antt =====
-- Sorting the members of an allowance: internal/allocations/allocations.go.
use sub_lane.Base.{
  In, ℕ, ◌+◌, ◌≤◌, ◌<◌, ◌≡◌, refl, ◌≢◌, ◌⊎◌, inl, inr, List, [], ◌∷◌, map, arith, ltb, ltb→lt,
  Bool-cases,
}
use sub_lane.Allowance.{Share}
use sub_lane.Allowance.Laws.{shares}
use sub_lane.Allowance.Normalize.{put, sort_members}

-- Every member of the list has a user above the number.
abbrev pub Above : ℕ → List Share → Type 0
Above user [] = Unit
Above user (m ∷ ms) = (user < m.user_id) × Above user ms

abbrev pub Fresh : ℕ → List Share → Type 0
Fresh user [] = Unit
Fresh user (m ∷ ms) = (user ≢ m.user_id) × Fresh user ms

abbrev pub Ascending : List Share → Type 0
Ascending [] = Unit
Ascending (m ∷ ms) = Above m.user_id ms × Ascending ms

abbrev pub Distinct : List Share → Type 0
Distinct [] = Unit
Distinct (m ∷ ms) = Fresh m.user_id ms × Distinct ms

pub Above-le : (low high : ℕ) (ms : List Share) → low ≤ high → Above high ms → Above low ms
Above-le low high [] h a = tt
Above-le low high (m ∷ ms) h a = (omega arith, Above-le low high ms h a.1)

pub put-Above :
    (user : ℕ) (m : Share) (ms : List Share)
    → user < m.user_id
    → Above user ms
    → Above user (put m ms)
unfolding put
put-Above user m [] h a = (h, tt)
put-Above user m (x ∷ xs) h a = ground (arith, put-Above user m xs)

pub put-Ascending :
    (m : Share) (ms : List Share) → Fresh m.user_id ms → Ascending ms → Ascending (put m ms)
unfolding put
put-Ascending m [] f a = (tt, tt)
put-Ascending m (x ∷ xs) f a = elim (Bool-cases (ltb m.user_id x.user_id)) [
  | inl before ↦
      rw before ((ltb→lt _ _ before, Above-le m.user_id x.user_id xs (ground arith) a.0), a)
  | inr after ↦ rw after (put-Above x.user_id m xs (ground arith) a.0, put-Ascending m xs f.1 a.1)
]

pub put-Fresh :
    (user : ℕ) (m : Share) (ms : List Share)
    → user ≢ m.user_id
    → Fresh user ms
    → Fresh user (put m ms)
unfolding put
put-Fresh user m [] h f = (h, tt)
put-Fresh user m (x ∷ xs) h f = ground (arith, put-Fresh user m xs)

pub sort-Fresh : (user : ℕ) (ms : List Share) → Fresh user ms → Fresh user (sort_members ms)
unfolding sort_members
sort-Fresh user [] f = tt
sort-Fresh user (m ∷ ms) f = put-Fresh user m (sort_members ms) f.0 (sort-Fresh user ms f.1)

pub sort-Ascending : (ms : List Share) → Distinct ms → Ascending (sort_members ms)
unfolding sort_members
sort-Ascending [] d = tt
sort-Ascending (m ∷ ms) d =
    put-Ascending m (sort_members ms) (sort-Fresh m.user_id ms d.0) (sort-Ascending ms d.1)

pub shares-put : (m : Share) (ms : List Share) → shares (put m ms) ≡ m.limit + shares ms
unfolding put shares
shares-put m [] = refl
shares-put m (x ∷ xs) = ground (arith, shares-put m xs)

pub shares-sort : (ms : List Share) → shares (sort_members ms) ≡ shares ms
unfolding sort_members shares
shares-sort [] = refl
shares-sort (m ∷ ms) = omega (arith, shares-put m (sort_members ms), shares-sort ms)

pub put-In : (a m : Share) (ms : List Share) → In a (put m ms) → (a ≡ m) ⊎ In a ms
unfolding put
put-In a m [] h = h
put-In a m (x ∷ xs) h = ground (arith, put-In a m xs)

pub sort-In : (a : Share) (ms : List Share) → In a (sort_members ms) → In a ms
unfolding sort_members
sort-In a [] h = h
sort-In a (m ∷ ms) h = ground (arith, put-In a m (sort_members ms), sort-In a ms)

pub In-map :
    {A B : Type 0} (f : A → B) (xs : List A) (b : B)
    → In b (map f xs)
    → (a : A) × In a xs × (b ≡ f a)
In-map f [] b h = absurd h
In-map f (x ∷ xs) b (inl e) = (x, inl refl, e)
In-map f (x ∷ xs) b (inr h) = let (a, m, e) = In-map f xs b h in (a, inr m, e)
