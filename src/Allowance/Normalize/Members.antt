-- ===== src/Allowance/Normalize/Members.antt =====
-- What the loop of `normalize` over the members has shown: internal/allocations/allocations.go.
use sub_lane.Base.{
  In, ℕ, ◌+◌, ◌≡◌, refl, sym, ap, ◌∙◌, subst, inl, inr, true, false, not, ◌||◌, List, [], ◌∷◌, map,
  arith, ℤ, under, nat_of, int_beq_iff, pos, negsuc, string_eq, nat_eq, int_eq,
}
use sub_lane.Failure.{◌>>=◌, unless_ok, bind_ok, ok}
use sub_lane.Allowance.Laws.{shares}
use sub_lane.Allowance.Normalize.{
  DraftShare, Draft, has, valid_member_limit, refused, check_shares, share_of,
}
use sub_lane.Allowance.Normalize.Order.{Fresh, Distinct}

pub has_self : (n : ℤ) (seen : List ℤ) → In n seen → has n seen ≡ true
unfolding has
has_self n [] h = absurd h
has_self n (x ∷ xs) h = ground (arith, int_beq_iff x n, has_self n xs)

pub positive_user : (n : ℤ) → under n 1 ≡ false → n ≡ pos (nat_of n)
positive_user (pos n) h = refl
positive_user (negsuc n) h = cc

pub limit_user :
    (d : Draft) (m : DraftShare)
    → valid_member_limit d m ≡ true
    → m.user_id ≡ pos (nat_of m.user_id)
unfolding valid_member_limit
limit_user d m h = positive_user m.user_id (ground arith)

pub shares_step :
    (d : Draft) (seen : List ℤ) (m : DraftShare) (ms : List DraftShare) (n : ℕ)
    → check_shares d seen (m ∷ ms) ≡ ok n
    → (has m.user_id seen ≡ false)
      × (valid_member_limit d m ≡ true)
      × ((rest : ℕ) × (check_shares d (m.user_id ∷ seen) ms ≡ ok rest)
          × (n ≡ nat_of m.limit + rest))
unfolding check_shares
shares_step d seen m ms n h =
    let (passed, more) =
      unless_ok (has m.user_id seen || not (valid_member_limit d m)) refused
        (check_shares d (m.user_id ∷ seen) ms >>= λ sum. ok (nat_of m.limit + sum)) n h in
    let (rest, e, total) =
      bind_ok (check_shares d (m.user_id ∷ seen) ms) (λ sum. ok (nat_of m.limit + sum)) n more in
    (ground arith, ground arith, (rest, e, ground arith))

pub shares_valid :
    (d : Draft) (seen : List ℤ) (ms : List DraftShare) (n : ℕ)
    → check_shares d seen ms ≡ ok n
    → (m : DraftShare) → In m ms
    → valid_member_limit d m ≡ true
shares_valid d seen [] n h m i = absurd i
shares_valid d seen (x ∷ xs) n h m i =
    let (f, v, (rest, e, t)) = shares_step d seen x xs n h in
    elim i [
      | inl same ↦ rw same v
      | inr later ↦ shares_valid d (x.user_id ∷ seen) xs rest e m later
    ]

pub shares_none : (d : Draft) (seen : List ℤ) (n : ℕ) → check_shares d seen [] ≡ ok n → 0 ≡ n
unfolding check_shares
shares_none d seen n h = ground arith

pub shares_sum :
    (d : Draft) (seen : List ℤ) (ms : List DraftShare) (n : ℕ)
    → check_shares d seen ms ≡ ok n
    → shares (map share_of ms) ≡ n
unfolding shares
shares_sum d seen [] n h = shares_none d seen n h
shares_sum d seen (x ∷ xs) n h =
    let (f, v, (rest, e, t)) = shares_step d seen x xs n h in
    omega (arith, shares_sum d (x.user_id ∷ seen) xs rest e)

pub shares-Fresh :
    (d : Draft) (seen : List ℤ) (ms : List DraftShare) (n user : ℕ)
    → check_shares d seen ms ≡ ok n
    → In (pos user) seen
    → Fresh user (map share_of ms)
shares-Fresh d seen [] n user h i = tt
shares-Fresh d seen (x ∷ xs) n user h i =
    let (f, v, (rest, e, t)) = shares_step d seen x xs n h in
    (
      λ same. ground (
        arith,
        has_self x.user_id seen (subst (λ k. In k seen) (ap pos same ∙ sym (limit_user d x v)) i),
      ),
      shares-Fresh d (x.user_id ∷ seen) xs rest user e (inr i),
    )

pub shares-Distinct :
    (d : Draft) (seen : List ℤ) (ms : List DraftShare) (n : ℕ)
    → check_shares d seen ms ≡ ok n
    → Distinct (map share_of ms)
shares-Distinct d seen [] n h = tt
shares-Distinct d seen (x ∷ xs) n h =
    let (f, v, (rest, e, t)) = shares_step d seen x xs n h in
    (
      shares-Fresh d (x.user_id ∷ seen) xs rest (nat_of x.user_id) e (inl (sym (limit_user d x v))),
      shares-Distinct d (x.user_id ∷ seen) xs rest e,
    )
