-- ===== src/Gateway/Selection/Turns.antt =====
-- The turns are fair: over one period every candidate gets the turns of its weight, wherever the
-- cursor stands.
use native.Mathlib.Nat.{mod-eq_of_lt, mod_self, mod-mod, mod-add-mod, mod-lt}
use sub_lane.Base.{
  get_elem?, ℕ, zero, suc, ◌+◌, ◌-◌, ◌%◌, ◌≤◌, ◌<◌, ◌≡◌, refl, sym, ap, ◌∙◌, ◌⊎◌, inl, inr, none,
  some, List, [], ◌∷◌, arith, ltb, if◌then◌else◌, Bool-cases, ◌==◌, string_eq, nat_eq,
}
use sub_lane.Gateway.Balance.{bit}
use sub_lane.Gateway.Selection.Rotation.{sum, spend, Plan, period, place, advance, even, weighted}

-- How often the place `i` is taken in the next `k` turns from the cursor `at`.
unfoldable pub served : Plan → ℕ → ℕ → ℕ → ℕ
served p i zero at = 0
served p i (suc k) at = bit (place p at == i) + served p i k (advance p at)

-- The turns of a period that the place `i` should have.
unfoldable pub share : Plan → ℕ → ℕ
share (even n) i = if ltb i n then 1 else 0
share (weighted ws) i = elim (get_elem? ws i) [ none ↦ 0 | some w ↦ w ]

-- The cursors below `n` that point at the place `i`.
unfoldable pub pointing : Plan → ℕ → ℕ → ℕ
pointing p i zero = 0
pointing p i (suc n) = pointing p i n + bit (place p n == i)

step_wrap :
    (p : Plan) (at : ℕ)
    → at < period p
    → ((at + 1 ≡ period p) × (advance p at ≡ 0)) ⊎ ((at + 1 < period p) × (advance p at ≡ at + 1))
step_wrap p at h = elim (Bool-cases (ltb (at + 1) (period p))) [
  | inl below ↦ inr (ground arith, mod-eq_of_lt (ground arith))
  | inr last ↦
      let full : at + 1 ≡ period p = ground arith in inl (full, rw full (mod_self (period p)))
]

served_next :
    (p : Plan) (i k n at : ℕ)
    → n ≡ suc k
    → served p i n at ≡ bit (place p at == i) + served p i k (advance p at)
unfolding served
served_next p i k n at h = rw h refl

pointing_next :
    (p : Plan) (i k n : ℕ) → n ≡ suc k → pointing p i n ≡ pointing p i k + bit (place p k == i)
unfolding pointing
pointing_next p i k n h = rw h refl

-- Up to the end of the period the turns go through the cursors in order, and the cursor is then 0.
served_straight :
    (p : Plan) (i k m at : ℕ)
    → at + k ≡ period p
    → 0 < k
    → served p i (m + k) at + pointing p i at ≡ pointing p i (period p) + served p i m 0
unfolding served pointing
served_straight p i zero m at h pos = absurd (omega arith)
served_straight p i (suc k) m at h pos =
    let turn = served_next p i (m + k) (m + suc k) at (omega arith) in
    let next = pointing_next p i at (at + 1) (omega arith) in
    elim (step_wrap p at (omega arith)) [
      | inl (full, wrap) ↦
          let last : m + k ≡ m = omega arith in
          let left : served p i (m + k) (advance p at) ≡ served p i m 0 = rw (last, wrap) refl in
          let whole : pointing p i (at + 1) ≡ pointing p i (period p) = rw full refl in
          omega (arith, turn, next, left, whole)
      | inr (below, wrap) ↦
          let left : served p i (m + k) (advance p at) ≡ served p i (m + k) (at + 1) =
            rw wrap refl in
          let rest = served_straight p i k m (at + 1) (omega arith) (omega arith) in
          omega (arith, turn, next, left, rest)
    ]

-- From the start of a period on.
served_start :
    (p : Plan) (i k at : ℕ)
    → at + k ≤ period p
    → served p i k at + pointing p i at ≡ pointing p i (at + k)
unfolding served pointing
served_start p i zero at h = ground arith
served_start p i (suc k) at h = elim (step_wrap p at (omega arith)) [
  | inl (full, wrap) ↦
      let last : k ≡ 0 = omega arith in
      ground (
        arith,
        ap (λ n. served p i n (advance p at)) last,
        ap (λ n. pointing p i (at + suc n)) last,
      )
  | inr (below, wrap) ↦
      ground (arith, ap (served p i k) wrap, served_start p i k (at + 1) (omega arith))
]

pub served-period :
    (p : Plan) (i at : ℕ) → at < period p → served p i (period p) at ≡ pointing p i (period p)
unfolding pointing
served-period p i at h =
    let straight = served_straight p i (period p - at) at at (omega arith) (omega arith) in
    let start = served_start p i at 0 (omega arith) in
    let parts : (period p - at) + at ≡ period p = omega arith in
    ground (arith, straight, start, ap (λ n. served p i n at) parts)

-- The tickets below `n` that are spent at the place `i`.
unfoldable pub spending : List ℕ → ℕ → ℕ → ℕ
spending ws i zero = 0
spending ws i (suc n) = spending ws i n + bit (spend n ws == i)

pointing-spending :
    (ws : List ℕ) (i n : ℕ) → n ≤ sum ws → pointing (weighted ws) i n ≡ spending ws i n
unfolding pointing spending place
pointing-spending ws i zero h = refl
pointing-spending ws i (suc n) h =
    let at : n % sum ws ≡ n = mod-eq_of_lt (omega arith) in
    let same : spend (n % sum ws) ws ≡ spend n ws = rw at refl in
    ground (arith, pointing-spending ws i n (omega arith), same)

-- The first weight's tickets come first.
spending-first :
    (w : ℕ) (ws : List ℕ) (i n : ℕ) → n ≤ w → spending (w ∷ ws) i n ≡ (if i == 0 then n else 0)
unfolding spending spend
spending-first w ws i zero h = ground arith
spending-first w ws i (suc n) h = ground (arith, spending-first w ws i n (omega arith))

spend_later : (w : ℕ) (ws : List ℕ) (n : ℕ) → spend (w + n) (w ∷ ws) ≡ spend n ws + 1
unfolding spend
spend_later w ws n =
    let left : (w + n) - w ≡ n = omega arith in
    let same : spend ((w + n) - w) ws ≡ spend n ws = rw left refl in ground (arith, same)

spending_next :
    (ws : List ℕ) (i k n : ℕ)
    → n ≡ suc k
    → spending ws i n ≡ spending ws i k + bit (spend k ws == i)
unfolding spending
spending_next ws i k n h = rw h refl

spending-rest :
    (w : ℕ) (ws : List ℕ) (i n : ℕ)
    → spending (w ∷ ws) i (w + n) ≡ (if i == 0 then w else spending ws (i - 1) n)
unfolding spending
spending-rest w ws i zero =
    let same : spending (w ∷ ws) i (w + 0) ≡ spending (w ∷ ws) i w =
      ap (spending (w ∷ ws) i) (omega arith) in
    ground (arith, same, spending-first w ws i w (omega arith))
spending-rest w ws i (suc n) = ground (
  arith,
  spending_next (w ∷ ws) i (w + n) (w + suc n) (omega arith),
  spend_later w ws n,
  spending-rest w ws i n,
)

spending-sum : (ws : List ℕ) (i : ℕ) → spending ws i (sum ws) ≡ share (weighted ws) i
unfolding share sum spending
spending-sum [] i = refl
spending-sum (w ∷ ws) zero = ground (arith, spending-rest w ws zero (sum ws))
spending-sum (w ∷ ws) (suc i) =
    let before : suc i - 1 ≡ i = omega arith in
    let same : spending ws (suc i - 1) (sum ws) ≡ spending ws i (sum ws) = rw before refl in
    ground (arith, spending-rest w ws (suc i) (sum ws), same, spending-sum ws i)

pointing-even : (m i n : ℕ) → n ≤ m → pointing (even m) i n ≡ (if ltb i n then 1 else 0)
unfolding pointing place
pointing-even m i zero h = ground arith
pointing-even m i (suc n) h =
    let at : n % m ≡ n = mod-eq_of_lt (omega arith) in
    ground (arith, pointing-even m i n (omega arith), at)

below_period : (p : Plan) (i at : ℕ) → at < period p → served p i (period p) at ≡ share p i
unfolding period share
below_period (even n) i at h =
    ground (arith, served-period (even n) i at h, pointing-even n i n (omega arith))
below_period (weighted ws) i at h = ground (
  arith,
  served-period (weighted ws) i at h,
  pointing-spending ws i (sum ws) (omega arith),
  spending-sum ws i,
)

-- A cursor counts only by what is left of it in the period.
place_mod : (p : Plan) (at : ℕ) → place p (at % period p) ≡ place p at
unfolding place period
place_mod (even n) at = mod-mod at n
place_mod (weighted ws) at = ap (λ ticket. spend ticket ws) (mod-mod at (sum ws))

served_mod : (p : Plan) (i k at : ℕ) → served p i k (at % period p) ≡ served p i k at
unfolding served
served_mod p i zero at = refl
served_mod p i (suc k) at =
    ap (λ n. bit (n == i) + served p i k (advance p (at % period p))) (place_mod p at)
    ∙ ap (λ n. bit (place p at == i) + served p i k n) (mod-add-mod at (period p) 1)

-- Where a period has turns: over one period, from any cursor, also one that is left of a larger
-- pool, every place gets exactly its share: one turn each in the even rotation, and the turns of its
-- weight in the weighted one.
pub served-share : (p : Plan) (i at : ℕ) → 0 < period p → served p i (period p) at ≡ share p i
served-share p i at some' =
    sym (served_mod p i (period p) at) ∙ below_period p i (at % period p) (mod-lt at some')
