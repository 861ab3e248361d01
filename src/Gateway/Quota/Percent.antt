-- ===== src/Gateway/Quota/Percent.antt =====
-- The float64 percentages of internal/gateway/quota.go. A finite value is ± m / 2 ^ k, which every
-- float64 is; comparisons are exact, and `100 - x` is rounded to 53 bits as the language does.
use native.Mathlib.Nat.{pow-suc, div-add-mod}
use sub_lane.Base.{
  ℕ, zero, suc, ◌+◌, ◌-◌, ◌*◌, ◌/◌, ◌%◌, ◌^◌, ◌≤◌, ◌<◌, ◌≡◌, Bool, true, false, not, ◌&&◌, arith,
  ltb, leb, if◌then◌else◌, ◌==◌, string_eq, nat_eq,
}

pub data Float : Type 0 where
  nan : Float
  infinite : Bool → Float
  -- sign, m, k
  finite : Bool → ℕ → ℕ → Float

-- x >= 100
unfoldable pub at_least_hundred : Float → Bool
at_least_hundred nan = false
at_least_hundred (infinite negative) = not negative
at_least_hundred (finite negative m k) = not negative && leb (100 * 2 ^ k) m

-- x < 0
unfoldable pub below_zero : Float → Bool
below_zero nan = false
below_zero (infinite negative) = negative
below_zero (finite negative m k) = negative && ltb 0 m

-- The condition under which `quotaStatus` keeps a percentage: !(NaN || Inf || x < 0 || x >= 100).
unfoldable pub is_left : Float → Bool
unfolding at_least_hundred below_zero
is_left nan = false
is_left (infinite negative) = false
is_left (finite negative m k) =
    not (below_zero (finite negative m k)) && not (at_least_hundred (finite negative m k))

-- A fraction of at most half a unit in the last place of the floor `n` is rounded away: the unit of
-- numbers from 2 ^ j on is 2 ^ (j - 52).
unfoldable pub half_unit : ℕ → ℕ
half_unit n =
    if leb 64 n
    then 2 ^ 47
    else if leb 32 n
    then 2 ^ 48
    else if leb 16 n
    then 2 ^ 49
    else if leb 8 n
    then 2 ^ 50
    else if leb 4 n
    then 2 ^ 51
    else if leb 2 n
    then 2 ^ 52
    else 2 ^ 53

-- The ceiling of floor `n` and remainder `r` of 2 ^ k parts, after rounding.
unfoldable pub ceil_parts : ℕ → ℕ → ℕ → ℕ
ceil_parts n r parts =
    if r == 0 then n else if n == 0 then 1 else if leb (r * half_unit n) parts then n else n + 1

-- int(math.Ceil(100 - x)) for a kept percentage; -0 is 0.
unfoldable pub ceil_left : Float → ℕ
unfolding ceil_parts half_unit
ceil_left nan = 0
ceil_left (infinite negative) = 0
ceil_left (finite negative m k) =
    let rest = 100 * 2 ^ k - m in ceil_parts (rest / 2 ^ k) (rest % 2 ^ k) (2 ^ k)

ceil_parts_bounds :
    (n r parts : ℕ)
    → n ≤ 100
    → (n ≡ 0 → 0 < r)
    → (n ≡ 100 → r ≡ 0)
    → (1 ≤ ceil_parts n r parts) × (ceil_parts n r parts ≤ 100)
unfolding ceil_parts
ceil_parts_bounds n r parts h low high = ground arith

pow-pos : (k : ℕ) → 0 < 2 ^ k
pow-pos zero = omega arith
pow-pos (suc k) = simp pow-suc (omega (arith, pow-pos k))

quotient_lem : (a b q r : ℕ) → b * q + r ≡ a → 0 < b → a ≤ 100 * b → (q ≤ 100) × (q ≡ 100 → r ≡ 0)
quotient_lem a b q r e p h = grind arith

quotient_zero : (a b q r : ℕ) → b * q + r ≡ a → 0 < a → q ≡ 0 → 0 < r
quotient_zero a b q r e p z = grind arith

left_lem :
    (negative : Bool) (m parts : ℕ)
    → 0 < parts
    → (not (negative && ltb 0 m) && not (not negative && leb (100 * parts) m)) ≡ true
    → m < 100 * parts
left_lem negative m parts p h = ground arith

-- What is left of a kept percentage rounds into 1 .. 100.
pub ceil_left_bounds : (p : Float) → is_left p ≡ true → (1 ≤ ceil_left p) × (ceil_left p ≤ 100)
unfolding is_left ceil_left
ceil_left_bounds nan h = cc
ceil_left_bounds (infinite negative) h = cc
ceil_left_bounds (finite negative m k) h =
    let parts : ℕ = 2 ^ k in
    let rest : ℕ = 100 * parts - m in
    let small = left_lem negative m parts (pow-pos k) h in
    let split = div-add-mod rest parts in
    let (most, full) =
      quotient_lem rest parts (rest / parts) (rest % parts) split (pow-pos k) (omega arith) in
    ceil_parts_bounds (rest / parts) (rest % parts) parts most
      (quotient_zero rest parts (rest / parts) (rest % parts) split (omega arith)) full
