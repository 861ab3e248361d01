-- ===== src/Base/Int.antt =====
-- The numbers of a request's body, which may be negative until the code has looked at them.
use Prim.Native.Nat.{ℕ}
use mathlib.Core.Path.{◌≡◌}
use mathlib.Core.Logic.{◌↔◌}
use mathlib.Core.Bool.{Bool, true, false}
use native.Mathlib.Omega.{arith}
use sub_lane.Base.Tests.{ltb, nat_beq}
use sub_lane.Base.Equality.{Eq}

-- `negsuc n` is -(n + 1).
pub data ℤ : Type 0 where
  pos : ℕ → ℤ
  negsuc : ℕ → ℤ

-- n < bound and bound < n, for a bound that is not negative
abbrev pub under : ℤ → ℕ → Bool
under (pos n) bound = ltb n bound
under (negsuc n) bound = true

abbrev pub over : ℤ → ℕ → Bool
over (pos n) bound = ltb bound n
over (negsuc n) bound = false

-- The number, where it is not negative.
abbrev pub nat_of : ℤ → ℕ
nat_of (pos n) = n
nat_of (negsuc n) = 0

abbrev pub int_beq : ℤ → ℤ → Bool
int_beq (pos n) (pos m) = nat_beq n m
int_beq (negsuc n) (negsuc m) = nat_beq n m
int_beq (pos n) (negsuc m) = false
int_beq (negsuc n) (pos m) = false

pub int_beq_iff : (n m : ℤ) → (int_beq n m ≡ true) ↔ (n ≡ m)
int_beq_iff (pos n) (pos m) = ground arith
int_beq_iff (negsuc n) (negsuc m) = ground arith
int_beq_iff (pos n) (negsuc m) = ground arith
int_beq_iff (negsuc n) (pos m) = ground arith

instance abbrev pub int_eq : Eq ℤ
int_eq = record { beq = int_beq; beq_iff = int_beq_iff }
