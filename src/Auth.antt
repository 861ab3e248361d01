-- ===== src/Auth.antt =====
-- The second factor of a member's account: internal/auth/security.go. Instants are in nanoseconds.
pub mod Budget
pub mod Replay
use Prim.Native.Char.{Char}
use sub_lane.Base.{
  keep, length, lookup, insert, erase, Map, ℕ, ◌+◌, ◌-◌, ◌/◌, max, code, String, Bool, not, ◌&&◌,
  ◌||◌, Option, none, some, List, [], ◌∷◌, ltb, leb, nat_beq, if◌then◌else◌, ℤ, under, pos, ◌==◌,
  string_eq, nat_eq, int_eq,
}
use sub_lane.Gateway.State.{unix, ceil_seconds}
use sub_lane.Allowance.Normalize.{refused, bytes}

-- The errors of a check.
pub data Refusal : Type 0 where
  auth_busy two_factor_required invalid_factor decrypt_failed store_failed : Refusal
  -- &FactorRateLimitError{RetryAfter}
  factor_limited : ℕ → Refusal

-- factorWindow
pub record FactorWindow : Type 0 where
  pub tries : ℕ
  pub reset : ℕ

abbrev pub Failures : Type 0
Failures = Map ℕ FactorWindow

abbrev pub minute : ℕ
minute = 60000000000

-- The loop that drops the windows that are over.
unfoldable pub sweep : ℕ → Failures → Failures
unfolding keep
sweep now table = keep (λ entry. ltb now entry.1.reset) table

-- One more attempt in a window.
unfoldable pub count_try : ℕ → ℕ → FactorWindow → Failures → Failures × Option Refusal
unfolding insert
count_try now user w table =
    if leb 5 w.tries
    then (table, some (factor_limited (max 1 (ceil_seconds (w.reset - now)))))
    else (insert user (record w { tries = w.tries + 1 }) table, none)

-- factorAttempt
unfoldable pub factor_attempt : ℕ → ℕ → Failures → Failures × Option Refusal
unfolding sweep lookup count_try
factor_attempt now user failures =
    let table = sweep now failures in
    elim (lookup user table) [
      | some w ↦ count_try now user w table
      | none ↦
          if leb 1024 (length table)
          then (table, some auth_busy)
          else count_try now user (record { tries = 0; reset = now + minute }) table
    ]

-- factorVerified
unfoldable pub factor_verified : ℕ → Failures → Failures
unfolding erase
factor_verified user failures = erase user failures

-- totpStep, at a step after 1970: the first of three steps that is new and has the code; `expected`
-- is what GenerateCode returns for a step.
unfoldable pub match_step : (ℕ → Option String) → String → ℤ → List ℕ → Option ℕ
match_step expected code previous [] = none
match_step expected code previous (step ∷ steps) =
    let rest = match_step expected code previous steps in
    if not (under previous step) then rest else elim (expected step) [
      | none ↦ rest
      | some right ↦ if code == right then some step else rest
    ]

abbrev pub near_steps : ℕ → List ℕ
near_steps now = (unix now / 30 - 1) ∷ (unix now / 30) ∷ (unix now / 30 + 1) ∷ []

unfoldable pub totp_step : (ℕ → Option String) → String → ℕ → ℤ → Option ℕ
unfolding match_step bytes
totp_step expected code now previous =
    if not (bytes code == 6) then none else match_step expected code previous (near_steps now)

-- What the database has of the member, and the table of failures.
pub record Member : Type 0 where
  pub id : ℕ
  pub has_secret : Bool
  pub step : ℤ
  pub recovery : List String
  pub failures : Failures

-- The vault's secret, as the codes that it gives, or none if it cannot be opened; unicode.ToUpper;
-- and whether the two writes succeed.
pub record Check : Type 0 where
  pub has_cipher : Bool
  pub secret : Option (ℕ → Option String)
  pub upper : Char → Char
  pub advanced : Bool
  pub consumed : Bool

-- unicode.IsSpace
abbrev pub is_space : ℕ → Bool
is_space c =
    (leb 9 c && leb c 13)
    || c == 32
    || c == 0x85
    || c == 0xa0
    || c == 0x1680
    || (leb 0x2000 c && leb c 0x200a)
    || c == 0x2028
    || c == 0x2029
    || c == 0x202f
    || c == 0x205f
    || c == 0x3000

-- strings.TrimSpace
unfoldable pub trim_start : String → String
trim_start String.[] = ""
trim_start (String.◌∷◌ c s) =
    let rest = trim_start s in if is_space (code c) then rest else String.◌∷◌ c s

unfoldable pub trim_end : String → String
trim_end String.[] = ""
trim_end (String.◌∷◌ c s) =
    let rest = trim_end s in if rest == "" && is_space (code c) then "" else String.◌∷◌ c rest

-- strings.ReplaceAll(s, "-", "") and strings.ToUpper
unfoldable pub drop_dashes : (Char → Char) → String → String
drop_dashes upper String.[] = ""
drop_dashes upper (String.◌∷◌ c s) =
    let rest = drop_dashes upper s in
    if nat_beq (code c) b'-' then rest else String.◌∷◌ (upper c) rest

-- A code as recovery codes are stored.
unfoldable pub normalized : Check → String → String
unfolding trim_start trim_end drop_dashes
normalized k code = drop_dashes k.upper (trim_end (trim_start code))

-- ConsumeRecoveryCode: the row of the code's digest is deleted, if there is one.
unfoldable pub use_recovery : String → List String → Option (List String)
use_recovery code [] = none
use_recovery code (c ∷ cs) =
    if c == code
    then some cs
    else elim (use_recovery code cs) [ none ↦ none | some rest ↦ some (c ∷ rest) ]

unfoldable pub verify_recovery : Check → String → Member → Member × Option Refusal
unfolding use_recovery bytes factor_verified normalized
verify_recovery k code m =
    let text = normalized k code in
    if not (bytes text == 16)
    then (m, some invalid_factor)
    else if not k.consumed
    then (m, some store_failed)
    else elim (use_recovery text m.recovery) [
      | none ↦ (m, some invalid_factor)
      | some left ↦ (record m { recovery = left; failures = factor_verified m.id m.failures }, none)
    ]

-- From the secret on, once the attempt is counted.
unfoldable pub verify_secret : Check → ℕ → String → Member → Member × Option Refusal
unfolding totp_step verify_recovery factor_verified
verify_secret k now code m = elim k.secret [
  | none ↦ (m, some decrypt_failed)
  | some expected ↦ elim (totp_step expected code now m.step) [
    | none ↦ verify_recovery k code m
    | some step ↦
        if not k.advanced
        then (m, some store_failed)
        else (record m { step = pos step; failures = factor_verified m.id m.failures }, none)
  ]
]

-- verifyFactor
unfoldable pub verify_factor : Check → ℕ → String → Member → Member × Option Refusal
unfolding factor_attempt verify_secret bytes
verify_factor k now code m =
    if not m.has_secret
    then (m, none)
    else if code == ""
    then (m, some two_factor_required)
    else if ltb 64 (bytes code)
    then (m, some invalid_factor)
    else if not k.has_cipher
    then (m, some decrypt_failed)
    else let (table, refused) = factor_attempt now m.id m.failures in
      elim refused [
        | some e ↦ (record m { failures = table }, some e)
        | none ↦ verify_secret k now code (record m { failures = table })
      ]
