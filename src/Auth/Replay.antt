-- ===== src/Auth/Replay.antt =====
-- A second factor serves once: internal/auth/security.go.
use text.Mathlib.TextEquality.{eq_iff}
use sub_lane.Base.{
  In, ℕ, ◌+◌, ◌/◌, ◌≤◌, code, String, ◌≡◌, refl, sym, subst, ◌⊎◌, inl, inr, true, not, Option, none,
  some, List, [], ◌∷◌, arith, ltb, if◌then◌else◌, Bool-cases, Option-cases, ℤ, under, pos, ◌==◌,
  string_eq, nat_eq, int_eq,
}
use sub_lane.Gateway.State.{unix}
use sub_lane.Allowance.Normalize.{bytes}
use sub_lane.Auth.{
  Refusal, factor_attempt, factor_verified, match_step, near_steps, totp_step, Member, Check,
  normalized, use_recovery, verify_recovery, verify_secret, verify_factor, decrypt_failed,
  store_failed,
}

-- How often a recovery code is stored.
abbrev pub stored : String → List String → ℕ
stored code [] = 0
stored code (c ∷ cs) = (if c == code then 1 else 0) + stored code cs

-- The code of a step that is later than the last one, and at most one from the present.
pub record IsFresh (k : Check) (now : ℕ) (code : String) (last : ℤ) (codes : List String)
    (after : Member) : Type 0 where
  pub step : ℕ
  pub advanced : after.step ≡ pos step
  pub is_later : under last step ≡ true
  pub not_old : unix now / 30 ≤ step + 1
  pub not_ahead : step ≤ unix now / 30 + 1
  pub expected : ℕ → Option String
  pub opened : k.secret ≡ some expected
  pub matches : expected step ≡ some code
  pub same_recovery : after.recovery ≡ codes

-- A recovery code that was stored and is stored once less.
pub record IsSpent (k : Check) (code : String) (last : ℤ) (codes : List String) (after : Member)
    : Type 0 where
  pub spent : stored (normalized k code) codes ≡ stored (normalized k code) after.recovery + 1
  pub same_step : after.step ≡ last

-- The code is a step's, or a recovery code; a check that is refused uses up neither.
abbrev pub Decided : Check → ℕ → String → ℤ → List String → Member × Option Refusal → Type 0
Decided k now code last codes (after, some e) = (after.step ≡ last) × (after.recovery ≡ codes)
Decided k now code last codes (after, none) =
    IsFresh k now code last codes after ⊎ IsSpent k code last codes after

match_step-In :
    (expected : ℕ → Option String) (code : String) (previous : ℤ) (steps : List ℕ) (step : ℕ)
    → match_step expected code previous steps ≡ some step
    → In step steps × (under previous step ≡ true) × (expected step ≡ some code)
unfolding match_step
match_step-In expected code previous [] step h = absurd (ground arith)
match_step-In expected code previous (s ∷ ss) step h = elim (Option-cases (expected s)) [
  | inl silent ↦ ground (arith, silent, h, match_step-In expected code previous ss step)
  | inr (right, says) ↦
      ground (arith, says, h, eq_iff code right, match_step-In expected code previous ss step)
]

use_recovery-stored :
    (code : String) (cs left : List String)
    → use_recovery code cs ≡ some left
    → stored code cs ≡ stored code left + 1
unfolding use_recovery
use_recovery-stored code [] left h = absurd (ground arith)
use_recovery-stored code (c ∷ cs) left h = elim (Bool-cases (c == code)) [
  | inl it ↦
      let same : cs ≡ left = ground (arith, it, h) in
      rw it (subst (λ x. 1 + stored code cs ≡ stored code x + 1) same (omega arith))
  | inr other ↦ elim (Option-cases (use_recovery code cs)) [
    | inl gone ↦ absurd (ground (arith, other, gone, h))
    | inr (rest, used) ↦
        let same : c ∷ rest ≡ left = ground (arith, other, used, h) in
        subst (λ x. stored code (c ∷ cs) ≡ stored code x + 1) same
          (rw other (omega (arith, use_recovery-stored code cs rest used)))
  ]
]

near_steps-bounds :
    (now step : ℕ)
    → In step (near_steps now)
    → (unix now / 30 ≤ step + 1) × (step ≤ unix now / 30 + 1)
near_steps-bounds now step i = ground arith

totp_step-near :
    (expected : ℕ → Option String) (code : String) (now : ℕ) (last : ℤ) (step : ℕ)
    → totp_step expected code now last ≡ some step
    → match_step expected code last (near_steps now) ≡ some step
unfolding totp_step
totp_step-near expected code now last step h = ground (arith, h)

verify_recovery-Decided :
    (k : Check) (now : ℕ) (code : String) (m : Member)
    → Decided k now code m.step m.recovery (verify_recovery k code m)
unfolding verify_recovery
verify_recovery-Decided k now code m = elim (Bool-cases (not (bytes (normalized k code) == 16))) [
  | inl short ↦ rw short (refl, refl)
  | inr long ↦ elim (Bool-cases (not k.consumed)) [
    | inl failed ↦ rw (long, failed) (refl, refl)
    | inr written ↦ elim (Option-cases (use_recovery (normalized k code) m.recovery)) [
      | inl gone ↦ rw (long, written, gone) (refl, refl)
      | inr (left, used) ↦
          rw (long, written, used)
            (inr (record {
              spent = use_recovery-stored (normalized k code) m.recovery left used;
              same_step = refl;
            }))
    ]
  ]
]

verify_secret-Decided :
    (k : Check) (now : ℕ) (code : String) (m : Member)
    → Decided k now code m.step m.recovery (verify_secret k now code m)
unfolding verify_secret
verify_secret-Decided k now code m = elim (Option-cases k.secret) [
  | inl shut ↦
      let e : verify_secret k now code m ≡ (m, some decrypt_failed) = ground (arith, shut) in
      subst (Decided k now code m.step m.recovery) (sym e) (refl, refl)
  | inr (expected, opened) ↦ elim (Option-cases (totp_step expected code now m.step)) [
    | inl unmatched ↦
        let e : verify_secret k now code m ≡ verify_recovery k code m =
          ground (arith, opened, unmatched) in
        subst (Decided k now code m.step m.recovery) (sym e) (verify_recovery-Decided k now code m)
    | inr (step, found) ↦ elim (Bool-cases k.advanced) [
      | inr failed ↦
          let e : verify_secret k now code m ≡ (m, some store_failed) =
            ground (arith, opened, found, failed) in
          subst (Decided k now code m.step m.recovery) (sym e) (refl, refl)
      | inl written ↦
          let (near, later, says) =
            match_step-In expected code m.step (near_steps now) step
              (totp_step-near expected code now m.step step found) in
          let (old, ahead) = near_steps-bounds now step near in
          let after = record m { step = pos step; failures = factor_verified m.id m.failures } in
          let e : verify_secret k now code m ≡ (after, none) =
            ground (arith, opened, found, written) in
          subst (Decided k now code m.step m.recovery) (sym e) (
            inl (record {
              step = step;
              advanced = refl;
              is_later = later;
              not_old = old;
              not_ahead = ahead;
              expected = expected;
              opened = opened;
              matches = says;
              same_recovery = refl;
            }))
    ]
  ]
]

-- A member with a second factor: a check that succeeds has used up a code. It was the code of a
-- step that is later than the last one, at most one step from the present, and is now the last;
-- or it was a recovery code, which is stored once less. A check that is refused leaves the last
-- step and the recovery codes as they are.
pub verify_factor-Decided :
    (k : Check) (now : ℕ) (code : String) (m : Member)
    → m.has_secret ≡ true
    → Decided k now code m.step m.recovery (verify_factor k now code m)
unfolding verify_factor
verify_factor-Decided k now code m secret = elim (Bool-cases (code == "")) [
  | inl empty ↦ rw (secret, empty) (refl, refl)
  | inr given ↦ elim (Bool-cases (ltb 64 (bytes code))) [
    | inl long ↦ rw (secret, given, long) (refl, refl)
    | inr short ↦ elim (Bool-cases (not k.has_cipher)) [
      | inl bare ↦ rw (secret, given, short, bare) (refl, refl)
      | inr ciphered ↦ elim (Option-cases (factor_attempt now m.id m.failures).1) [
        | inr (e, limited) ↦ rw (secret, given, short, ciphered, limited) (refl, refl)
        | inl counted ↦
            rw (secret, given, short, ciphered, counted)
              (verify_secret-Decided k now code
                (record m { failures = (factor_attempt now m.id m.failures).0 }))
      ]
    ]
  ]
]
