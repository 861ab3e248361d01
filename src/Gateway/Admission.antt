-- ===== src/Gateway/Admission.antt =====
-- Whether an account, or a model of it, takes one more request now: `accountAdmission` of
-- internal/gateway/runtime.go and `modelRuntimeAdmission` of model_runtime.go.
use sub_lane.Base.{
  lookup, Map, ℕ, ◌-◌, ◌≤◌, ◌<◌, String, ◌≡◌, ◌⊎◌, inl, inr, true, false, not, ◌&&◌, ◌||◌, Option,
  none, some, arith, ltb, leb, if◌then◌else◌, Option-cases, ◌==◌, string_eq, nat_eq,
}
use sub_lane.Failure.{
  Failure, account_not_found, account_disabled, reauthorize, account_busy, plain, cooling,
}
use sub_lane.Gateway.State.{unix, Runtime, Account, ModelRuntime}

-- The part of `accountAdmission` that reads the runtime state.
unfoldable pub runtime_admission : Runtime → ℕ → Option Failure
runtime_admission r now =
    if ltb (unix now) r.cooldown_until
    then some (cooling (r.cooldown_until - unix now) "")
    else if leb r.max_concurrency r.in_flight
        || (ltb 0 r.cooldown_until && ltb 0 r.failures && ltb 0 r.in_flight)
    then some (plain account_busy)
    else none

unfoldable pub account_admission : Map String Runtime → ℕ → Account → Option Failure
account_admission health now a =
    if not a.enabled
    then some (plain account_disabled)
    else if a.status == "reauth_required"
    then some (plain reauthorize)
    else elim (lookup a.id health) [
      | none ↦ some (plain account_not_found)
      | some r ↦ runtime_admission r now
    ]

-- The nil state stands for a request that names no model.
unfoldable pub model_admission : Option ModelRuntime → ℕ → String → Option Failure
model_admission none now model = none
model_admission (some m) now model =
    if ltb now m.cooldown_until
    then some (cooling (m.cooldown_until - now) model)
    else if ltb 0 m.cooldown_until && ltb 0 m.failures && ltb 0 m.in_flight
    then some (plain account_busy)
    else none

-- An account that takes a request is enabled and authorized, is known, does not cool down, has
-- a free slot, and, if it still has failures on record, has no other request on trial.
pub record IsAdmissible (health : Map String Runtime) (now : ℕ) (a : Account) : Type 0 where
  pub is_enabled : a.enabled ≡ true
  pub authorized : (a.status == "reauth_required") ≡ false
  pub runtime : Runtime
  pub known : lookup a.id health ≡ some runtime
  pub warm : runtime.cooldown_until ≤ unix now
  pub has_slot : runtime.in_flight < runtime.max_concurrency
  pub one_probe : (runtime.cooldown_until ≡ 0) ⊎ (runtime.failures ≡ 0) ⊎ (runtime.in_flight ≡ 0)

runtime_admission_sound :
    (r : Runtime) (now : ℕ)
    → runtime_admission r now ≡ none
    → (r.cooldown_until ≤ unix now)
      × (r.in_flight < r.max_concurrency)
      × ((r.cooldown_until ≡ 0) ⊎ (r.failures ≡ 0) ⊎ (r.in_flight ≡ 0))
unfolding runtime_admission
runtime_admission_sound r now h = ground arith

-- An account that `accountAdmission` lets through is enabled and needs no new authorization, has a
-- runtime state, does not cool down, has a free slot, and is on trial by no other request: it
-- has no cooldown on record, or no failure, or nothing in flight.
pub account_admission-IsAdmissible :
    (health : Map String Runtime) (now : ℕ) (a : Account)
    → account_admission health now a ≡ none
    → IsAdmissible health now a
unfolding account_admission
account_admission-IsAdmissible health now a h = elim (Option-cases (lookup a.id health)) [
  | inl e ↦ absurd (ground arith)
  | inr (r, e) ↦
      let (warm, slot, probe) = runtime_admission_sound r now (ground arith) in
      record {
        is_enabled = ground arith;
        authorized = ground arith;
        runtime = r;
        known = e;
        warm = warm;
        has_slot = slot;
        one_probe = probe;
      }
]
