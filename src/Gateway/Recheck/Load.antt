-- ===== src/Gateway/Recheck/Load.antt =====
-- What the tests of `recheckAttempt` say of an account's load: internal/gateway/retry.go.
use sub_lane.Base.{
  lookup, Map, ℕ, ◌-◌, String, ◌≡◌, refl, sym, ap, subst, ◌⊎◌, inl, inr, Bool, true, false, not,
  Option, none, some, arith, ltb, Bool-cases, Option-cases, ◌==◌, string_eq, nat_eq, int_eq,
}
use sub_lane.Failure.{
  Failure, Result, ◌>>◌, unless, unless_ok, bind_ok, account_busy, catalog_unavailable,
  model_unavailable, plain, cooling, err, ok,
}
use sub_lane.Gateway.Admission.{runtime_admission, account_admission, model_admission}
use sub_lane.Gateway.Catalog.{catalog_model_id, Catalog, catalog_supports}
use sub_lane.Gateway.Lease.{ModelRef}
use sub_lane.Gateway.Recheck.{
  Attempt, Snapshot, recheck_runtime, recheck_model, recheck_catalog, recheck_quota,
}
use sub_lane.Gateway.Selection.{
  Row, Scene, failing, supports, quota_admission, state_of, find_model, model_gate, allowance_gate,
}
use sub_lane.Gateway.Selection.Candidates.{
  Look, Gate, is_down, is_outside, has_model, rank_of, look_at_load, look_at_model, look_at,
  account_refused, model_refused, allowance_refused, fit,
}
use sub_lane.Gateway.Service.{Service, model_key_eq}
use sub_lane.Gateway.State.{unix, Runtime, Account, ModelRuntime}
use sub_lane.Groups.{allows_resource}

pub failing_ok {ℓ} :
    {V : Type ℓ} (e : Option Failure) (k : Result V) (v : V) → failing e k ≡ ok v → k ≡ ok v
failing_ok none k v h = h
failing_ok (some e) k v h = absurd (ground arith)

pub unless-false : (b : Bool) (e : Failure) → unless b e ≡ ok tt → b ≡ false
unless-false true e h = absurd (ground arith)
unless-false false e h = refl

pub busy : Option Failure
busy = some (plain account_busy)

-- An account that does not cool down is turned away for its load only.
pub recheck_runtime-load :
    (health : Map String Runtime) (now : ℕ) (a : Account)
    → recheck_runtime (lookup a.id health) now ≡ ok tt
    → a.enabled ≡ true
    → (a.status == "reauth_required") ≡ false
    → (account_admission health now a ≡ none)
      ⊎ (account_admission health now a ≡ some (plain account_busy))
unfolding recheck_runtime account_admission runtime_admission
recheck_runtime-load health now a h on valid = elim (Option-cases (lookup a.id health)) [
  | inl gone ↦ absurd (ground (arith, gone, h))
  | inr (r, known) ↦ ground (arith, known, h)
]

pub model_admission-load :
    (m : ModelRuntime) (now : ℕ) (model : String)
    → ltb now m.cooldown_until ≡ false
    → (model_admission (some m) now model ≡ none)
      ⊎ (model_admission (some m) now model ≡ some (plain account_busy))
unfolding model_admission
model_admission-load m now model h = ground (arith, h)

abbrev pub gate_of : Service → ℕ → String → Result (Option ModelRef) → Option Failure
gate_of s now model (err e) = some e
gate_of s now model (ok none) = none
gate_of s now model (ok (some ref)) =
    model_admission (some (state_of s ref)) (unix now) (catalog_model_id model)

pub gate_of-load :
    (s : Service) (now : ℕ) (model : String) (m : Result (Option ModelRef))
    → recheck_model s m model now ≡ ok tt
    → (gate_of s now model m ≡ none) ⊎ (gate_of s now model m ≡ some (plain account_busy))
unfolding recheck_model
gate_of-load s now model (err e) h = absurd (ground arith)
gate_of-load s now model (ok none) h = inl refl
gate_of-load s now model (ok (some ref)) h =
    model_admission-load (state_of s ref) (unix now) (catalog_model_id model)
      (unless-false _ (cooling ((state_of s ref).cooldown_until - unix now) model) h)

pub model_gate-gate_of :
    (s : Service) (x : Scene) (now : ℕ) (id model : String)
    → model_gate s x now id model ≡ gate_of s now model (find_model s x id model)
unfolding model_gate
model_gate-gate_of s x now id model = ground arith

pub recheck_model-load :
    (s : Service) (x : Scene) (now : ℕ) (id model : String)
    → recheck_model s (find_model s x id model) model now ≡ ok tt
    → (model_gate s x now id model ≡ none)
      ⊎ (model_gate s x now id model ≡ some (plain account_busy))
recheck_model-load s x now id model h =
    rw (model_gate-gate_of s x now id model) (gate_of-load s now model (find_model s x id model) h)

pub recheck_quota-fit :
    (y : Snapshot) (model : String) (now : ℕ)
    → recheck_quota y model now ≡ ok tt
    → quota_admission y.row model now ≡ none
unfolding recheck_quota
recheck_quota-fit y model now h = elim (Option-cases (quota_admission y.row model now)) [
  | inl fits ↦ fits
  | inr (wait, refused) ↦ absurd (ground (arith, refused, h))
]

pub both_true : (p : Bool × Bool) → p.0 ≡ true → p.1 ≡ true → p ≡ (true, true)
both_true p h k = ground arith

pub supports-true :
    (x : Scene) (row : Row) (model : String) (now : ℕ) (c : Catalog)
    → row.catalog ≡ ok c
    → catalog_supports c now model (x.catalog_source row.account.provider) ≡ (true, true)
    → supports x row model now ≡ ok (true, true)
unfolding supports
supports-true x row model now c read told = rw (read, supports) (ap ok told)

pub recheck_catalog-supports :
    (x : Scene) (y : Snapshot) (a : Attempt) (now : ℕ)
    → recheck_catalog x y a now ≡ ok tt
    → y.row.account.provider ≡ a.provider
    → supports x y.row a.model now ≡ ok (true, true)
unfolding recheck_catalog
recheck_catalog-supports x y a now h same =
    let answer = λ (c : Catalog). catalog_supports c now a.model (x.catalog_source a.provider) in
    let (c, read, told) =
      bind_ok (failing y.catalog_read y.row.catalog)
        (λ c.
          unless (not (answer c).0) (plain catalog_unavailable)
          >> unless (not (answer c).1) (plain model_unavailable))
        tt h in
    let (known, rest) =
      unless_ok (not (answer c).0) (plain catalog_unavailable)
        (unless (not (answer c).1) (plain model_unavailable)) tt told in
    let supported = unless-false (not (answer c).1) (plain model_unavailable) rest in
    supports-true x y.row a.model now c (failing_ok y.catalog_read y.row.catalog c read)
      (rw same (both_true (answer c) (ground (arith, known)) (ground (arith, supported))))

-- The account is fit, or it is turned away for what is on it now: a full account, a trial of the
-- model, or the member's allowance.
abbrev pub IsLoaded : Look → Type 0
IsLoaded l =
    (l ≡ account_refused (plain account_busy))
    ⊎ (l ≡ model_refused (plain account_busy))
    ⊎ ((e : Failure) × (l ≡ allowance_refused e))
    ⊎ ((rank : ℕ) × (l ≡ fit rank))

pub look_at_load-IsLoaded :
    (g : Gate) (row : Row)
    → (account_admission g.service.health g.now row.account ≡ none)
      ⊎ (account_admission g.service.health g.now row.account ≡ some (plain account_busy))
    → quota_admission row g.ask.model g.now ≡ none
    → (model_gate g.service g.scene g.now row.account.id g.ask.model ≡ none)
      ⊎ (model_gate g.service g.scene g.now row.account.id g.ask.model ≡ some (plain account_busy))
    → IsLoaded (look_at_load g row)
unfolding look_at_load
look_at_load-IsLoaded g row (inr full) fits model = inl (ground (arith, full))
look_at_load-IsLoaded g row (inl open') fits (inr trial) =
    inr (inl (ground (arith, open', fits, trial)))
look_at_load-IsLoaded g row (inl open') fits (inl free) =
    elim (Option-cases (allowance_gate g.scene g.ask row.account.id)) [
      | inl pays ↦ inr (inr (inr (rank_of g row.account, ground (arith, open', fits, free, pays))))
      | inr (e, spent) ↦ inr (inr (inl (e, ground (arith, open', fits, free, spent))))
    ]

pub look_at_model-IsLoaded :
    (g : Gate) (row : Row)
    → supports g.scene row g.ask.model g.now ≡ ok (true, true)
    → IsLoaded (look_at_load g row)
    → IsLoaded (look_at_model g row)
unfolding look_at_model
look_at_model-IsLoaded g row known load = elim (Bool-cases (has_model g)) [
  | inl named ↦
      let e : look_at_model g row ≡ look_at_load g row = ground (arith, named, known) in
      subst IsLoaded (sym e) load
  | inr unnamed ↦
      let e : look_at_model g row ≡ look_at_load g row = ground (arith, unnamed) in
      subst IsLoaded (sym e) load
]

pub look_at-model :
    (g : Gate) (row : Row)
    → is_down g row.account ≡ false
    → is_outside g row.account ≡ false
    → allows_resource g.policy row.account.provider g.ask.model ≡ true
    → look_at g row ≡ look_at_model g row
unfolding look_at
look_at-model g row up inside allowed = ground (arith, up, inside, allowed)
