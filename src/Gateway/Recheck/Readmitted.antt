-- ===== src/Gateway/Recheck/Readmitted.antt =====
-- A request that `recheckAttempt` lets through again: internal/gateway/retry.go.
use sub_lane.Base.{
  lookup, ℕ, ◌≤◌, String, ◌≡◌, refl, sym, ◌∙◌, subst, ◌⊎◌, inl, inr, Bool, true, false, not, ◌&&◌,
  ◌||◌, Option, none, some, List, arith, if◌then◌else◌, Option-cases, ◌==◌, string_eq, nat_eq,
  int_eq,
}
use sub_lane.Failure.{
  seq_ok, Failure, Result, ◌>>◌, ◌>>=◌, unless, Result-cases, unless_ok, bind_ok, account_disabled,
  reauthorize, group_unavailable, affinity_unavailable, model_not_allowed, plain, err, ok,
}
use sub_lane.Gateway.Lease.{RuntimeRow, load_runtime}
use sub_lane.Gateway.Recheck.{
  Attempt, Snapshot, recheck_key, recheck_limits, recheck_member, recheck_runtime, recheck_model,
  recheck_catalog, recheck_account, recheck_quota, succeeds, recheck_policy, recheck_state,
  recheck_in_snapshot, recheck_attempt,
}
use sub_lane.Gateway.Selection.{
  is_compact, Ask, Scene, failing, provider_enabled, supports, find_model,
}
use sub_lane.Gateway.Selection.Candidates.{Gate, is_allowed, look_at}
use sub_lane.Gateway.Service.{Service, active, Limits, model_key_eq}
use sub_lane.Groups.{ModelPolicy, allows_provider, allows_resource}
use sub_lane.Gateway.Recheck.Load.{
  unless-false, recheck_runtime-load, recheck_model-load, recheck_quota-fit,
  recheck_catalog-supports, IsLoaded, look_at_load-IsLoaded, look_at_model-IsLoaded, look_at-model,
}

-- The state that the recheck is made on: it was read anew.
abbrev pub reloaded :
    List RuntimeRow → Scene → Ask → List String → ModelPolicy → String → Service → ℕ → Gate
reloaded rows x ask ids policy parent s now = record {
  service = load_runtime rows s;
  scene = x;
  ask = ask;
  policy = policy;
  allowed = ids;
  parent_account = parent;
  now = now;
}

-- The selection that the request was made with, and the account's row.
pub record Suits (x : Scene) (y : Snapshot) (a : Attempt) (ask : Ask) : Type 0 where
  pub same_model : ask.model ≡ a.model
  pub same_account : y.row.account.id ≡ a.account_id
  pub same_provider : y.row.account.provider ≡ a.provider
  pub provider_on : provider_enabled x.codex_only y.row.account.provider ≡ true
  pub asked_for : (not (ask.provider == "") && not (y.row.account.provider == ask.provider)) ≡ false
  pub speaks : (is_compact ask.kind && not (y.row.account.provider == "codex")) ≡ false

-- What a recheck that succeeds has found.
pub record IsReadmitted (x : Scene) (y : Snapshot) (a : Attempt) (s : Service) (now : ℕ)
    : Type 0 where
  pub limits : Limits
  pub member : y.limits ≡ ok (some limits)
  pub member_on : limits.enabled ≡ true
  pub member_fits :
      (limits.max_concurrency ≡ 0) ⊎ (active s.member_active a.user_id ≤ limits.max_concurrency)
  pub rows : List RuntimeRow
  pub loaded : x.load ≡ ok rows
  pub ids : List String
  pub pool : x.members_of_pool ≡ ok ids
  pub policy : ModelPolicy
  pub read : x.policy ≡ ok policy
  pub selected :
      (ask : Ask) (parent : String)
      → Suits x y a ask
      → IsLoaded (look_at (reloaded rows x ask ids policy parent s now) y.row)

recheck_limits-fit :
    (m : Result (Option Limits)) (in_flight : ℕ)
    → recheck_limits m in_flight ≡ ok tt
    → (l : Limits) × (m ≡ ok (some l))
      × (l.enabled ≡ true)
      × ((l.max_concurrency ≡ 0) ⊎ (in_flight ≤ l.max_concurrency))
unfolding recheck_limits
recheck_limits-fit (err e) in_flight h = absurd (ground arith)
recheck_limits-fit (ok none) in_flight h = absurd (ground arith)
recheck_limits-fit (ok (some l)) in_flight h = (l, refl, ground (arith, h), ground (arith, h))

-- The tests of the policy and of the state, one by one.
recheck_policy-passes :
    (y : Snapshot) (a : Attempt) (policy : ModelPolicy)
    → recheck_policy y a policy ≡ ok tt
    → (allows_provider policy a.provider ≡ true)
      × (allows_resource policy a.provider a.model ≡ true)
unfolding recheck_policy
recheck_policy-passes y a policy h =
    let (passed, rest) =
      unless_ok
        (not (allows_provider policy a.provider) || not (allows_resource policy a.provider a.model))
        (plain model_not_allowed)
        (y.scheme >>= λ scheme. unless (not (scheme == a.scheme_id)) (plain group_unavailable)) tt
        h in
    (ground (arith, passed), ground (arith, passed))

record Passes (x : Scene) (y : Snapshot) (a : Attempt) (s : Service) (now : ℕ) : Type 0 where
  runtime : recheck_runtime (lookup a.account_id s.health) now ≡ ok tt
  model : recheck_model s (find_model s x a.account_id a.model) a.model now ≡ ok tt
  catalog : recheck_catalog x y a now ≡ ok tt
  account : recheck_account y ≡ ok tt
  quota : recheck_quota y a.model now ≡ ok tt

recheck_state-Passes :
    (x : Scene) (y : Snapshot) (a : Attempt) (s : Service) (now : ℕ)
    → recheck_state x y a s now ≡ ok tt
    → Passes x y a s now
recheck_state-Passes x y a s now h =
    let quota' = recheck_quota y a.model now >> succeeds x.commit in
    let account' = recheck_account y >> quota' in
    let catalog' = recheck_catalog x y a now >> account' in
    let model' = recheck_model s (find_model s x a.account_id a.model) a.model now >> catalog' in
    let (runtime, h₁) =
      seq_ok (recheck_runtime (lookup a.account_id s.health) now) model' tt
        (unfold recheck_state in h) in
    let (model, h₂) =
      seq_ok (recheck_model s (find_model s x a.account_id a.model) a.model now) catalog' tt h₁ in
    let (catalog, h₃) = seq_ok (recheck_catalog x y a now) account' tt h₂ in
    let (account, h₄) = seq_ok (recheck_account y) quota' tt h₃ in
    let (quota, h₅) = seq_ok (recheck_quota y a.model now) (succeeds x.commit) tt h₄ in
    record { runtime = runtime; model = model; catalog = catalog; account = account; quota = quota }

recheck_account-valid :
    (y : Snapshot)
    → recheck_account y ≡ ok tt
    → (y.row.account.enabled ≡ true) × ((y.row.account.status == "reauth_required") ≡ false)
unfolding recheck_account
recheck_account-valid y h =
    let (read, rest) =
      seq_ok (failing y.account_read (ok tt))
        (unless (not y.row.account.enabled) (plain account_disabled)
          >> unless (y.row.account.status == "reauth_required") (plain reauthorize))
        tt h in
    let (on, valid) =
      unless_ok (not y.row.account.enabled) (plain account_disabled)
        (unless (y.row.account.status == "reauth_required") (plain reauthorize)) tt rest in
    (ground (arith, on), unless-false _ (plain reauthorize) valid)

not_down :
    (on up bad : Bool) → on ≡ true → up ≡ true → bad ≡ false → (not on || not up || bad) ≡ false
not_down on up bad h k l = ground arith

not_outside :
    (admits inside other mute : Bool)
    → admits ≡ true
    → inside ≡ true
    → other ≡ false
    → mute ≡ false
    → (not admits || not inside || other || mute) ≡ false
not_outside admits inside other mute h k l m = ground arith

Passes-IsLoaded :
    (x : Scene) (y : Snapshot) (a : Attempt) (s : Service) (now : ℕ) (rows : List RuntimeRow)
    (ids : List String) (policy : ModelPolicy) (ask : Ask) (parent : String)
    → Passes x y a (load_runtime rows s) now
    → is_allowed ids a.account_id ≡ true
    → recheck_policy y a policy ≡ ok tt
    → Suits x y a ask
    → IsLoaded (look_at (reloaded rows x ask ids policy parent s now) y.row)
Passes-IsLoaded x y a s now rows ids policy ask parent p pooled allowed suits =
    let g = reloaded rows x ask ids policy parent s now in
    let s' = load_runtime rows s in
    let (on, valid) = recheck_account-valid y p.account in
    let (provider', resource) = recheck_policy-passes y a policy allowed in
    let runtime' =
      recheck_runtime-load s'.health now y.row.account (rw suits.same_account p.runtime) on valid in
    let model' = recheck_model-load s' x now a.account_id a.model p.model in
    let load =
      look_at_load-IsLoaded g y.row runtime'
        (rw suits.same_model (recheck_quota-fit y a.model now p.quota))
        (rw (suits.same_account, suits.same_model) model') in
    let known : supports x y.row ask.model now ≡ ok (true, true) =
      rw suits.same_model (recheck_catalog-supports x y a now p.catalog suits.same_provider) in
    let e =
      look_at-model g y.row (not_down _ _ _ suits.provider_on on valid)
        (not_outside _ _ _ _ (rw suits.same_provider provider') (rw suits.same_account pooled)
          suits.asked_for suits.speaks)
        (rw (suits.same_provider, suits.same_model) resource) in
    subst IsLoaded (sym e) (look_at_model-IsLoaded g y.row known load)

recheck_in_snapshot-IsReadmitted :
    (x : Scene) (y : Snapshot) (a : Attempt) (s : Service) (now : ℕ) (rows : List RuntimeRow)
    → x.load ≡ ok rows
    → recheck_in_snapshot x y a (load_runtime rows s) now ≡ ok tt
    → IsReadmitted x y a s now
recheck_in_snapshot-IsReadmitted x y a s now rows loaded h =
    let s' = load_runtime rows s in
    let policed =
      λ (policy : ModelPolicy). recheck_policy y a policy >> recheck_state x y a s' now in
    let pooled = λ (ids : List String).
      unless (not (is_allowed ids a.account_id)) (plain affinity_unavailable)
      >> (x.policy >>= policed) in
    let (begun, h₁) =
      seq_ok (succeeds y.begun) (recheck_member y a s' now >> (x.members_of_pool >>= pooled)) tt
        (unfold recheck_in_snapshot in h) in
    let (member, h₂) = seq_ok (recheck_member y a s' now) (x.members_of_pool >>= pooled) tt h₁ in
    let (ids, pool, h₃) = bind_ok x.members_of_pool pooled tt h₂ in
    let (inside, h₄) =
      unless_ok (not (is_allowed ids a.account_id)) (plain affinity_unavailable)
        (x.policy >>= policed) tt h₃ in
    let (policy, read, h₅) = bind_ok x.policy policed tt h₄ in
    let (allowed, h₆) = seq_ok (recheck_policy y a policy) (recheck_state x y a s' now) tt h₅ in
    let (counted, keyed) =
      seq_ok (recheck_limits y.limits (active s'.member_active a.user_id))
        (if not (a.key_id == 0) then recheck_key y.key a.group_id now else ok tt) tt
        (unfold recheck_member in member) in
    let (limits, limited, on, fits) =
      recheck_limits-fit y.limits (active s'.member_active a.user_id) counted in
    record {
      limits = limits;
      member = limited;
      member_on = on;
      member_fits = unfold load_runtime in fits;
      rows = rows;
      loaded = loaded;
      ids = ids;
      pool = pool;
      policy = policy;
      read = read;
      selected = λ ask parent suits.
          Passes-IsLoaded x y a s now rows ids policy ask parent
            (recheck_state-Passes x y a s' now h₆) (ground (arith, inside)) allowed suits;
    }

module _ (x : Scene) (y : Snapshot) (a : Attempt) (s : Service) (now : ℕ) where
  blocked_attempt : (e : Failure) → y.content ≡ some e → (recheck_attempt x y a s now).1 ≡ err e
  unfolding recheck_attempt
  blocked_attempt e blocked = rw (blocked, recheck_attempt)

  unloaded_attempt :
      (e : Failure) → y.content ≡ none → x.load ≡ err e → (recheck_attempt x y a s now).1 ≡ err e
  unfolding recheck_attempt
  unloaded_attempt e clean failed = rw (clean, failed, recheck_attempt)

  loaded_attempt :
      (rows : List RuntimeRow)
      → y.content ≡ none
      → x.load ≡ ok rows
      → (recheck_attempt x y a s now).1 ≡ recheck_in_snapshot x y a (load_runtime rows s) now
  unfolding recheck_attempt
  loaded_attempt rows clean loaded = rw (clean, loaded, recheck_attempt)

-- A request that is let through again: its member is enabled and within its limit of requests at
-- once, and for every selection that the account suits, the loop of the selection, on the state,
-- the pool and the policy that the recheck has read, finds the account fit or turns it away for
-- its load only: it is full or on trial, its model is on trial, or the allowance refuses.
pub recheck_attempt-IsReadmitted :
    (x : Scene) (y : Snapshot) (a : Attempt) (s : Service) (now : ℕ)
    → (recheck_attempt x y a s now).1 ≡ ok tt
    → IsReadmitted x y a s now
recheck_attempt-IsReadmitted x y a s now h = elim (Option-cases y.content) [
  | inr (e, blocked) ↦ absurd (ground (arith, blocked_attempt x y a s now e blocked))
  | inl clean ↦ elim (Result-cases x.load) [
    | inl (e, failed) ↦ absurd (ground (arith, unloaded_attempt x y a s now e clean failed))
    | inr (rows, loaded) ↦
        recheck_in_snapshot-IsReadmitted x y a s now rows loaded
          (sym (loaded_attempt x y a s now rows clean loaded) ∙ h)
  ]
]
