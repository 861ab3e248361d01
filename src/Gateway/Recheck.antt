-- ===== src/Gateway/Recheck.antt =====
-- What a waiting or a replayed request must still satisfy: `recheckMember` of
-- internal/gateway/queue.go and `recheckAttempt` of retry.go.
pub mod Load
pub mod Readmitted
use sub_lane.Base.{
  any, lookup, ℕ, ◌-◌, String, Bool, false, not, ◌&&◌, ◌||◌, Option, none, some, ltb, leb,
  if◌then◌else◌, ◌==◌, string_eq, nat_eq, int_eq,
}
use sub_lane.Failure.{
  Failure, Result, ◌>>◌, ◌>>=◌, unless, account_not_found, account_disabled, reauthorize,
  group_unavailable, affinity_unavailable, member_busy, model_not_allowed, catalog_unavailable,
  model_unavailable, plain, cooling, quota, err, ok,
}
use sub_lane.Groups.{ModelPolicy, allows_provider, allows_resource}
use sub_lane.Gateway.State.{unix, Runtime}
use sub_lane.Gateway.Catalog.{catalog_supports}
use sub_lane.Gateway.Service.{Service, active, Limits, model_key_eq}
use sub_lane.Gateway.Lease.{load_runtime, ModelRef}
use sub_lane.Gateway.Selection.{Row, Scene, failing, quota_admission, state_of, find_model}
use sub_lane.Gateway.Selection.Candidates.{is_allowed}

-- A row of GetKey.
pub record Key : Type 0 where
  pub enabled : Bool
  pub revoked : Bool
  pub expires_at : Option ℕ
  pub group_id : ℕ

-- What the request's record says, and the account and the model that it runs on.
pub record Attempt : Type 0 where
  pub user_id : ℕ
  pub key_id : ℕ
  pub group_id : ℕ
  pub scheme_id : ℕ
  pub provider : String
  pub account_id : String
  pub model : String

-- What the queries of a recheck return; no row is `none`. The account, its catalog and its usage
-- are read one by one, each with its error.
pub record Snapshot : Type 0 where
  pub content : Option Failure
  pub begun : Option Failure
  pub limits : Result (Option Limits)
  pub key : Result (Option Key)
  pub scheme : Result ℕ
  pub catalog_read : Option Failure
  pub account_read : Option Failure
  pub usage_read : Option Failure
  pub row : Row

abbrev pub is_expired : Option ℕ → ℕ → Bool
is_expired none now = false
is_expired (some at) now = leb at (unix now)

abbrev pub key_refused : Key → ℕ → ℕ → Bool
key_refused k group now =
    not k.enabled || k.revoked || is_expired k.expires_at now || not (k.group_id == group)

abbrev unavailable : Failure
unavailable = plain group_unavailable

unfoldable pub recheck_key : Result (Option Key) → ℕ → ℕ → Result (Unit {0})
recheck_key (err e) group now = err e
recheck_key (ok none) group now = err unavailable
recheck_key (ok (some k)) group now = unless (key_refused k group now) unavailable

-- recheckMember
unfoldable pub recheck_limits : Result (Option Limits) → ℕ → Result (Unit {0})
recheck_limits (err e) in_flight = err e
recheck_limits (ok none) in_flight = err unavailable
recheck_limits (ok (some l)) in_flight =
    unless (not l.enabled) unavailable
    >> unless (ltb 0 l.max_concurrency && ltb l.max_concurrency in_flight) (plain member_busy)

unfoldable pub recheck_member : Snapshot → Attempt → Service → ℕ → Result (Unit {0})
unfolding recheck_limits recheck_key
recheck_member y a s now =
    recheck_limits y.limits (active s.member_active a.user_id)
    >> (if not (a.key_id == 0) then recheck_key y.key a.group_id now else ok tt)

-- The cooldown of the account, and of the model.
unfoldable pub recheck_runtime : Option Runtime → ℕ → Result (Unit {0})
recheck_runtime none now = err (plain account_not_found)
recheck_runtime (some r) now =
    unless (ltb (unix now) r.cooldown_until) (cooling (r.cooldown_until - unix now) "")

unfoldable pub recheck_model : Service → Result (Option ModelRef) → String → ℕ → Result (Unit {0})
recheck_model s (err e) model now = err e
recheck_model s (ok none) model now = ok tt
recheck_model s (ok (some ref)) model now =
    let until = (state_of s ref).cooldown_until in
    unless (ltb (unix now) until) (cooling (until - unix now) model)

-- catalogSupport and what the recheck makes of its answer.
unfoldable pub recheck_catalog : Scene → Snapshot → Attempt → ℕ → Result (Unit {0})
unfolding catalog_supports
recheck_catalog x y a now = failing y.catalog_read y.row.catalog >>= λ c.
    let (known, supported) = catalog_supports c now a.model (x.catalog_source a.provider) in
    unless (not known) (plain catalog_unavailable)
    >> unless (not supported) (plain model_unavailable)

unfoldable pub recheck_account : Snapshot → Result (Unit {0})
recheck_account y =
    failing y.account_read (ok tt)
    >> (unless (not y.row.account.enabled) (plain account_disabled)
        >> unless (y.row.account.status == "reauth_required") (plain reauthorize))

unfoldable pub recheck_quota : Snapshot → String → ℕ → Result (Unit {0})
unfolding quota_admission
recheck_quota y model now =
    failing y.usage_read
      (elim (quota_admission y.row model now) [ none ↦ ok tt | some wait ↦ err (quota wait) ])

abbrev pub succeeds : Option Failure → Result (Unit {0})
succeeds e = failing e (ok tt)

-- From the model's policy on.
unfoldable pub recheck_policy : Snapshot → Attempt → ModelPolicy → Result (Unit {0})
unfolding allows_provider allows_resource
recheck_policy y a policy =
    unless
      (not (allows_provider policy a.provider) || not (allows_resource policy a.provider a.model))
      (plain model_not_allowed)
    >> (y.scheme >>= λ scheme. unless (not (scheme == a.scheme_id)) unavailable)

-- From the account's state on.
unfoldable pub recheck_state : Scene → Snapshot → Attempt → Service → ℕ → Result (Unit {0})
unfolding lookup recheck_runtime find_model recheck_model recheck_catalog recheck_account
    recheck_quota
recheck_state x y a s now =
    recheck_runtime (lookup a.account_id s.health) now
    >> (recheck_model s (find_model s x a.account_id a.model) a.model now
        >> (recheck_catalog x y a now
            >> (recheck_account y >> (recheck_quota y a.model now >> succeeds x.commit))))

-- The part of recheckAttempt in its transaction.
unfoldable pub recheck_in_snapshot : Scene → Snapshot → Attempt → Service → ℕ → Result (Unit {0})
unfolding recheck_member recheck_policy recheck_state any
recheck_in_snapshot x y a s now =
    succeeds y.begun
    >> (recheck_member y a s now
        >> (x.members_of_pool >>= λ ids.
            unless (not (is_allowed ids a.account_id)) (plain affinity_unavailable)
            >> (x.policy >>= λ policy. recheck_policy y a policy >> recheck_state x y a s now)))

-- recheckAttempt: the state of the service, which is read anew, and the error.
unfoldable pub recheck_attempt :
    Scene → Snapshot → Attempt → Service → ℕ → Service × Result (Unit {0})
unfolding load_runtime recheck_in_snapshot
recheck_attempt x y a s now = elim y.content [
  | some e ↦ (s, err e)
  | none ↦ elim x.load [
    | err e ↦ (s, err e)
    | ok rows ↦ (load_runtime rows s, recheck_in_snapshot x y a (load_runtime rows s) now)
  ]
]
