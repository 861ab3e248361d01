-- ===== src/Gateway/Route.antt =====
-- The explanation of a routing decision: internal/gateway/route.go. It holds fixed codes and
-- bounded counts only.
use sub_lane.Base.{ℕ, ◌+◌, ◌≤◌, min, Bool, ◌||◌, Option, none, some, arith, if◌then◌else◌}
use sub_lane.Failure.{
  Failure, is, provider_disabled, account_not_found, account_disabled, reauthorize,
  group_unavailable, affinity_unavailable, model_conflict, gateway_busy, account_busy,
  account_cooling, model_cooling, quota_exhausted, model_not_allowed, catalog_unavailable,
  model_unavailable, allocation_quota, allocation_pending, allocation_risk, allocation_unpriced,
  allocation_unavailable,
}

abbrev pub max_route_count : ℕ
max_route_count = 10000

pub data Strategy : Type 0 where
  no_strategy affinity parent rotation quota_weighted : Strategy

pub data RouteResult : Type 0 where
  selected_route rejected_route : RouteResult

-- RouteExclusions; `concurrency` and the rest are counters.
pub record Exclusions : Type 0 where
  pub model : ℕ
  pub policy : ℕ
  pub quota_count : ℕ
  pub cooldown : ℕ
  pub concurrency : ℕ
  pub unavailable : ℕ

-- RouteExplanation
pub record Route : Type 0 where
  pub strategy : Strategy
  pub result : RouteResult
  pub candidates : ℕ
  pub parent_fallback : Bool
  pub exclusions : Exclusions

abbrev pub no_exclusions : Exclusions
no_exclusions = record {
  model = 0;
  policy = 0;
  quota_count = 0;
  cooldown = 0;
  concurrency = 0;
  unavailable = 0;
}

-- min(maxRouteCount, n+1)
abbrev pub bump : ℕ → ℕ
bump n = min max_route_count (n + 1)

-- The counter that the `switch` of `reject` points to.
pub data Heading : Type 0 where
  on_model on_policy on_quota on_cooldown on_concurrency on_unavailable : Heading

unfoldable pub heading : Failure → Option Heading
heading e =
    if is e model_unavailable || is e catalog_unavailable || is e model_conflict
    then some on_model
    else if is e model_not_allowed || is e affinity_unavailable || is e group_unavailable
    then some on_policy
    else if is e quota_exhausted
        || is e allocation_quota
        || is e allocation_pending
        || is e allocation_risk
        || is e allocation_unpriced
        || is e allocation_unavailable
    then some on_quota
    else if is e account_cooling || is e model_cooling
    then some on_cooldown
    else if is e account_busy || is e gateway_busy
    then some on_concurrency
    else if is e account_not_found
        || is e provider_disabled
        || is e account_disabled
        || is e reauthorize
    then some on_unavailable
    else none

unfoldable pub record_under : Option Heading → Exclusions → Exclusions
record_under (some on_model) x = record x { model = bump x.model }
record_under (some on_policy) x = record x { policy = bump x.policy }
record_under (some on_quota) x = record x { quota_count = bump x.quota_count }
record_under (some on_cooldown) x = record x { cooldown = bump x.cooldown }
record_under (some on_concurrency) x = record x { concurrency = bump x.concurrency }
record_under (some on_unavailable) x = record x { unavailable = bump x.unavailable }
record_under none x = x

unfoldable pub reject : Exclusions → Failure → Exclusions
unfolding heading record_under
reject x e = record_under (heading e) x

abbrev pub total : Exclusions → ℕ
total x = x.model + x.policy + x.quota_count + x.cooldown + x.concurrency + x.unavailable

-- What `decodeRoute` demands of the counters.
pub record IsBounded (x : Exclusions) : Type 0 where
  pub model_bounded : x.model ≤ max_route_count
  pub policy_bounded : x.policy ≤ max_route_count
  pub quota_bounded : x.quota_count ≤ max_route_count
  pub cooldown_bounded : x.cooldown ≤ max_route_count
  pub concurrency_bounded : x.concurrency ≤ max_route_count
  pub unavailable_bounded : x.unavailable ≤ max_route_count

pub record_under-IsBounded :
    (h : Option Heading) (x : Exclusions) → IsBounded x → IsBounded (record_under h x)
unfolding record_under
record_under-IsBounded h x b = ground arith

total-record_under :
    (h : Option Heading) (x : Exclusions)
    → IsBounded x
    → (total x ≤ total (record_under h x)) × (total (record_under h x) ≤ total x + 1)
unfolding record_under
total-record_under none x b = omega arith
total-record_under (some on_model) x b = omega arith
total-record_under (some _) x b = omega arith

-- Counting a refusal keeps every counter within the bound that `decodeRoute` accepts, loses no
-- count, and counts the refusal under one heading at most.
pub reject-IsBounded :
    (x : Exclusions) (e : Failure)
    → IsBounded x
    → IsBounded (reject x e) × (total x ≤ total (reject x e)) × (total (reject x e) ≤ total x + 1)
unfolding reject
reject-IsBounded x e b =
    let (up, once) = total-record_under (heading e) x b in
    (record_under-IsBounded (heading e) x b, up, once)
