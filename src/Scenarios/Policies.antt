-- ===== src/Scenarios/Policies.antt =====
-- Names, policies, quotas and errors, at concrete inputs.
use sub_lane.Base.{◌+◌, ◌≡◌, refl, ◌↔◌, true, false, ◌&&◌, some, [], ◌∷◌, string_eq, nat_eq, int_eq}
use sub_lane.Failure.{rejected}
use sub_lane.Groups.{
  subscription_provider, qualify, ModelPolicy, allows, allows_provider, allows_resource,
}
use sub_lane.Groups.Laws.{routing}
use sub_lane.Groups.Gates.{gates_agree}
use sub_lane.Gateway.Classify.{fail, IsLimited, fail-rate_limited_iff, rate_limited, cancelled}
use sub_lane.Gateway.Catalog.{Catalog}
use sub_lane.Gateway.Quota.{Usage, quota_status}
use sub_lane.Gateway.Quota.Percent.{finite}
use sub_lane.Gateway.Quota.Laws.{IsSound, quota_status-IsSound}

abbrev one_model : ModelPolicy
one_model = record {
  routing = routing "subscription_first" false;
  has_subscriptions = true;
  restricted = true;
  models = "claude/opus" ∷ [];
}

gates_agree_example :
    allows_resource one_model "claude" "opus"
    ≡ (allows_provider one_model "claude" && allows one_model (qualify "claude" "opus"))
unfolding subscription_provider
gates_agree_example = gates_agree one_model "claude" "opus" refl

fail-rate_limited_iff_example :
    (((fail cancelled (some "gpt") (rejected 429 "7" "")).verdict.penalty ≡ rate_limited)
      ↔ IsLimited false (some "gpt") (rejected 429 "7" ""))
    × (((fail cancelled (some "gpt") (rejected 429 "7" "")).model_limited ≡ true)
        ↔ IsLimited true (some "gpt") (rejected 429 "7" ""))
fail-rate_limited_iff_example = fail-rate_limited_iff cancelled (some "gpt") (rejected 429 "7" "")

abbrev half_used : Usage
half_used = record {
  limits =
      record {
        name = "";
        allowed = some true;
        limit_reached = some false;
        windows = record { used_percent = some (finite false 101 1); reset_at = some 1060 } ∷ [];
      }
      ∷ [];
  updated_at = 1000;
}

quota_status-IsSound_example :
    IsSound 1010 (half_used.updated_at + 120) (quota_status half_used 1010)
quota_status-IsSound_example = quota_status-IsSound half_used 1010

abbrev fresh_catalog : Catalog
fresh_catalog = record { models = "opus" ∷ []; source = "v1"; updated_at = 50 }
