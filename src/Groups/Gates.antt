-- ===== src/Groups/Gates.antt =====
-- The two gates of a pool: `Allows` at the door reads the name as it was asked for, and
-- `AllowsResource` reads it again for each account.
use text.Mathlib.TextEquality.{eq_iff}
use sub_lane.Base.{
  any, String, ◌≡◌, refl, true, false, ◌&&◌, List, [], ◌∷◌, arith, ◌==◌, string_eq, nat_eq,
}
use sub_lane.Groups.{
  subscription_provider, qualify, split_model, ModelPolicy, rule_allows, allows, allows_provider,
  rule_permits, allows_resource,
}
use sub_lane.Groups.Laws.{subscription_cases, split_qualified}

rule_agrees :
    (provider model rule : String)
    → (provider == "") ≡ false
    → rule_permits provider model rule ≡ rule_allows provider model rule
rule_agrees provider model rule named =
    ground (arith, eq_iff provider (split_model rule).0, eq_iff (split_model rule).0 provider)

any_agrees :
    (provider model : String) (rules : List String)
    → (provider == "") ≡ false
    → any (rule_permits provider model) rules ≡ any (rule_allows provider model) rules
unfolding any
any_agrees provider model [] named = refl
any_agrees provider model (r ∷ rules) named =
    rw (rule_agrees provider model r named, any_agrees provider model rules named)

subscription_named :
    (provider : String) → subscription_provider provider ≡ true → (provider == "") ≡ false
subscription_named provider s =
    subscription_cases (λ p. (p == "") ≡ false) refl refl refl refl provider s

-- For a subscription provider the account's gate and the door's gate are the same: the resource is
-- allowed exactly when its qualified name is and the pool admits the provider.
pub gates_agree :
    (p : ModelPolicy) (provider model : String)
    → subscription_provider provider ≡ true
    → allows_resource p provider model
      ≡ (allows_provider p provider && allows p (qualify provider model))
unfolding allows_resource allows
gates_agree p provider model s =
    rw (split_qualified provider model s)
      (ground (arith, any_agrees provider model p.models (subscription_named provider s)))

rule_bare :
    (provider model rule : String)
    → rule_permits provider model rule ≡ true
    → rule_allows "" model rule ≡ true
rule_bare provider model rule h = ground arith

any_bare :
    (provider model : String) (rules : List String)
    → any (rule_permits provider model) rules ≡ true
    → any (rule_allows "" model) rules ≡ true
unfolding any
any_bare provider model [] h = h
any_bare provider model (r ∷ rules) h =
    ground (arith, rule_bare provider model r, any_bare provider model rules)

-- A bare name that some account may serve is never stopped at the door.
pub resource_passes :
    (p : ModelPolicy) (provider model : String)
    → split_model model ≡ ("", model)
    → allows_resource p provider model ≡ true
    → allows p model ≡ true
unfolding allows_resource allows
resource_passes p provider model bare h = rw bare (ground (arith, any_bare provider model p.models))
