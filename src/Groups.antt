-- ===== src/Groups.antt =====
-- Account pools: the model policy of internal/groups/policy.go and the routing preference of
-- resources.go, with `SubscriptionProvider` of internal/accounts/credential.go.
pub mod Laws
pub mod Gates
use Prim.Native.Char.{Char}
use sub_lane.Base.{
  any, ℕ, ◌+◌, ◌/◌, code, String, Bool, true, false, not, ◌&&◌, ◌||◌, Option, none, some, List, [],
  ◌∷◌, nat_beq, if◌then◌else◌, ◌==◌, string_eq, nat_eq,
}

unfoldable pub subscription_provider : String → Bool
subscription_provider p = p == "codex" || p == "claude" || p == "antigravity" || p == "xai"

-- strings.Cut(s, "/"): what stands before and after the first slash, if there is one.
unfoldable pub cut_slash : String → Option (String × String)
cut_slash String.[] = none
cut_slash (String.◌∷◌ c s) =
    if nat_beq (code c) b'/'
    then some ("", s)
    else elim (cut_slash s) [ none ↦ none | some (p, n) ↦ some (String.◌∷◌ c p, n) ]

-- The provider, a slash and the model's name, as the code joins them.
abbrev pub qualify : String → String → String
qualify String.[] native = String.◌∷◌ slash native
  where
    slash : Char
    slash = "/"
qualify (String.◌∷◌ c s) native = String.◌∷◌ c (qualify s native)

-- SplitModel: a legacy provider prefix is taken off, any other slash is part of the model's name.
unfoldable pub split_model : String → String × String
unfolding cut_slash subscription_provider
split_model model = elim (cut_slash model) [
  | none ↦ ("", model)
  | some (provider, native) ↦
      if subscription_provider provider then (provider, native) else ("", model)
]

pub record Routing : Type 0 where
  pub preference : String
  pub allow_api_fallback : Bool

pub record ModelPolicy : Type 0 where
  pub routing : Routing
  pub has_subscriptions : Bool
  pub restricted : Bool
  pub models : List String

-- The test of `Allows` at one rule.
abbrev pub rule_allows : String → String → String → Bool
rule_allows provider native allowed =
    let (scope, name) = split_model allowed in
    name == native && (provider == "" || scope == "" || provider == scope)

unfoldable pub allows : ModelPolicy → String → Bool
unfolding any
allows p model =
    let (provider, native) = split_model model in
    if p.restricted then any (rule_allows provider native) p.models else true

unfoldable pub allows_provider : ModelPolicy → String → Bool
allows_provider p provider = not (
    provider == "openai"
    && p.has_subscriptions
    && p.routing.preference == "subscription_first"
    && not p.routing.allow_api_fallback)

-- The test of `AllowsResource` at one rule.
abbrev pub rule_permits : String → String → String → Bool
rule_permits provider model permitted =
    let (scope, native) = split_model permitted in
    native == model && (scope == "" || scope == provider)

unfoldable pub allows_resource : ModelPolicy → String → String → Bool
unfolding any allows_provider
allows_resource p provider model =
    if allows_provider p provider
    then if p.restricted then any (rule_permits provider model) p.models else true
    else false

-- The `base` of `Routing.Rank`: 2 for the class of resources that the pool prefers not to use.
unfoldable pub demotion : Routing → String → ℕ
unfolding subscription_provider
demotion r provider =
    if (r.preference == "subscription_first" && provider == "openai")
      || (r.preference == "api_first" && subscription_provider provider)
    then 2
    else 0

-- Routing.Rank
unfoldable pub rank : Routing → String → String → ℕ
unfolding demotion
rank r provider preferred =
    let base = demotion r provider in if provider == preferred then base else base + 1
