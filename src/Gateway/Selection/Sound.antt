-- ===== src/Gateway/Selection/Sound.antt =====
-- Whoever is selected may serve the request: the gates that the account has passed, on the branch
-- of a binding and on the branch of the schedule.
use sub_lane.Base.{
  ℕ, ◌≡◌, ◌⊎◌, Bool, true, false, not, ◌&&◌, ◌||◌, none, arith, if◌then◌else◌, ◌==◌, string_eq,
  nat_eq,
}
use sub_lane.Failure.{ok}
use sub_lane.Groups.{allows_provider, allows_resource}
use sub_lane.Gateway.Admission.{account_admission}
use sub_lane.Gateway.State.{Account}
use sub_lane.Gateway.Selection.{
  is_compact, Row, provider_enabled, supports, quota_admission, model_gate, allowance_gate,
}
use sub_lane.Gateway.Selection.Candidates.{
  Look, Gate, is_allowed, is_down, is_outside, has_model, rank_of, look_at_load, look_at_model,
  look_at, not_available, off_policy, fit,
}

-- The gates, but for the rank.
pub record IsServable (g : Gate) (row : Row) : Type 0 where
  pub provider_on : provider_enabled g.scene.codex_only row.account.provider ≡ true
  pub provider_allowed : allows_provider g.policy row.account.provider ≡ true
  pub in_pool : is_allowed g.allowed row.account.id ≡ true
  pub kind_fits : (is_compact g.ask.kind && not (row.account.provider == "codex")) ≡ false
  pub model_allowed :
      (has_model g ≡ false) ⊎ (allows_resource g.policy row.account.provider g.ask.model ≡ true)
  pub supported : (has_model g ≡ false) ⊎ (supports g.scene row g.ask.model g.now ≡ ok (true, true))
  pub free : account_admission g.service.health g.now row.account ≡ none
  pub has_quota : quota_admission row g.ask.model g.now ≡ none
  pub model_free : model_gate g.service g.scene g.now row.account.id g.ask.model ≡ none
  pub allowance_left : allowance_gate g.scene g.ask row.account.id ≡ none

pub look_at_load-fit :
    (g : Gate) (row : Row) (r : ℕ)
    → look_at_load g row ≡ fit r
    → (account_admission g.service.health g.now row.account ≡ none)
      × (quota_admission row g.ask.model g.now ≡ none)
      × (model_gate g.service g.scene g.now row.account.id g.ask.model ≡ none)
      × (allowance_gate g.scene g.ask row.account.id ≡ none)
      × (r ≡ rank_of g row.account)
unfolding look_at_load
look_at_load-fit g row r h = ground arith

pub look_at_model-fit :
    (g : Gate) (row : Row) (r : ℕ)
    → look_at_model g row ≡ fit r
    → (look_at_load g row ≡ fit r)
      × ((has_model g ≡ false) ⊎ (supports g.scene row g.ask.model g.now ≡ ok (true, true)))
unfolding look_at_model
look_at_model-fit g row r h = ground arith

-- The account's own state, and the rules of the pool.
is_down_lem :
    (g : Gate) (a : Account)
    → is_down g a ≡ false
    → provider_enabled g.scene.codex_only a.provider ≡ true
is_down_lem g a h = ground arith

is_outside_lem :
    (g : Gate) (a : Account)
    → is_outside g a ≡ false
    → (allows_provider g.policy a.provider ≡ true)
      × (is_allowed g.allowed a.id ≡ true)
      × ((is_compact g.ask.kind && not (a.provider == "codex")) ≡ false)
is_outside_lem g a h = ground arith

pub and_not_lem : (a b : Bool) → (a && not b) ≡ false → (a ≡ false) ⊎ (b ≡ true)
and_not_lem a b h = ground arith

or_false : (a b : Bool) → (a || b) ≡ false → (a ≡ false) × (b ≡ false)
or_false a b h = ground arith

guarded :
    (a b : Bool) (l : Look) (r : ℕ)
    → (if a then not_available else if b then off_policy else l) ≡ fit r
    → (a ≡ false) × (b ≡ false) × (l ≡ fit r)
guarded a b l r h = ground arith

pub look_at_opens :
    (g : Gate) (row : Row) (r : ℕ)
    → look_at g row ≡ fit r
    → (is_down g row.account ≡ false)
      × (is_outside g row.account ≡ false)
      × ((has_model g && not (allows_resource g.policy row.account.provider g.ask.model)) ≡ false)
      × (look_at_model g row ≡ fit r)
unfolding look_at
look_at_opens g row r h =
    let named = has_model g && not (allows_resource g.policy row.account.provider g.ask.model) in
    let (up, rules, on) =
      guarded (is_down g row.account) (is_outside g row.account || named) (look_at_model g row) r
        h in
    let (inside, allowed) = or_false (is_outside g row.account) named rules in
    (up, inside, allowed, on)

pub look_at-fit :
    (g : Gate) (row : Row) (r : ℕ)
    → look_at g row ≡ fit r
    → IsServable g row × (r ≡ rank_of g row.account)
look_at-fit g row r h =
    let (up, inside, named, on) = look_at_opens g row r h in
    let (loads, supported) = look_at_model-fit g row r on in
    let (free, has_quota, model_free, left, ranked) = look_at_load-fit g row r loads in
    let (provider_allowed, in_pool, kind_fits) = is_outside_lem g row.account inside in
    (
      record {
        provider_on = is_down_lem g row.account up;
        provider_allowed = provider_allowed;
        in_pool = in_pool;
        kind_fits = kind_fits;
        model_allowed =
            and_not_lem (has_model g) (allows_resource g.policy row.account.provider g.ask.model)
              named;
        supported = supported;
        free = free;
        has_quota = has_quota;
        model_free = model_free;
        allowance_left = left;
      },
      ranked,
    )
