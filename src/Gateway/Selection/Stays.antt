-- ===== src/Gateway/Selection/Stays.antt =====
-- A conversation that stays with its account: the account that the binding names may serve.
use sub_lane.Base.{
  find, In, find-In, ℕ, String, ◌≡◌, refl, ◌⊎◌, inl, inr, Bool, true, false, not, ◌&&◌, Option,
  none, some, List, arith, if◌then◌else◌, Option-cases, ◌==◌, string_eq, nat_eq,
}
use sub_lane.Failure.{
  Failure, Result, ◌>>=◌, unless_ok, invalid_input, provider_disabled, affinity_unavailable,
  model_not_allowed, plain, quota, ok, err,
}
use sub_lane.Groups.{allows_provider, allows_resource}
use sub_lane.Gateway.Admission.{account_admission, account_admission-IsAdmissible}
use sub_lane.Gateway.Affinity.{Affinity}
use sub_lane.Gateway.Selection.{
  is_compact, Row, provider_enabled, supports, quota_admission, model_gate, allowance_gate,
}
use sub_lane.Gateway.Selection.Candidates.{Gate, is_allowed, has_model}
use sub_lane.Gateway.Selection.Bound.{
  Bound, bound_model, bound_load, bound_row, bound, stays, reselects,
}
use sub_lane.Gateway.Selection.Sound.{IsServable, and_not_lem}

-- A row that the account's name belongs to and that may serve.
pub record Serves (g : Gate) (rows : List Row) (id : String) : Type 0 where
  pub row : Row
  pub in_rows : In row rows
  pub named : row.account.id ≡ id
  pub servable : IsServable g row

four_gates :
    (b : Bool) (o p : Option Failure) (q : Option ℕ) (r : Option Failure)
    → (if b then some (plain model_not_allowed) else elim o [
      | some e ↦ some e
      | none ↦ elim p [
        | some e ↦ some e
        | none ↦ elim q [ some wait ↦ some (quota wait) | none ↦ r ]
      ]
    ])
      ≡ none
    → (b ≡ false) × (o ≡ none) × (p ≡ none) × (q ≡ none) × (r ≡ none)
four_gates b o p q r h = ground arith

bound_load_lem :
    (g : Gate) (row : Row)
    → bound_load g row ≡ none
    → ((has_model g ≡ false) ⊎ (allows_resource g.policy row.account.provider g.ask.model ≡ true))
      × (account_admission g.service.health g.now row.account ≡ none)
      × (quota_admission row g.ask.model g.now ≡ none)
      × (model_gate g.service g.scene g.now row.account.id g.ask.model ≡ none)
      × (allowance_gate g.scene g.ask row.account.id ≡ none)
unfolding bound_load
bound_load_lem g row h =
    let (named, free, model, quota', left) =
      four_gates (has_model g && not (allows_resource g.policy row.account.provider g.ask.model))
        (account_admission g.service.health g.now row.account)
        (model_gate g.service g.scene g.now row.account.id g.ask.model)
        (quota_admission row g.ask.model g.now) (allowance_gate g.scene g.ask row.account.id) h in
    (
      and_not_lem (has_model g) (allows_resource g.policy row.account.provider g.ask.model) named,
      free,
      quota',
      model,
      left,
    )

bound_model_lem :
    (g : Gate) (row : Row) (b : Affinity)
    → bound_model g row b ≡ ok stays
    → row.account.enabled ≡ true
    → (row.account.status == "reauth_required") ≡ false
    → (has_model g ≡ false) ⊎ (supports g.scene row g.ask.model g.now ≡ ok (true, true))
unfolding bound_model
bound_model_lem g row b h up open' = ground arith

stay_opens :
    (m : Result Bound) (o : Option Failure)
    → (m >>= λ way. elim way [
      | reselects ↦ ok reselects
      | stays ↦ elim o [ some e ↦ err e | none ↦ ok stays ]
    ])
      ≡ ok stays
    → (m ≡ ok stays) × (o ≡ none)
stay_opens (ok stays) none h = (refl, refl)
stay_opens (ok stays) (some e) h = absurd (ground arith)
stay_opens (ok reselects) o h = absurd (ground arith)
stay_opens (err e) o h = absurd (ground arith)

not-false : {b : Bool} → not b ≡ false → b ≡ true
not-false {b} h = ground arith

bound_row_opens :
    (g : Gate) (row : Row) (b : Affinity)
    → bound_row g row b ≡ ok stays
    → (provider_enabled g.scene.codex_only row.account.provider ≡ true)
      × (allows_provider g.policy row.account.provider ≡ true)
      × ((is_compact g.ask.kind && not (row.account.provider == "codex")) ≡ false)
      × (bound_model g row b ≡ ok stays)
      × (bound_load g row ≡ none)
unfolding bound_row
bound_row_opens g row b h =
    let (on, h₁) =
      unless_ok (not (provider_enabled g.scene.codex_only row.account.provider))
        (plain provider_disabled) _ stays h in
    let (allowed, h₂) =
      unless_ok (not (allows_provider g.policy row.account.provider)) (plain affinity_unavailable) _
        stays h₁ in
    let (kind_fits, h₃) =
      unless_ok (is_compact g.ask.kind && not (row.account.provider == "codex"))
        (plain invalid_input) _ stays h₂ in
    let (model, load) = stay_opens (bound_model g row b) (bound_load g row) h₃ in
    (not-false on, not-false allowed, kind_fits, model, load)

bound_row-IsServable :
    (g : Gate) (row : Row) (b : Affinity)
    → is_allowed g.allowed row.account.id ≡ true
    → bound_row g row b ≡ ok stays
    → IsServable g row
bound_row-IsServable g row b allowed h =
    let (on, provider_allowed, kind_fits, model, load) = bound_row_opens g row b h in
    let (model_allowed, free, has_quota, model_free, left) = bound_load_lem g row load in
    let open' = account_admission-IsAdmissible g.service.health g.now row.account free in
    record {
      provider_on = on;
      provider_allowed = provider_allowed;
      in_pool = allowed;
      kind_fits = kind_fits;
      model_allowed = model_allowed;
      supported = bound_model_lem g row b model open'.is_enabled open'.authorized;
      free = free;
      has_quota = has_quota;
      model_free = model_free;
      allowance_left = left;
    }

bound_opens :
    (g : Gate) (rows : List Row) (b : Affinity)
    → bound g rows b ≡ ok stays
    → (is_allowed g.allowed b.account_id ≡ true)
      × (row : Row) × (find (λ row. row.account.id == b.account_id) rows ≡ some row)
      × (bound_row g row b ≡ ok stays)
unfolding bound
bound_opens g rows b h =
    let (allowed, on) =
      unless_ok (not (is_allowed g.allowed b.account_id)) (plain affinity_unavailable) _ stays h in
    elim (Option-cases (find (λ row. row.account.id == b.account_id) rows)) [
      | inl e ↦ absurd (ground arith)
      | inr (row, e) ↦ (not-false allowed, row, e, ground arith)
    ]

pub bound-Serves :
    (g : Gate) (rows : List Row) (b : Affinity)
    → bound g rows b ≡ ok stays
    → Serves g rows b.account_id
bound-Serves g rows b h =
    let (allowed, row, found, on) = bound_opens g rows b h in
    let (inside, same) = find-In (λ row. row.account.id == b.account_id) rows row found in
    let named : row.account.id ≡ b.account_id =
      (string_eq.beq_iff row.account.id b.account_id).0 same in
    record {
      row = row;
      in_rows = inside;
      named = named;
      servable = bound_row-IsServable g row b (rw named allowed) on;
    }
