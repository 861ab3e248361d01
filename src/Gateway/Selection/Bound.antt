-- ===== src/Gateway/Selection/Bound.antt =====
-- A conversation that is bound to an account: the branch for an affinity of
-- `selectAllocationAccount`, internal/gateway/selection.go.
use sub_lane.Base.{
  find, ℕ, ◌+◌, ◌-◌, String, Bool, not, ◌&&◌, ◌||◌, Option, none, some, List, if◌then◌else◌, ◌==◌,
  string_eq, nat_eq,
}
use sub_lane.Failure.{
  Failure, Result, ◌>>=◌, ◌>>◌, unless, invalid_input, provider_disabled, account_not_found,
  affinity_unavailable, model_conflict, model_not_allowed, catalog_unavailable, plain, quota, ok,
  err,
}
use sub_lane.Groups.{allows_provider, allows_resource}
use sub_lane.Gateway.State.{unix}
use sub_lane.Gateway.Admission.{account_admission}
use sub_lane.Gateway.Affinity.{Affinity, Conversation, remember, touch}
use sub_lane.Gateway.Catalog.{catalog_model_id}
use sub_lane.Gateway.Selection.{
  is_compact, is_portable, is_continued, Ask, Row, provider_enabled, supports, quota_admission,
  model_gate, allowance_gate,
}
use sub_lane.Gateway.Selection.Candidates.{Gate, is_allowed, has_model}

-- What the branch decides before it writes: to stay, or to schedule again.
pub data Bound : Type 0 where
  stays reselects : Bound

-- The model conflicts: whether the request must schedule again.
unfoldable pub bound_model : Gate → Row → Affinity → Result Bound
unfolding supports catalog_model_id
bound_model g row b =
    let name = catalog_model_id g.ask.model in
    if has_model g && row.account.enabled && not (row.account.status == "reauth_required")
    then unless
        (is_continued g.ask.affinity && b.rebound && not (b.model == "") && not (name == b.model))
        (plain model_conflict)
      >> (supports g.scene row g.ask.model g.now >>= λ answer.
          unless (not answer.0) (plain catalog_unavailable)
          >> (if answer.1
              then ok stays
              else unless (not (is_portable g.ask.affinity) || b.model == "" || b.model == name)
                  (plain model_conflict)
                >> ok reselects))
    else ok stays

-- The gates of an account that the conversation stays on, in the order of this branch.
unfoldable pub bound_load : Gate → Row → Option Failure
unfolding allows_resource account_admission model_gate quota_admission
bound_load g row =
    if has_model g && not (allows_resource g.policy row.account.provider g.ask.model)
    then some (plain model_not_allowed)
    else elim (account_admission g.service.health g.now row.account) [
      | some e ↦ some e
      | none ↦ elim (model_gate g.service g.scene g.now row.account.id g.ask.model) [
        | some e ↦ some e
        | none ↦ elim (quota_admission row g.ask.model g.now) [
          | some wait ↦ some (quota wait)
          | none ↦ allowance_gate g.scene g.ask row.account.id
        ]
      ]
    ]

unfoldable pub bound_row : Gate → Row → Affinity → Result Bound
unfolding provider_enabled allows_provider bound_model bound_load
bound_row g row b =
    unless (not (provider_enabled g.scene.codex_only row.account.provider))
      (plain provider_disabled)
    >> unless (not (allows_provider g.policy row.account.provider)) (plain affinity_unavailable)
    >> unless (is_compact g.ask.kind && not (row.account.provider == "codex")) (plain invalid_input)
    >> (bound_model g row b >>= λ way. elim way [
      | reselects ↦ ok reselects
      | stays ↦ elim (bound_load g row) [ some e ↦ err e | none ↦ ok stays ]
    ])

unfoldable pub bound : Gate → List Row → Affinity → Result Bound
unfolding bound_row find
bound g rows b =
    unless (not (is_allowed g.allowed b.account_id)) (plain affinity_unavailable)
    >> (elim (find (λ row. row.account.id == b.account_id) rows) [
      | none ↦ err (plain account_not_found)
      | some row ↦ bound_row g row b
    ])

-- 24*3600, and half an hour before a binding's new end.
abbrev pub expiry : ℕ → ℕ
expiry now = unix now + 86400

abbrev pub threshold : ℕ → ℕ
threshold now = expiry now - 1800

abbrev pub conversation : Ask → String → Conversation
conversation ask digest = record { user_id = ask.user_id; group_id = ask.group_id; digest = digest }

abbrev pub new_affinity : Ask → ℕ → String → String → String → Bool → Affinity
new_affinity ask now scope id model rebound = record {
  user_id = ask.user_id;
  group_id = ask.group_id;
  digest = ask.digest;
  provider = scope;
  account_id = id;
  model = model;
  expires_at = expiry now;
  rebound = rebound;
}

-- The scope of the bindings: one for all providers, if the request names none.
abbrev pub scope_of : Ask → String
scope_of ask = if ask.provider == "" then "auto" else ask.provider

-- The writes for a conversation that stays: a binding under the request's own scope, if it came
-- from another one, and a later end for the binding that was found.
unfoldable pub extend : Ask → ℕ → Affinity → List Affinity → Result (List Affinity)
unfolding catalog_model_id remember touch
extend ask now b t =
    let name = catalog_model_id ask.model in
    let model = if name == "" then b.model else name in
    let touched = λ (u : List Affinity).
      ok (touch (conversation ask ask.digest) b.provider model (expiry now) (threshold now) u) in
    if b.provider == scope_of ask
    then touched t
    else remember (new_affinity ask now (scope_of ask) b.account_id model b.rebound) (unix now) t
      >>= touched
