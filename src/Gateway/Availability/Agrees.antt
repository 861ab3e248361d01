-- ===== src/Gateway/Availability/Agrees.antt =====
-- What the console shows as available is what the selection would take: `modelAvailability` of
-- internal/gateway/availability.go against the loop of selection.go.
use sub_lane.Base.{
  lookup, String, ◌≡◌, ◌↔◌, ◌⊎◌, refl, ◌∙◌, inl, inr, Bool, true, false, not, ◌&&◌, ◌||◌, none,
  some, arith, if◌then◌else◌, Bool-cases, Option-cases, ◌==◌, string_eq, nat_eq, int_eq,
}
use sub_lane.Failure.{Result, ok}
use sub_lane.Groups.{allows_resource}
use sub_lane.Gateway.State.{Account, Runtime, ModelRuntime}
use sub_lane.Gateway.Catalog.{Catalog, catalog_model_id, before_paren, ends_with_paren}
use sub_lane.Gateway.Admission.{account_admission}
use sub_lane.Gateway.Service.{model_key_eq}
use sub_lane.Gateway.Selection.{
  Row, provider_enabled, supports, quota_admission, model_gate, allowance_gate,
}
use sub_lane.Gateway.Selection.Candidates.{
  Look, Gate, is_down, is_outside, has_model, rank_of, look_at_load, look_at_model, look_at,
  not_available, off_policy, fit,
}
use sub_lane.Gateway.Selection.Sound.{look_at-fit, look_at_opens}
use sub_lane.Gateway.Availability.{is_supported, is_known, reason_of}
use sub_lane.Gateway.Availability.Limits.{
  outlook_of, seen_of, quota_of-same, limit_at-same, admitted-known, supports-same,
}
use sub_lane.Gateway.Availability.Reasons.{
  admission_reason-Passed, Passed-admission_reason, quota_reason-none, reason_of-admission,
}

-- A model with a name has a name in the catalogs.
is_named : (model : String) → (model == "") ≡ false → (catalog_model_id model == "") ≡ false
unfolding catalog_model_id
is_named model h = elim (Option-cases (before_paren model)) [
  | inl without ↦ rw (catalog_model_id, without) h
  | inr (p, shorter) ↦ elim (Bool-cases (not (p == "") && ends_with_paren model)) [
    | inl cut ↦ rw (catalog_model_id, shorter, cut) (ground (arith, cut))
    | inr kept ↦ rw (catalog_model_id, shorter, kept) h
  ]
]

opened :
    (a b : Bool) (l : Look)
    → a ≡ false
    → b ≡ false
    → (if a then not_available else if b then off_policy else l) ≡ l
opened a b l h k = rw (h, k) refl

look_at_load-free :
    (g : Gate) (row : Row)
    → account_admission g.service.health g.now row.account ≡ none
    → quota_admission row g.ask.model g.now ≡ none
    → model_gate g.service g.scene g.now row.account.id g.ask.model ≡ none
    → allowance_gate g.scene g.ask row.account.id ≡ none
    → look_at_load g row ≡ fit (rank_of g row.account)
unfolding look_at_load
look_at_load-free g row free has_quota limit left =
    rw (look_at_load, free, has_quota, limit, left) refl

look_at_model-known :
    (g : Gate) (row : Row)
    → has_model g ≡ true
    → supports g.scene row g.ask.model g.now ≡ ok (true, true)
    → look_at_model g row ≡ look_at_load g row
unfolding look_at_model
look_at_model-known g row named known = rw (look_at_model, named, known) refl

known_both :
    (a b : Bool) (r : Result (Bool × Bool))
    → r ≡ ok (a, b)
    → r ≡ ok (true, true)
    → (a ≡ true) × (b ≡ true)
known_both true true r h k = (refl, refl)
known_both true false r h k = ground (arith, h, k)
known_both false b r h k = ground (arith, h, k)

is_down-up :
    (g : Gate) (a : Account)
    → provider_enabled g.scene.codex_only a.provider ≡ true
    → a.enabled ≡ true
    → (a.status == "reauth_required") ≡ false
    → is_down g a ≡ false
is_down-up g a on enabled status = ground arith

up-is_down :
    (g : Gate) (a : Account)
    → is_down g a ≡ false
    → (a.enabled ≡ true) × ((a.status == "reauth_required") ≡ false)
up-is_down g a h = ground arith

right_side : {P : Type 0} → (b : Bool) → b ≡ true → (b ≡ false) ⊎ P → P
right_side b h (inl k) = ground (arith, h, k)
right_side b h (inr p) = p

module _ (g : Gate) (row : Row) (c : Catalog) (present : Bool) (m : ModelRuntime)
    (decoded : row.catalog ≡ ok c) (read : g.scene.model_row row.account.id ≡ ok m)
    (current : (r : Runtime)
      → lookup row.account.id g.service.health ≡ some r
      → r.revision ≡ m.runtime_revision)
    (absent : present ≡ false → m.cooldown_until ≡ 0) (named : has_model g ≡ true) where
  shown-fits :
      is_outside g row.account ≡ false
      → allowance_gate g.scene g.ask row.account.id ≡ none
      → reason_of (outlook_of g) g.policy g.ask.model (seen_of g row c present m) ≡ none
      → look_at g row ≡ fit (rank_of g row.account)
  unfolding look_at
  shown-fits inside left h =
      let o = outlook_of g in
      let x = seen_of g row c present m in
      let admitted = reason_of-admission o g.policy g.ask.model x h in
      let (on, enabled, status, provider, resource, known, supported, free, limit) =
        admission_reason-Passed o g.policy g.ask.model x admitted in
      let has_quota =
        (quota_reason-none o g.policy g.ask.model x row
            (quota_of-same g row c present m g.ask.model) admitted).0
          h in
      let (r, alive) = admitted-known g row.account free in
      let gate =
        (limit_at-same g row present m r g.ask.model g.ask.model
            (is_named g.ask.model (ground (arith, named))) read alive (current r alive) absent).0
          limit in
      let both : supports g.scene row g.ask.model g.now ≡ ok (true, true) =
        rw (supports-same g row c present m g.ask.model decoded, known, supported) refl in
      opened (is_down g row.account)
        (is_outside g row.account
          || (has_model g && not (allows_resource g.policy row.account.provider g.ask.model)))
        (look_at_model g row) (is_down-up g row.account on enabled status)
        (rw (inside, resource) (ground arith))
      ∙ look_at_model-known g row named both
      ∙ look_at_load-free g row free has_quota gate left

  fits-shown :
      look_at g row ≡ fit (rank_of g row.account)
      → reason_of (outlook_of g) g.policy g.ask.model (seen_of g row c present m) ≡ none
  fits-shown h =
      let o = outlook_of g in
      let x = seen_of g row c present m in
      let (servable, ranked) = look_at-fit g row (rank_of g row.account) h in
      let (up, inside, allowed, on) = look_at_opens g row (rank_of g row.account) h in
      let (enabled, status) = up-is_down g row.account up in
      let resource = right_side (has_model g) named servable.model_allowed in
      let both = right_side (has_model g) named servable.supported in
      let (known, supported) =
        known_both (is_known o x g.ask.model) (is_supported o x g.ask.model) _
          (supports-same g row c present m g.ask.model decoded) both in
      let (r, alive) = admitted-known g row.account servable.free in
      let limit =
        (limit_at-same g row present m r g.ask.model g.ask.model
            (is_named g.ask.model (ground (arith, named))) read alive (current r alive) absent).1
          servable.model_free in
      let admitted = Passed-admission_reason o g.policy g.ask.model x (
        servable.provider_on, enabled, status, servable.provider_allowed, resource, known,
        supported, servable.free, limit,
      ) in
      (quota_reason-none o g.policy g.ask.model x row (quota_of-same g row c present m g.ask.model)
          admitted).1
        servable.has_quota

  -- For a request for a model that the rules of the pool, the request's kind and the member's
  -- allowance leave open to an account: where its catalog is decoded, the row of the model is read at
  -- the revision that is in memory, and has no cooldown if it was never saved, the console shows the
  -- account without a reason exactly when the loop of the selection finds it fit.
  pub reason_of-look_at :
      is_outside g row.account ≡ false
      → allowance_gate g.scene g.ask row.account.id ≡ none
      → (reason_of (outlook_of g) g.policy g.ask.model (seen_of g row c present m) ≡ none)
        ↔ (look_at g row ≡ fit (rank_of g row.account))
  reason_of-look_at inside left = (shown-fits inside left, fits-shown)
