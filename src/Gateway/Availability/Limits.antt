-- ===== src/Gateway/Availability/Limits.antt =====
-- The limits, quotas and catalogs that `modelAvailability` (internal/gateway/availability.go) reads
-- against those of the selection.
use sub_lane.Base.{
  lookup, ℕ, String, ◌≡◌, ◌↔◌, refl, ap, inl, inr, Bool, true, false, not, ◌&&◌, none, some, arith,
  if◌then◌else◌, Bool-cases, Option-cases, ◌==◌, string_eq, nat_eq, int_eq,
}
use sub_lane.Failure.{ok}
use sub_lane.Gateway.State.{unix, Account, Runtime, ModelRuntime}
use sub_lane.Gateway.Catalog.{
  Catalog, catalog_usable, catalog_contains, catalog_model_id, catalog_supports,
}
use sub_lane.Gateway.Quota.{decode_usage, snapshot_quota}
use sub_lane.Gateway.Admission.{account_admission, model_admission}
use sub_lane.Gateway.Service.{Service, ModelKey, model_key_eq}
use sub_lane.Gateway.Lease.{read_model}
use sub_lane.Gateway.Selection.{Row, supports, quota_decision, state_of, find_model, model_gate}
use sub_lane.Gateway.Selection.Candidates.{Gate}
use sub_lane.Gateway.Availability.{
  Seen, Outlook, limit_at, saved_limit, is_supported, is_known, quota_of,
}

-- What availabilityAccounts reads of the accounts that the selection reads: the saved limit of the
-- model, if there is one, is the row `m`.
abbrev pub outlook_of : Gate → Outlook
outlook_of g = record {
  health = g.service.health;
  codex_only = g.scene.codex_only;
  catalog_source = g.scene.catalog_source;
  now = g.now;
}

abbrev pub seen_of : Gate → Row → Catalog → Bool → ModelRuntime → Seen
seen_of g row c present m = record {
  account = row.account;
  catalog = c;
  usage = decode_usage row.usage row.usage_updated_at;
  limits = λ name. limit_at g.service present m (record { account = row.account.id; model = name });
}

pub quota_of-same :
    (g : Gate) (row : Row) (c : Catalog) (present : Bool) (m : ModelRuntime) (model : String)
    → quota_of (outlook_of g) model (seen_of g row c present m) ≡ quota_decision row model g.now
unfolding quota_of quota_decision snapshot_quota
quota_of-same g row c present m model = refl

-- The name in the error is all that depends on the spelling of the model.
admission-shown :
    (m : ModelRuntime) (now : ℕ) (a b : String)
    → (model_admission (some m) now a ≡ none) ↔ (model_admission (some m) now b ≡ none)
unfolding model_admission
admission-shown m now a b = (λ h. ground (arith, h), λ h. ground (arith, h))

-- A limit that is not saved is read as one of zeros.
saved-same :
    (present : Bool) (m : ModelRuntime) (now : ℕ) (a b : String)
    → (present ≡ false → m.cooldown_until ≡ 0)
    → (model_admission (if present then some (saved_limit m) else none) now a ≡ none)
      ↔ (model_admission (some (record m { in_flight = 0 })) now b ≡ none)
unfolding model_admission
saved-same true m now a b absent = (λ h. ground (arith, h), λ h. ground (arith, h))
saved-same false m now a b absent = (λ h. ground (arith, absent refl), λ h. refl)

limit-same :
    (s : Service) (present : Bool) (m : ModelRuntime) (key : ModelKey) (r : Runtime) (now : ℕ)
    (a b : String)
    → lookup key.account s.health ≡ some r
    → r.revision ≡ m.runtime_revision
    → (present ≡ false → m.cooldown_until ≡ 0)
    → (model_admission (limit_at s present m key) now a ≡ none)
      ↔ (model_admission (some (state_of s (read_model s m key))) now b ≡ none)
unfolding limit_at read_model
limit-same s present m key r now a b alive current absent =
    elim (Option-cases (lookup key s.models)) [
      | inl none' ↦ rw (alive, none', limit_at, read_model) (saved-same present m now a b absent)
      | inr (p, known) ↦
          elim (Bool-cases (
            (s.cells p).state.lifecycle == m.lifecycle
            && (s.cells p).state.runtime_revision == m.runtime_revision)) [
              | inl same ↦
                  rw (alive, known, current, same, limit_at, read_model)
                    (admission-shown (s.cells p).state now a b)
              | inr other ↦
                  rw (alive, known, current, other, limit_at, read_model)
                    (saved-same present m now a b absent)
            ]
    ]

-- An account that is admitted has a state in memory.
pub admitted-known :
    (g : Gate) (a : Account)
    → account_admission g.service.health g.now a ≡ none
    → (r : Runtime) × (lookup a.id g.service.health ≡ some r)
unfolding account_admission
admitted-known g a h = elim (Option-cases (lookup a.id g.service.health)) [
  | inl without ↦ absurd (ground (arith, h, without))
  | inr known ↦ known
]

-- The two ways to read the state of the model turn the request away in the same cases.
pub limit_at-same :
    (g : Gate) (row : Row) (present : Bool) (m : ModelRuntime) (r : Runtime) (model shown : String)
    → (catalog_model_id model == "") ≡ false
    → g.scene.model_row row.account.id ≡ ok m
    → lookup row.account.id g.service.health ≡ some r
    → r.revision ≡ m.runtime_revision
    → (present ≡ false → m.cooldown_until ≡ 0)
    → (model_admission
          (limit_at g.service present m
            (record { account = row.account.id; model = catalog_model_id model }))
          (unix g.now)
          shown
        ≡ none)
      ↔ (model_gate g.service g.scene g.now row.account.id model ≡ none)
unfolding model_gate find_model
limit_at-same g row present m r model shown named read alive current absent =
    rw (named, read, model_gate, find_model)
      (limit-same g.service present m
        (record { account = row.account.id; model = catalog_model_id model }) r (unix g.now) shown
        (catalog_model_id model) alive current absent)

flags_same :
    (usable has current : Bool)
    → ◌≡◌ {A = Bool × Bool}
        (if not (usable && has) && not current then (false, false) else (usable, usable && has))
        ((if not (usable && has) && not current then false else usable), usable && has)
flags_same usable has current = ground arith

pub supports-same :
    (g : Gate) (row : Row) (c : Catalog) (present : Bool) (m : ModelRuntime) (model : String)
    → row.catalog ≡ ok c
    → supports g.scene row model g.now
      ≡ ok (
        is_known (outlook_of g) (seen_of g row c present m) model,
        is_supported (outlook_of g) (seen_of g row c present m) model,
      )
unfolding supports is_known is_supported catalog_supports
supports-same g row c present m model decoded =
    rw (decoded, supports)
      (ap ok (
        flags_same (catalog_usable c g.now) (catalog_contains c.models model)
          (c.source == g.scene.catalog_source row.account.provider)))
