-- ===== src/Gateway/Selection/Candidates.antt =====
-- The loop of `selectAllocationAccount` over the accounts of the pool: internal/gateway/selection.go.
use sub_lane.Base.{
  any, ℕ, ◌+◌, String, Bool, true, false, not, ◌&&◌, ◌||◌, Option, none, some, List, [], ◌∷◌, ◌++◌,
  ltb, if◌then◌else◌, ◌==◌, string_eq, nat_eq,
}
use sub_lane.Failure.{
  Failure, is, no_account, account_busy, catalog_unavailable, model_unavailable, allocation_quota,
  allocation_pending, allocation_risk, allocation_unpriced, allocation_unavailable, plain, cooling,
  quota, ok, err,
}
use sub_lane.Groups.{ModelPolicy, allows_provider, allows_resource, rank}
use sub_lane.Gateway.State.{Account}
use sub_lane.Gateway.Route.{Exclusions, no_exclusions, bump, reject}
use sub_lane.Gateway.Admission.{account_admission}
use sub_lane.Gateway.Service.{Service}
use sub_lane.Gateway.Selection.{
  is_compact, preferred_provider, Ask, Row, Scene, provider_enabled, supports, quota_admission,
  model_gate, allowance_gate,
}

-- What the loop's body finds of one account, in the order of its tests.
pub data Look : Type 0 where
  not_available off_policy : Look
  broken_catalog : Failure → Look
  not_known not_supported : Look
  account_refused : Failure → Look
  quota_refused : ℕ → Look
  model_refused allowance_refused : Failure → Look
  -- one more than the rank of the source, which is -1 for the parent's account
  fit : ℕ → Look

-- The shared values of one run of the loop.
pub record Gate : Type 0 where
  pub service : Service
  pub scene : Scene
  pub ask : Ask
  pub policy : ModelPolicy
  pub allowed : List String
  pub parent_account : String
  pub now : ℕ

abbrev pub is_allowed : List String → String → Bool
is_allowed ids id = any (λ other. other == id) ids

-- !ProviderEnabled || !Enabled || Status == "reauth_required"
abbrev pub is_down : Gate → Account → Bool
is_down g a =
    not (provider_enabled g.scene.codex_only a.provider)
    || not a.enabled
    || a.status == "reauth_required"

-- The other tests of the first `if`.
abbrev pub is_outside : Gate → Account → Bool
is_outside g a =
    not (allows_provider g.policy a.provider)
    || not (is_allowed g.allowed a.id)
    || (not (g.ask.provider == "") && not (a.provider == g.ask.provider))
    || (is_compact g.ask.kind && not (a.provider == "codex"))

abbrev pub has_model : Gate → Bool
has_model g = not (g.ask.model == "")

-- The rank, once every test is passed.
unfoldable pub rank_of : Gate → Account → ℕ
unfolding rank
rank_of g a =
    if a.id == g.parent_account
    then 0
    else rank g.policy.routing a.provider (preferred_provider g.ask.kind) + 1

-- From `accountAdmission` on.
unfoldable pub look_at_load : Gate → Row → Look
unfolding account_admission quota_admission model_gate rank_of
look_at_load g row = elim (account_admission g.service.health g.now row.account) [
  | some e ↦ account_refused e
  | none ↦ elim (quota_admission row g.ask.model g.now) [
    | some wait ↦ quota_refused wait
    | none ↦ elim (model_gate g.service g.scene g.now row.account.id g.ask.model) [
      | some e ↦ model_refused e
      | none ↦ elim (allowance_gate g.scene g.ask row.account.id) [
        | some e ↦ allowance_refused e
        | none ↦ fit (rank_of g row.account)
      ]
    ]
  ]
]

-- From the catalog on.
unfoldable pub look_at_model : Gate → Row → Look
unfolding look_at_load supports
look_at_model g row =
    if has_model g
    then elim (supports g.scene row g.ask.model g.now) [
      | err e ↦ broken_catalog e
      | ok (known, supported) ↦
          if not known
          then not_known
          else if not supported
          then not_supported
          else look_at_load g row
    ]
    else look_at_load g row

unfoldable pub look_at : Gate → Row → Look
unfolding allows_resource provider_enabled look_at_model
look_at g row =
    if is_down g row.account
    then not_available
    else if is_outside g row.account
        || (has_model g && not (allows_resource g.policy row.account.provider g.ask.model))
    then off_policy
    else look_at_model g row

-- The variables of the loop.
pub record Tally : Type 0 where
  pub candidates : List Row
  pub best_rank : ℕ
  pub busy : Bool
  pub unknown : Bool
  pub eligible : Bool
  pub cooling_wait : ℕ
  pub cooling_model : String
  pub quota_wait : ℕ
  pub allowance_error : Option Failure
  pub exclusions : Exclusions

abbrev pub new_tally : Tally
new_tally = record {
  candidates = [];
  best_rank = 5;
  busy = false;
  unknown = false;
  eligible = false;
  cooling_wait = 0;
  cooling_model = "";
  quota_wait = 0;
  allowance_error = none;
  exclusions = no_exclusions;
}

-- errors.As to a CoolingError, kept if it is the first or shorter than the one kept.
unfoldable pub note_cooling : Failure → Tally → Tally
note_cooling (cooling wait model) t =
    if t.cooling_wait == 0 || ltb wait t.cooling_wait
    then record t { cooling_wait = wait; cooling_model = model }
    else t
note_cooling _ t = t

abbrev pub is_cooling : Failure → Bool
is_cooling (cooling wait model) = true
is_cooling _ = false

abbrev pub is_allowance : Failure → Bool
is_allowance e =
    is e allocation_quota
    || is e allocation_pending
    || is e allocation_risk
    || is e allocation_unpriced
    || is e allocation_unavailable

abbrev pub count_rejected : Failure → Tally → Tally
count_rejected e t = record t { exclusions = reject t.exclusions e }

-- The account joins the candidates of its rank, or starts them again with a better rank.
unfoldable pub admit_rank : ℕ → Row → Tally → Tally
admit_rank r row t =
    if ltb r t.best_rank
    then record t { candidates = row ∷ []; best_rank = r }
    else if r == t.best_rank
    then record t { candidates = t.candidates ++ row ∷ [] }
    else t

-- What the loop's body does to its variables, and the error that it returns.
unfoldable pub note_look : Look → Row → Tally → Tally × Option Failure
unfolding note_cooling admit_rank
note_look not_available row t = (
  record t { exclusions = record t.exclusions { unavailable = bump t.exclusions.unavailable } },
  none,
)
note_look off_policy row t =
    (record t { exclusions = record t.exclusions { policy = bump t.exclusions.policy } }, none)
note_look (broken_catalog e) row t = (record t { eligible = true }, some e)
note_look not_known row t = (
  record t {
    eligible = true;
    unknown = true;
    exclusions = record t.exclusions { model = bump t.exclusions.model };
  },
  none,
)
note_look not_supported row t = (
  record t {
    eligible = true;
    exclusions = record t.exclusions { model = bump t.exclusions.model };
  },
  none,
)
note_look (account_refused e) row t =
    let u = count_rejected e (record t { eligible = true }) in
    (note_cooling e (if is e account_busy then record u { busy = true } else u), none)
note_look (quota_refused wait) row t =
    let u = count_rejected (quota wait) (record t { eligible = true }) in
    (
      (if t.quota_wait == 0 || ltb wait t.quota_wait then record u { quota_wait = wait } else u),
      none,
    )
note_look (model_refused e) row t =
    let u = count_rejected e (record t { eligible = true }) in
    if is e account_busy
    then (record u { busy = true }, none)
    else if is_cooling e
    then (note_cooling e u, none)
    else (u, some e)
note_look (allowance_refused e) row t =
    let u = record t { eligible = true } in
    if is_allowance e
    then (record (count_rejected e u) { allowance_error = some e }, none)
    else (u, some e)
note_look (fit r) row t = (admit_rank r row (record t { eligible = true }), none)

unfoldable pub survey : Gate → List Row → Tally → Tally × Option Failure
unfolding look_at note_look
survey g [] t = (t, none)
survey g (row ∷ rows) t =
    let (u, failed) = note_look (look_at g row) row t in
    elim failed [ some e ↦ (u, some e) | none ↦ survey g rows u ]

-- The error for a pool with no candidate.
unfoldable pub no_candidate : Gate → Tally → Failure
no_candidate g t = elim t.allowance_error [
  | some e ↦ e
  | none ↦
      if t.busy
      then plain account_busy
      else if ltb 0 t.cooling_wait
      then cooling t.cooling_wait t.cooling_model
      else if ltb 0 t.quota_wait
      then quota t.quota_wait
      else if t.unknown
      then plain catalog_unavailable
      else if t.eligible && has_model g
      then plain model_unavailable
      else plain no_account
]
