-- ===== src/Gateway/Availability.antt =====
-- What the console shows of a model in a pool: internal/gateway/availability.go. The reasons are
-- counted by their values, whose texts differ, and are not sorted; names and the time of the answer,
-- which are copied, are left out.
pub mod Limits
pub mod Reasons
pub mod Agrees
pub mod Summed
use sub_lane.Base.{
  lookup, insert, Map, ℕ, ◌+◌, ◌-◌, ◌*◌, ◌^◌, max, String, Bool, true, false, not, ◌&&◌, ◌||◌,
  Option, none, some, List, [], ◌∷◌, ◌++◌, ltb, leb, if◌then◌else◌, ◌==◌, string_eq, nat_eq, int_eq,
}
use sub_lane.Failure.{
  Failure, Sentinel, chain, number, plain, cooling, quota, provider_disabled, account_disabled,
  reauthorize, no_account, model_not_allowed, catalog_unavailable, model_unavailable,
}
use sub_lane.Groups.{ModelPolicy, allows, allows_provider, allows_resource}
use sub_lane.Gateway.State.{unix, Account, Runtime, ModelRuntime, no_reason}
use sub_lane.Gateway.Catalog.{Catalog, catalog_usable, catalog_contains, catalog_model_id}
use sub_lane.Gateway.Quota.Percent.{Float, nan, infinite, finite}
use sub_lane.Gateway.Quota.{
  Usage, UsageLimit, UsageWindow, Decision, QuotaState, unknown, unsupported, available, exhausted,
  decided, quota_routing_supported, quota_for_model, quota_status,
}
use sub_lane.Gateway.Admission.{account_admission, model_admission}
use sub_lane.Gateway.Service.{Service, ModelKey, model_key_eq, active}
use sub_lane.Gateway.Selection.{provider_enabled}

-- availabilityAccount
pub record Seen : Type 0 where
  pub account : Account
  pub catalog : Catalog
  pub usage : Option Usage
  pub limits : String → Option ModelRuntime

-- What the service holds beside the rows.
pub record Outlook : Type 0 where
  pub health : Map String Runtime
  pub codex_only : Bool
  pub catalog_source : String → String
  pub now : ℕ

-- A row of ListAvailabilityModelLimits in memory.
abbrev pub saved_limit : ModelRuntime → ModelRuntime
saved_limit row = record {
  lifecycle = 0;
  runtime_revision = 0;
  version = 0;
  cooldown_until = row.cooldown_until;
  failures = row.failures;
  in_flight = 0;
  last_failure_sequence = 0;
  persist_failed = false;
  reason = no_reason;
  last_failure_at = 0;
  failure_window_at = 0;
}

-- The limits of availabilityAccounts at one model: the saved row, if there is one, or the state in
-- memory of the account's present lifecycle and revision. `row` is what GetAccountModelRuntime
-- reads, which joins the same tables: its lifecycle is the account's models_revision.
unfoldable pub limit_at : Service → Bool → ModelRuntime → ModelKey → Option ModelRuntime
unfolding lookup
limit_at s present row key =
    let saved = if present then some (saved_limit row) else none in
    elim (lookup key.account s.health) [
      | none ↦ saved
      | some runtime ↦ elim (lookup key s.models) [
        | none ↦ saved
        | some p ↦
            let m = (s.cells p).state in
            if m.lifecycle == row.lifecycle && m.runtime_revision == runtime.revision
            then some m
            else saved
      ]
    ]

-- known and supported
unfoldable pub is_supported : Outlook → Seen → String → Bool
unfolding catalog_usable catalog_contains
is_supported o x model = catalog_usable x.catalog o.now && catalog_contains x.catalog.models model

unfoldable pub is_known : Outlook → Seen → String → Bool
unfolding is_supported catalog_usable
is_known o x model =
    if not (is_supported o x model) && not (x.catalog.source == o.catalog_source x.account.provider)
    then false
    else catalog_usable x.catalog o.now

-- The `switch`.
unfoldable pub admission_reason : Outlook → ModelPolicy → String → Seen → Option Failure
unfolding provider_enabled allows_provider allows_resource is_known is_supported account_admission
    model_admission catalog_model_id
admission_reason o policy model x =
    if not (provider_enabled o.codex_only x.account.provider)
    then some (plain provider_disabled)
    else if not x.account.enabled
    then some (plain account_disabled)
    else if x.account.status == "reauth_required"
    then some (plain reauthorize)
    else if not (allows_provider policy x.account.provider)
        || not (allows_resource policy x.account.provider model)
    then some (plain model_not_allowed)
    else if not (is_known o x model)
    then some (plain catalog_unavailable)
    else if not (is_supported o x model)
    then some (plain model_unavailable)
    else elim (account_admission o.health o.now x.account) [
      | some e ↦ some e
      | none ↦ model_admission (x.limits (catalog_model_id model)) (unix o.now) model
    ]

unfoldable pub quota_of : Outlook → String → Seen → Decision
unfolding quota_routing_supported quota_status quota_for_model catalog_model_id
quota_of o model x =
    if quota_routing_supported x.account.provider
    then elim x.usage [
      | none ↦ decided unknown
      | some u ↦
          quota_status (quota_for_model u x.account.provider (catalog_model_id model)) (unix o.now)
    ]
    else decided unsupported

-- The reason of a row, with its quota.
unfoldable pub reason_of : Outlook → ModelPolicy → String → Seen → Option Failure
unfolding admission_reason quota_of
reason_of o policy model x = elim (admission_reason o policy model x) [
  | some e ↦ some e
  | none ↦
      let d = quota_of o model x in
      elim d.state [ exhausted ↦ some (quota (max 1 (d.retry_at - unix o.now))) | _ ↦ none ]
]

-- a > b, on finite fractions by the products; NaN is greater than nothing.
unfoldable pub exceeds : Float → Float → Bool
exceeds nan b = false
exceeds (infinite negative) nan = false
exceeds (infinite true) (infinite negative') = false
exceeds (infinite false) (infinite negative') = negative'
exceeds (infinite negative) (finite negative' m k) = not negative
exceeds (finite negative m k) nan = false
exceeds (finite negative m k) (infinite negative') = negative'
exceeds (finite false m k) (finite false m' k') = ltb (m' * 2 ^ k) (m * 2 ^ k')
exceeds (finite false m k) (finite true m' k') = ltb 0 (m + m')
exceeds (finite true m k) (finite false m' k') = false
exceeds (finite true m k) (finite true m' k') = ltb (m * 2 ^ k') (m' * 2 ^ k)

-- The loops over the windows of the limits with no name.
unfoldable pub most_used : List UsageWindow → Option Float → Option Float
unfolding exceeds
most_used [] used = used
most_used (w ∷ ws) used = most_used ws (elim w.used_percent [
  | none ↦ used
  | some p ↦ elim used [ none ↦ some p | some q ↦ if exceeds p q then some p else some q ]
])

unfoldable pub most_used_of : List UsageLimit → Option Float → Option Float
unfolding most_used
most_used_of [] used = used
most_used_of (l ∷ ls) used =
    most_used_of ls (if l.name == "" then most_used l.windows used else used)

unfoldable pub used_percent : Outlook → String → Seen → Option Float
unfolding quota_of most_used_of quota_for_model catalog_model_id
used_percent o model x =
    let selected : Option Float = elim x.usage [
      | none ↦ none
      | some u ↦
          most_used_of (quota_for_model u x.account.provider (catalog_model_id model)).limits none
    ] in
    elim (quota_of o model x).state [ available ↦ selected | exhausted ↦ selected | _ ↦ none ]

-- capacity.Account
pub record AccountView : Type 0 where
  pub id : String
  pub provider : String
  pub reason : Option Failure
  pub retry_at : ℕ
  pub quota_state : QuotaState
  pub quota_used_percent : Option Float
  pub in_flight : ℕ
  pub max_concurrency : ℕ

unfoldable pub wait_of : Failure → ℕ
wait_of (cooling wait model) = wait
wait_of (quota wait) = wait
wait_of _ = 0

abbrev pub has_wait : Failure → Bool
has_wait (cooling wait model) = true
has_wait (quota wait) = true
has_wait _ = false

unfoldable pub view : Outlook → ModelPolicy → String → Seen → AccountView
unfolding reason_of quota_of used_percent lookup wait_of
view o policy model x =
    let reason = reason_of o policy model x in
    let runtime = lookup x.account.id o.health in
    record {
      id = x.account.id;
      provider = x.account.provider;
      reason = reason;
      retry_at = elim reason [
        | none ↦ 0
        | some e ↦ if has_wait e then unix o.now + wait_of e else 0
      ];
      quota_state = (quota_of o model x).state;
      quota_used_percent = used_percent o model x;
      in_flight = elim runtime [ none ↦ 0 | some r ↦ r.in_flight ];
      max_concurrency = elim runtime [ none ↦ 0 | some r ↦ r.max_concurrency ];
    }

pub data Availability : Type 0 where
  is_available is_unknown is_unavailable : Availability

-- capacity.Model
pub record Capacity : Type 0 where
  pub state : Availability
  pub available : ℕ
  pub unknown : ℕ
  pub retry_at : ℕ
  pub counts : Map ℕ ℕ
  pub accounts : List AccountView

abbrev pub no_capacity : Capacity
no_capacity = record {
  state = is_unavailable;
  available = 0;
  unknown = 0;
  retry_at = 0;
  counts = [];
  accounts = [];
}

unfoldable pub count_reason : List Sentinel → Map ℕ ℕ → Map ℕ ℕ
unfolding insert lookup
count_reason [] counts = counts
count_reason (s ∷ rest) counts = insert (number s) (active counts (number s) + 1) counts

abbrev pub is_catalog_unavailable : Failure → Bool
is_catalog_unavailable e = elim (chain e) [
  | [] ↦ false
  | s ∷ rest ↦ number s == number catalog_unavailable
]

-- The end of the loop's body.
unfoldable pub note_view : ℕ → AccountView → Capacity → Capacity
unfolding count_reason
note_view now v c = elim v.reason [
  | none ↦ record c { available = c.available + 1; accounts = c.accounts ++ v ∷ [] }
  | some e ↦ record c {
    unknown = if is_catalog_unavailable e then c.unknown + 1 else c.unknown;
    retry_at =
        if ltb now v.retry_at && (c.retry_at == 0 || ltb v.retry_at c.retry_at)
        then v.retry_at
        else c.retry_at;
    counts = count_reason (chain e) c.counts;
    accounts = c.accounts ++ v ∷ [];
  }
]

unfoldable pub note_views : Outlook → ModelPolicy → String → List Seen → Capacity → Capacity
unfolding view note_view
note_views o policy model [] c = c
note_views o policy model (x ∷ rows) c =
    note_views o policy model rows (note_view (unix o.now) (view o policy model x) c)

-- The state, after the loop.
unfoldable pub conclude : Capacity → Capacity
conclude c =
    if ltb 0 c.available
    then record c { state = is_available; retry_at = 0 }
    else if ltb 0 c.unknown
    then record c { state = is_unknown; retry_at = 0 }
    else c

-- modelAvailability
unfoldable pub model_availability : Outlook → ModelPolicy → String → List Seen → Capacity
unfolding allows note_views conclude count_reason
model_availability o policy model rows =
    if not (allows policy model)
    then record no_capacity { counts = (number model_not_allowed, 1) ∷ [] }
    else let c = conclude (note_views o policy model rows no_capacity) in
      elim rows [ [] ↦ record c { counts = insert (number no_account) 1 c.counts } | x ∷ rest ↦ c ]
