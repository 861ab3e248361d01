-- ===== src/Gateway/Selection.antt =====
-- What `selectAllocationAccount` of internal/gateway/selection.go is asked, what it reads in its
-- transaction, and the tests that it applies to one account.
pub mod Candidates
pub mod Rotation
pub mod Bound
pub mod Choose
pub mod Survey
pub mod Turns
pub mod Sound
pub mod Stays
pub mod Entitled
pub mod Sticky
use sub_lane.Base.{
  ℕ, ◌-◌, max, String, Bool, true, false, not, ◌||◌, Option, none, some, List, if◌then◌else◌, ◌==◌,
  string_eq, nat_eq,
}
use sub_lane.Failure.{Failure, Result, ◌>>=◌, ok, err}
use sub_lane.Groups.{ModelPolicy}
use sub_lane.Gateway.State.{unix, Account, ModelRuntime}
use sub_lane.Gateway.Catalog.{catalog_model_id, Catalog, catalog_supports}
use sub_lane.Gateway.Quota.{Decision, RawUsage, snapshot_quota, exhausted}
use sub_lane.Gateway.Admission.{model_admission}
use sub_lane.Gateway.Service.{Service}
use sub_lane.Gateway.Lease.{RuntimeRow, ModelRef, read_model, held, fresh}

pub data Kind : Type 0 where
  responses chat compact messages gemini gemini_stream : Kind

abbrev pub is_compact : Kind → Bool
is_compact compact = true
is_compact _ = false

unfoldable pub preferred_provider : Kind → String
preferred_provider messages = "claude"
preferred_provider gemini = "antigravity"
preferred_provider gemini_stream = "antigravity"
preferred_provider _ = "codex"

pub data AffinityMode : Type 0 where
  pinned portable continued : AffinityMode

abbrev pub is_portable : AffinityMode → Bool
is_portable portable = true
is_portable _ = false

abbrev pub is_continued : AffinityMode → Bool
is_continued continued = true
is_continued _ = false

-- The arguments, with the digests of the session and of the parent thread.
pub record Ask : Type 0 where
  pub user_id : ℕ
  pub group_id : ℕ
  pub session : String
  pub digest : String
  pub provider : String
  pub model : String
  pub kind : Kind
  pub scheme : ℕ
  pub affinity : AffinityMode
  pub parent_thread : String
  pub parent_digest : String

-- A row of ListRoutingAccounts, with its catalog decoded or failing to.
pub record Row : Type 0 where
  pub account : Account
  pub catalog : Result Catalog
  pub usage : RawUsage
  pub usage_updated_at : Option ℕ

-- What the transaction and the configuration hold. `reads`, `writes` and `commit` are the errors
-- of the database in the queries of bindings, in their changes, and at the end.
pub record Scene : Type 0 where
  pub codex_only : Bool
  pub load : Result (List RuntimeRow)
  pub rows : Result (List Row)
  pub members_of_pool : Result (List String)
  pub policy : Result ModelPolicy
  pub catalog_source : String → String
  pub model_row : String → Result ModelRuntime
  pub allowance : String → Option Failure
  pub reads : Option Failure
  pub writes : Option Failure
  pub commit : Option Failure

abbrev pub failing {ℓ} : {A : Type ℓ} → Option Failure → Result A → Result A
failing none r = r
failing (some e) r = err e

-- accounts.ProviderEnabled
unfoldable pub provider_enabled : Bool → String → Bool
provider_enabled codex_only provider = not codex_only || provider == "codex"

-- The closure `supports`.
unfoldable pub supports : Scene → Row → String → ℕ → Result (Bool × Bool)
unfolding catalog_supports
supports x row model now =
    row.catalog >>= λ c. ok (catalog_supports c now model (x.catalog_source row.account.provider))

unfoldable pub quota_decision : Row → String → ℕ → Decision
unfolding snapshot_quota
quota_decision row model now =
    snapshot_quota row.account.provider (catalog_model_id model) row.usage row.usage_updated_at
      (unix now)

-- The closure `quotaAdmission`: the seconds of a QuotaError.
unfoldable pub quota_admission : Row → String → ℕ → Option ℕ
unfolding quota_decision
quota_admission row model now =
    let d = quota_decision row model now in
    elim d.state [ exhausted ↦ some (max 1 (d.retry_at - unix now)) | _ ↦ none ]

abbrev pub state_of : Service → ModelRef → ModelRuntime
state_of s (held p) = (s.cells p).state
state_of s (fresh m) = m

-- readModelRuntime, with the request that names no model.
unfoldable pub find_model : Service → Scene → String → String → Result (Option ModelRef)
unfolding read_model catalog_model_id
find_model s x id model =
    let name = catalog_model_id model in
    if name == ""
    then ok none
    else x.model_row id >>= λ row.
        ok (some (read_model s row (record { account = id; model = name })))

-- modelAdmission
unfoldable pub model_gate : Service → Scene → ℕ → String → String → Option Failure
unfolding find_model model_admission
model_gate s x now id model = elim (find_model s x id model) [
  | err e ↦ some e
  | ok none ↦ none
  | ok (some ref) ↦ model_admission (some (state_of s ref)) (unix now) (catalog_model_id model)
]

-- allocations.Check, where the pool's scheme has one.
abbrev pub allowance_gate : Scene → Ask → String → Option Failure
allowance_gate x ask id = if ask.scheme == 0 then none else x.allowance id
