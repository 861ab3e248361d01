-- ===== src/Gateway/Lease.antt =====
-- Taking and giving back the leases of a request: `readModelRuntime` and `modelLease` of
-- internal/gateway/model_runtime.go, the end of `leaseAccount` in queue.go, `loadRuntimeRows` of
-- runtime.go, and `finish` of history.go.
use sub_lane.Base.{
  keep, length, lookup, insert, erase, Map, ℕ, ◌+◌, ◌-◌, String, Bool, true, false, not, ◌&&◌, ◌||◌,
  Option, none, some, List, [], ◌∷◌, ltb, leb, if◌then◌else◌, ◌==◌, string_eq, nat_eq,
}
use sub_lane.Failure.{Result, gateway_busy, plain, ok, err}
use sub_lane.Gateway.Classify.{Outcome, Verdict, upstream_fault}
use sub_lane.Gateway.State.{Tuning, Runtime, ModelRuntime, RetryAfter, Observation, no_reason}
use sub_lane.Gateway.Health.{settle_runtime, release}
use sub_lane.Gateway.ModelRuntime.{max_model_runtime, Write, settle_model}
use sub_lane.Gateway.Service.{ModelKey, Cell, Service, write_cell, active, model_key_eq}

-- A row of ListAccountRuntime, and the state that it starts.
pub record RuntimeRow : Type 0 where
  pub id : String
  pub start : Runtime
  pub lifecycle : ℕ

abbrev pub known_or_new : RuntimeRow → Option Runtime → Runtime
known_or_new row none = record row.start { in_flight = 0 }
known_or_new row (some r) = r

-- The loop of `loadRuntimeRows`: a known account keeps its state but for the limit.
unfoldable pub load_rows : List RuntimeRow → Map String Runtime → Map String Runtime
load_rows [] health = health
load_rows (row ∷ rows) health =
    let r = known_or_new row (lookup row.id health) in
    load_rows rows (insert row.id (record r { max_concurrency = row.start.max_concurrency }) health)

unfoldable pub has_row : String → List RuntimeRow → Bool
has_row id [] = false
has_row id (row ∷ rows) = row.id == id || has_row id rows

-- An account that is gone is forgotten once its last request has ended.
unfoldable pub drop_gone : List RuntimeRow → Map String Runtime → Map String Runtime
drop_gone rows [] = []
drop_gone rows ((id, r) ∷ health) =
    let rest = drop_gone rows health in
    if not (has_row id rows) && r.in_flight == 0 then erase id rest else (id, r) ∷ rest

-- Whether the rows still hold the epochs that the model's state was read at.
unfoldable pub is_current : List RuntimeRow → Cell → Bool
is_current [] c = false
is_current (row ∷ rows) c =
    if row.id == c.key.account
    then row.lifecycle == c.state.lifecycle && row.start.revision == c.state.runtime_revision
    else is_current rows c

unfoldable pub drop_superseded : List RuntimeRow → (ℕ → Cell) → Map ModelKey ℕ → Map ModelKey ℕ
unfolding keep
drop_superseded rows cells models = keep (λ entry. is_current rows (cells entry.1)) models

unfoldable pub load_runtime : List RuntimeRow → Service → Service
unfolding load_rows drop_gone drop_superseded
load_runtime rows s = record s {
  health = drop_gone rows (load_rows rows s.health);
  models = drop_superseded rows s.cells s.models;
}

-- *modelRuntime: the state that the map holds, or one just read from the database.
pub data ModelRef : Type 0 where
  held : ℕ → ModelRef
  fresh : ModelRuntime → ModelRef

-- readModelRuntime at a key with a model's name; `row` is what GetAccountModelRuntime reads.
unfoldable pub read_model : Service → ModelRuntime → ModelKey → ModelRef
read_model s row key = elim (lookup key s.models) [
  | none ↦ fresh (record row { in_flight = 0 })
  | some p ↦
      let m = (s.cells p).state in
      if m.lifecycle == row.lifecycle && m.runtime_revision == row.runtime_revision
      then held p
      else fresh (record row { in_flight = 0 })
]

-- modelLease
unfoldable pub model_lease : Service → ModelRuntime → ModelKey → Result ModelRef
unfolding read_model
model_lease s row key = elim (lookup key s.models) [
  | none ↦
      if leb max_model_runtime (length s.models)
      then err (plain gateway_busy)
      else ok (read_model s row key)
  | some p ↦ ok (read_model s row key)
]

abbrev pub hold : Cell → Cell
hold c = record c { state = record c.state { in_flight = c.state.in_flight + 1 } }

abbrev pub let_go : Cell → Cell
let_go c = record c { state = record c.state { in_flight = c.state.in_flight - 1 } }

-- modelState.inFlight++ and s.modelHealth[modelState.key] = modelState
unfoldable pub hold_model : Service → ModelKey → Option ModelRef → Service × Option ℕ
hold_model s key none = (s, none)
hold_model s key (some (held p)) = (
  record s { models = insert key p s.models; cells = write_cell p (hold (s.cells p)) s.cells },
  some p,
)
hold_model s key (some (fresh m)) = (
  record s {
    models = insert key s.next_cell s.models;
    cells = write_cell s.next_cell (hold (record { key = key; state = m })) s.cells;
    next_cell = s.next_cell + 1;
  },
  some s.next_cell,
)

-- The end of `leaseAccount`, once an account and a model state are chosen.
unfoldable pub grant :
    Service → Runtime → ModelKey → Option ModelRef → Observation → Service × Observation
unfolding hold_model
grant s r key ref e =
    let (t, p) = hold_model s key ref in
    (
      record t {
        health = insert e.account_id (record r { in_flight = r.in_flight + 1 }) s.health;
        sequence = s.sequence + 1;
      },
      record e { sequence = s.sequence + 1; revision = r.revision; leased = true; model_state = p },
    )

-- The member's lease: an entry for the last request is deleted.
unfoldable pub leave : Observation → Map ℕ ℕ → Map ℕ ℕ
leave e members =
    if e.member_leased
    then if leb (active members e.user_id) 1
      then erase e.user_id members
      else insert e.user_id (active members e.user_id - 1) members
    else members

-- The account's lease, and the sequence number.
unfoldable pub finish_account :
    Tuning
    → ℕ
    → Observation
    → Verdict
    → RetryAfter
    → ℕ
    → Map String Runtime
    → Map String Runtime × ℕ
finish_account t now e v retry sequence health =
    if e.leased
    then elim (lookup e.account_id health) [
      | none ↦ (health, sequence)
      | some r ↦
          let settled = settle_runtime t now e v retry sequence r in
          (insert e.account_id (release settled.0) health, settled.1)
    ]
    else (health, sequence)

-- e.modelTransient of `finish`.
unfoldable pub is_transient : Tuning → Verdict → Option ℕ → Bool
is_transient t v status =
    ltb 0 t.transient_threshold
    && (elim v.penalty [ upstream_fault ↦ true | _ ↦ false ])
    && (v.error_code == "stream_interrupted" || (elim status [ none ↦ false | some n ↦ leb 500 n ]))

-- finishModelRuntime for the state that the map still holds at the request's pointer.
unfoldable pub finish_held :
    ℕ → Observation → Outcome → RetryAfter → Write → Service → ℕ → Cell → Service
finish_held now e outcome retry w s p c =
    let settled = settle_model s.tuning now e outcome retry w s.sequence c.state in
    let m = settled.0 in
    let gone = m.in_flight == 0 && not m.persist_failed in
    record s {
      cells = write_cell p (record c { state = m }) s.cells;
      models = (if gone then erase c.key s.models else s.models);
      sequence = settled.1;
    }

-- finishModelRuntime: the pointer that the map holds for the key is compared with the request's.
unfoldable pub finish_model :
    ℕ → Observation → Outcome → RetryAfter → Write → Service → Option ℕ → Service
unfolding finish_held
finish_model now e outcome retry w s none = s
finish_model now e outcome retry w s (some p) =
    let c = let_go (s.cells p) in
    let stray = record s { cells = write_cell p c s.cells } in
    elim (lookup c.key s.models) [
      | none ↦ stray
      | some q ↦ if q == p then finish_held now e outcome retry w s p c else stray
    ]

-- The locked part of `finish`.
unfoldable pub finish : ℕ → Observation → Verdict → RetryAfter → Write → Service → Service
finish now e v retry w s =
    let o = record e { model_transient = is_transient s.tuning v e.upstream_status } in
    let members = leave o s.member_active in
    let after = finish_account s.tuning now o v retry s.sequence s.health in
    finish_model now o v.outcome retry w
      (record s { member_active = members; health = after.0; sequence = after.1 }) o.model_state

-- Resume, after its save: `none` where the account is not known.
unfoldable pub resume : String → Service → Option Service
unfolding keep
resume id s = elim (lookup id s.health) [
  | none ↦ none
  | some r ↦ some (record s {
    health =
        insert id
          (record r {
            cooldown_until = 0;
            reason = no_reason;
            failures = 0;
            last_failure_at = 0;
            last_failure_sequence = 0;
            revision = r.revision + 1;
          })
          s.health;
    models = keep (λ entry. not (entry.0.account == id)) s.models;
  })
]

-- The memory's part of SetConcurrency, for a limit in 1 .. 1000.
unfoldable pub set_concurrency : String → ℕ → Service → Option Service
set_concurrency id limit s =
    if ltb limit 1 || ltb 1000 limit
    then none
    else some (elim (lookup id s.health) [
      | none ↦ s
      | some r ↦ record s { health = insert id (record r { max_concurrency = limit }) s.health }
    ])
