-- ===== src/Allowance/Entries.antt =====
-- The table of an allowance's entries and what a request does to it: `Begin`, `Finish`, `Settle` and
-- `Prune` of internal/allocations/runtime.go, with the statements of internal/storage/queries/
-- allocations.sql that they run.
use sub_lane.Base.{
  lookup, insert, Map, ℕ, zero, suc, ◌+◌, String, Bool, true, false, not, ◌&&◌, ◌||◌, none, some,
  List, [], ◌∷◌, ltb, leb, if◌then◌else◌, ℤ, under, over, nat_of, pos, ◌==◌, string_eq, nat_eq,
  int_eq,
}
use sub_lane.Failure.{
  Result, ◌>>◌, ◌>>=◌, unless, allocation_unpriced, allocation_input, allocation_settlement,
  allocation_not_found, plain, store, err, ok,
}
use sub_lane.Allowance.{Rate, Config, Window, Revision, entry_mode, effective_windows, cost}
use sub_lane.Allowance.Check.{Entry, Ledger, span, check}

-- The values that the column's CHECK admits.
pub data EntryState : Type 0 where
  active pending settled : EntryState

abbrev pub is_active : EntryState → Bool
is_active active = true
is_active pending = false
is_active settled = false

abbrev pub is_pending : EntryState → Bool
is_pending active = false
is_pending pending = true
is_pending settled = false

abbrev pub is_settled : EntryState → Bool
is_settled active = false
is_settled pending = false
is_settled settled = true

-- A row of allocation_entries, under its request_id in the table.
pub record EntryRow : Type 0 where
  pub scheme_id : ℕ
  pub revision_id : ℕ
  pub user_id : ℕ
  pub account_id : String
  pub model : String
  pub mode : String
  pub window_start : ℕ
  pub reset_at : ℕ
  pub started_at : ℕ
  pub finished_at : ℕ
  pub state : EntryState
  pub input_tokens : ℕ
  pub output_tokens : ℕ
  pub cached_tokens : ℕ
  pub cost : ℕ
  pub manual : Bool

abbrev pub Entries : Type 0
Entries = Map String EntryRow

-- The condition that the queries share: a scheme, a user or 0 for all, a span, and a mode.
abbrev pub falls : ℕ → ℕ → ℕ → ℕ → String → EntryRow → Bool
falls scheme user from to mode e =
    e.scheme_id == scheme
    && (user == 0 || e.user_id == user)
    && leb from e.started_at
    && ltb e.started_at to
    && e.mode == mode

-- AllocationActiveEntries; the limit of 4097 rows is above the 4096 that the code admits.
unfoldable pub open_rows : ℕ → ℕ → ℕ → ℕ → String → Entries → List Entry
open_rows scheme user from to mode [] = []
open_rows scheme user from to mode ((id, e) ∷ rest) =
    let others = open_rows scheme user from to mode rest in
    if falls scheme user from to mode e && is_active e.state
    then record { user_id = e.user_id; revision_id = e.revision_id; started_at = e.started_at }
      ∷ others
    else others

-- AllocationMemberUsage and, for user 0, AllocationGroupUsage.
unfoldable pub used : ℕ → ℕ → ℕ → ℕ → String → Entries → ℕ
used scheme user from to mode [] = 0
used scheme user from to mode ((id, e) ∷ rest) =
    let others = used scheme user from to mode rest in
    if falls scheme user from to mode e && is_settled e.state then e.cost + others else others

-- The mode that a scheme's present rules ask the table for.
unfoldable pub mode_of : Result Revision → String
unfolding entry_mode
mode_of (err e) = ""
mode_of (ok r) = entry_mode r.config

-- The ledger of a scheme: its queries of the entries read the table.
unfoldable pub over_table : Ledger → ℕ → Entries → Ledger
unfolding open_rows used mode_of
over_table led scheme table = record led {
  entries = λ user from to. ok (open_rows scheme user from to (mode_of led.current) table);
  member_used = λ user w. ok (used scheme user w.start w.stop (mode_of led.current) table);
  group_used = λ w. ok (used scheme 0 w.start w.stop (mode_of led.current) table);
}

-- effectiveWindow: the first window that ends last. There is one, or Go panics.
unfoldable pub longest : Window → List Window → Window
longest w [] = w
longest w (v ∷ vs) = longest (if ltb w.stop v.stop then v else w) vs

unfoldable pub effective_window : List Window → ℕ × ℕ
unfolding longest
effective_window [] = (0, 0)
effective_window (w ∷ ws) = let l = longest w ws in (l.start, l.stop)

pub record Request : Type 0 where
  pub id : String
  pub scheme_id : ℕ
  pub user_id : ℕ
  pub group_id : ℕ
  pub account_id : String
  pub model : String
  pub started_at : ℕ

abbrev pub opened_row : Request → Revision → ℕ × ℕ → EntryRow
opened_row r rev span = record {
  scheme_id = r.scheme_id;
  revision_id = rev.id;
  user_id = r.user_id;
  account_id = r.account_id;
  model = r.model;
  mode = entry_mode rev.config;
  window_start = span.0;
  reset_at = span.1;
  started_at = r.started_at;
  finished_at = 0;
  state = active;
  input_tokens = 0;
  output_tokens = 0;
  cached_tokens = 0;
  cost = 0;
  manual = false;
}

-- BeginAllocationEntry: the request's id is the primary key.
unfoldable pub insert_entry : String → EntryRow → Entries → Result Entries
unfolding lookup insert
insert_entry id e table = elim (lookup id table) [
  | none ↦ ok (insert id e table)
  | some _ ↦ err store
]

unfoldable pub begin : Ledger → Request → ℕ → (Config → ℕ × ℕ) → Entries → Result Entries
unfolding over_table check effective_window effective_windows insert_entry
begin led r now calendar table =
    check (over_table led r.scheme_id table) r.user_id r.group_id r.model now calendar >>= λ rev.
    insert_entry r.id
      (opened_row r rev (effective_window (effective_windows rev now (calendar rev.config)))) table

pub record Completion : Type 0 where
  pub input : ℤ
  pub output : ℤ
  pub cached : ℤ
  pub known : Bool
  pub dispatched : Bool
  pub rejected : Bool

-- A settlement by hand that says what the row says already.
abbrev pub repeats : EntryRow → Completion → Bool
repeats e c =
    is_settled e.state
    && e.manual
    && c.input == pos e.input_tokens
    && c.output == pos e.output_tokens
    && c.cached == pos e.cached_tokens

abbrev pub bad_numbers : Completion → Bool
bad_numbers c =
    under c.input 0
    || under c.output 0
    || under c.cached 0
    || ltb (nat_of c.input) (nat_of c.cached)
    || over c.input 1000000000
    || over c.output 1000000000

-- rateFor
unfoldable pub rate_for : String → List Rate → Result Rate
rate_for model [] = err (plain allocation_unpriced)
rate_for model (r ∷ rs) = if r.model == model then ok r else rate_for model rs

-- What the row costs by the rules that it was admitted by.
unfoldable pub charge : (ℕ → Result Config) → EntryRow → Completion → Result ℕ
unfolding rate_for cost
charge config_of e c =
    if e.mode == "tokens"
    then ok (nat_of c.input + nat_of c.output)
    else config_of e.revision_id >>= λ config. rate_for e.model config.rates >>= λ rate.
        cost rate (nat_of c.input) (nat_of c.output) (nat_of c.cached)

abbrev pub end_state : Completion → EntryState
end_state c = if c.dispatched && not c.rejected && not c.known then pending else settled

-- FinishAllocationEntry
abbrev pub finished : EntryRow → Completion → ℕ → Bool → ℕ → EntryRow
finished e c now manual cost = record e {
  finished_at = now;
  state = end_state c;
  input_tokens = nat_of c.input;
  output_tokens = nat_of c.output;
  cached_tokens = nat_of c.cached;
  cost = if is_pending (end_state c) then 0 else cost;
  manual = manual;
}

unfoldable pub finish_row :
    (ℕ → Result Config) → String → EntryRow → Completion → ℕ → Bool → Entries → Result Entries
unfolding charge
finish_row config_of id e c now manual table =
    if not manual && not (is_active e.state)
    then ok table
    else if manual && repeats e c
    then ok table
    else unless
        (manual
          && (not (is_pending e.state)
              || under c.input e.input_tokens
              || under c.output e.output_tokens))
        (plain allocation_settlement)
      >> (unless (bad_numbers c) (plain allocation_input)
          >> (charge config_of e c >>= λ cost. ok (insert id (finished e c now manual cost) table)))

unfoldable pub finish_entry :
    (ℕ → Result Config) → String → Completion → ℕ → Bool → Entries → Result Entries
unfolding finish_row lookup
finish_entry config_of id c now manual table = elim (lookup id table) [
  | none ↦ err store
  | some e ↦ finish_row config_of id e c now manual table
]

-- Settle, for a scheme of the tenant or not; the audit record and the commit may fail.
unfoldable pub settle :
    (ℕ → Result Config)
    → Bool
    → Result (Unit {0})
    → ℕ
    → String
    → Completion
    → ℕ
    → Entries
    → Result Entries
unfolding finish_entry lookup
settle config_of known_scheme committed scheme id c now table =
    unless (not known_scheme) (plain allocation_not_found) >> elim (lookup id table) [
      | none ↦ err (plain allocation_settlement)
      | some e ↦
          unless (not (e.scheme_id == scheme)) (plain allocation_settlement)
          >> (finish_entry config_of id (record c { known = true; dispatched = true }) now true
                table
              >>= λ written. committed >> ok written)
    ]

-- PruneAllocations: settled rows of periods that ended before, the first 500 of them.
unfoldable pub prune_entries : ℕ → ℕ → Entries → Entries
prune_entries room before [] = []
prune_entries room before ((id, e) ∷ rest) = elim room [
  | zero ↦ (id, e) ∷ rest
  | suc left ↦
      if is_settled e.state && ltb e.reset_at before
      then prune_entries left before rest
      else (id, e) ∷ prune_entries (suc left) before rest
]
