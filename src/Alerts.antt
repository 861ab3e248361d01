-- ===== src/Alerts.antt =====
-- The notifications of a workspace: internal/alerts/alerts.go and test.go, with the queries that
-- they run on the table of incidents. Instants are in seconds, and the rows are those of one
-- workspace. Flags that the table keeps as 0 and 1 are Booleans.
pub mod Saved
pub mod Observed
pub mod Deliveries
pub mod Marked
pub mod Acknowledged
pub mod Merged
pub mod Incidents
pub mod Entered
pub mod Covered
pub mod Doubted
pub mod Passed
pub mod Settled
pub mod Settings
use Prim.Native.Char.{Char}
use Prim.Native.String.{◌++◌}
use sub_lane.Base.{
  any, map, lookup, insert, Map, ℕ, suc, ◌+◌, ◌-◌, ◌*◌, ◌^◌, min, code, String, ◌⊎◌, inl, inr, Bool,
  true, false, not, ◌&&◌, ◌||◌, none, some, Option, List, [], ◌∷◌, ltb, leb, if◌then◌else◌, ℤ,
  under, over, nat_of, ◌==◌, string_eq, nat_eq, int_eq,
}

-- ListAlertSignalsRow
pub record Signal : Type 0 where
  pub kind : String
  pub subject : String

-- A row of alert_states.
pub record AlertState : Type 0 where
  pub kind : String
  pub subject : String
  pub active : Bool
  pub delivered_active : Bool
  pub event_id : String
  pub changed_at : ℕ
  pub attempts : ℕ
  pub retry_at : ℕ
  pub delivered_at : ℕ
  pub delivery_failed : Bool
  pub cycle : String

abbrev pub Rows : Type 0
Rows = List AlertState

abbrev pub key_of : String → String → String
key_of kind subject = kind ++ ":" ++ subject

abbrev pub agree : Bool → Bool → Bool
agree a b = if a then b else not b

-- SaveAlertState: the row of the kind and the subject is replaced, or a row is added.
unfoldable pub save_state : AlertState → Rows → Rows
save_state s [] = s ∷ []
save_state s (r ∷ rs) =
    if r.kind == s.kind && r.subject == s.subject then s ∷ rs else r ∷ save_state s rs

-- What observe is called with: the signals of the query with those of the observers, the keys and
-- patterns of which nothing is known, the cycles of the allowances, and the time.
pub record Poll : Type 0 where
  pub signals : List Signal
  pub unknown : List String
  pub cycles : Map String String
  pub now : ℕ

-- existing: a row for each signal, then the rows of the table.
unfoldable pub seed : List Signal → Map String AlertState → Map String AlertState
unfolding insert
seed [] existing = existing
seed (s ∷ signals) existing = seed signals (
    insert (key_of s.kind s.subject)
      (record {
        kind = s.kind;
        subject = s.subject;
        active = false;
        delivered_active = false;
        event_id = "";
        changed_at = 0;
        attempts = 0;
        retry_at = 0;
        delivered_at = 0;
        delivery_failed = false;
        cycle = "";
      })
      existing)

unfoldable pub merge : Rows → Map String AlertState → Map String AlertState
unfolding insert
merge [] existing = existing
merge (s ∷ states) existing = merge states (insert (key_of s.kind s.subject) s existing)

unfoldable pub is_signalled : List Signal → String → Bool
unfolding any
is_signalled signals key = any (λ s. key_of s.kind s.subject == key) signals

-- strings.SplitN(subject, ":", 2)[0]
unfoldable pub before_colon : String → String
before_colon String.[] = ""
before_colon (String.◌∷◌ c s) =
    let rest = before_colon s in if code c == b':' then "" else String.◌∷◌ c rest

-- uncertain
unfoldable pub is_uncertain : List String → String → AlertState → Bool
unfolding before_colon any
is_uncertain unknown key s =
    let has : String → Bool = λ k. any (λ u. u == k) unknown in
    s.kind == "allowance_low" && has "allowance_unavailable"
    || has key
    || s.kind == "model_unavailable" && has ("model_unavailable:" ++ before_colon s.subject ++ ":*")
    || s.kind == "quota_low" && has "quota_low:*"
    || has "capacity_unavailable" && (s.kind == "model_unavailable" || s.kind == "quota_low")

unfoldable pub cycle_of : Map String String → String → String
unfolding lookup
cycle_of cycles key = elim (lookup key cycles) [ none ↦ "" | some c ↦ c ]

-- The row that is saved for a change.
unfoldable pub changed : Poll → String → String → Bool → Bool → AlertState → AlertState
unfolding cycle_of
changed o key id here new_cycle s = record s {
  cycle = if new_cycle then cycle_of o.cycles key else s.cycle;
  delivered_active = if new_cycle then false else s.delivered_active;
  active = here;
  event_id = id;
  changed_at = o.now;
  attempts = 0;
  retry_at = 0;
  delivery_failed = false;
}

-- An allowance that is low in another cycle than the one that its row was saved for.
unfoldable pub is_new_cycle : Poll → String → AlertState → Bool
unfolding is_signalled cycle_of
is_new_cycle o key s =
    s.kind == "allowance_low"
    && is_signalled o.signals key
    && not (s.cycle == cycle_of o.cycles key)

-- The three tests by which the loop goes on without saving.
unfoldable pub stays_unknown : Poll → String → AlertState → Bool
unfolding is_uncertain is_signalled
stays_unknown o key s = is_uncertain o.unknown key s && not (is_signalled o.signals key)

unfoldable pub is_told_in_cycle : Poll → String → AlertState → Bool
unfolding is_signalled cycle_of
is_told_in_cycle o key s =
    s.kind == "allowance_low"
    && is_signalled o.signals key
    && s.cycle == cycle_of o.cycles key
    && not (s.event_id == "")

unfoldable pub is_same : Poll → String → AlertState → Bool
unfolding is_signalled is_new_cycle
is_same o key s =
    not (s.event_id == "")
    && agree s.active (is_signalled o.signals key)
    && not (is_new_cycle o key s)

-- The body of the loop over existing: the row to save, if there is one.
unfoldable pub observe_row : Poll → String → String → AlertState → Option AlertState
unfolding stays_unknown is_told_in_cycle is_same changed is_signalled is_new_cycle
observe_row o key id s =
    if stays_unknown o key s
    then none
    else if is_told_in_cycle o key s
    then none
    else if is_same o key s
    then none
    else some (changed o key id (is_signalled o.signals key) (is_new_cycle o key s) s)

-- The loop, with the identifiers that newEventID draws and how many it has drawn.
unfoldable pub observe_rows : (ℕ → String) → Poll → Map String AlertState → ℕ → Rows → Rows × ℕ
unfolding observe_row save_state
observe_rows ids o [] n rows = (rows, n)
observe_rows ids o ((key, s) ∷ rest) n rows = elim (observe_row o key (ids n) s) [
  | none ↦ observe_rows ids o rest n rows
  | some changed' ↦ observe_rows ids o rest (suc n) (save_state changed' rows)
]

-- observe, where the transaction commits.
unfoldable pub observe : (ℕ → String) → Poll → ℕ → Rows → Rows × ℕ
unfolding observe_rows seed merge
observe ids o n rows = observe_rows ids o (merge rows (seed o.signals [])) n rows

-- The test of checkWorkspace's loop.
unfoldable pub is_due : ℕ → ℕ → AlertState → Bool
is_due remaining now s =
    not (remaining == 0) && not (agree s.active s.delivered_active) && leb s.retry_at now

-- One more attempt, booked before the call.
unfoldable pub attempt : ℕ → AlertState → AlertState
attempt now s =
    let tries = min (s.attempts + 1) 10 in
    record s { attempts = tries; retry_at = now + min (60 * 2 ^ (tries - 1)) 1800 }

-- What the destination is told; `true` is firing.
pub record Event : Type 0 where
  pub id : String
  pub kind : String
  pub subject : String
  pub firing : Bool
  pub observed_at : ℕ
  pub cycle : String

unfoldable pub event_of : AlertState → Event
event_of s = record {
  id = s.event_id;
  kind = s.kind;
  subject = s.subject;
  firing = s.active;
  observed_at = s.changed_at;
  cycle = s.cycle;
}

-- FinishAlertDelivery
unfoldable pub mark_delivered : ℕ → String → AlertState → AlertState
mark_delivered now id s =
    if s.event_id == id
    then record s {
      delivered_active = s.active;
      delivered_at = now;
      attempts = 0;
      retry_at = 0;
      delivery_failed = false;
    }
    else s

unfoldable pub finish_delivery : ℕ → String → Rows → Rows
unfolding mark_delivered
finish_delivery now id [] = []
finish_delivery now id (s ∷ rows) = mark_delivered now id s ∷ finish_delivery now id rows

-- FailAlertDelivery
unfoldable pub mark_failed : String → AlertState → AlertState
mark_failed id s = if s.event_id == id then record s { delivery_failed = true } else s

unfoldable pub fail_delivery : String → Rows → Rows
unfolding mark_failed
fail_delivery id [] = []
fail_delivery id (s ∷ rows) = mark_failed id s ∷ fail_delivery id rows

-- configuration; the endpoint is sealed, and "" where there is none.
pub record Configuration : Type 0 where
  pub quota_threshold : ℕ
  pub model_alerts : Bool
  pub tested_at : ℕ
  pub enabled : Bool
  pub endpoint : String

pub record Input : Type 0 where
  pub quota_threshold : ℤ
  pub model_alerts : Bool
  pub enabled : Bool
  pub url : String
  pub clear : Bool

pub data AlertError : Type 0 where
  invalid_settings seal_failed store_failed test_cooling delivery_failed : AlertError

-- What Update asks of others: ValidateDestination, SealWebhook, and whether the transaction
-- commits.
pub record Outside : Type 0 where
  pub valid : String → Bool
  pub sealed : Option String
  pub commits : Bool

-- The endpoint of the new configuration.
unfoldable pub new_endpoint : Outside → Input → String → AlertError ⊎ String
new_endpoint x input old =
    let kept = if input.clear then "" else old in
    if input.url == ""
    then inr kept
    else if x.valid input.url
    then elim x.sealed [ none ↦ inl seal_failed | some sealed ↦ inr sealed ]
    else inl invalid_settings

-- The end of Update, from the new endpoint on.
unfoldable pub store_settings :
    Outside → Input → Configuration → Rows → String → AlertError ⊎ (Configuration × Rows)
store_settings x input cfg rows endpoint =
    if input.enabled && endpoint == ""
    then inl invalid_settings
    else if x.commits
    then inr (
      record cfg {
        enabled = input.enabled;
        quota_threshold = nat_of input.quota_threshold;
        model_alerts = input.model_alerts;
        endpoint = endpoint;
      },
      if not (input.url == "") || input.clear || not input.enabled then [] else rows,
    )
    else inl store_failed

-- Update; what it leaves unchanged on an error is the whole configuration and every row.
unfoldable pub update : Outside → Input → Configuration → Rows → AlertError ⊎ (Configuration × Rows)
unfolding new_endpoint store_settings
update x input cfg rows =
    if input.clear && (input.enabled || not (input.url == ""))
    then inl invalid_settings
    else if under input.quota_threshold 0 || over input.quota_threshold 99
    then inl invalid_settings
    else elim (new_endpoint x input cfg.endpoint) [
      | inl e ↦ inl e
      | inr endpoint ↦ store_settings x input cfg rows endpoint
    ]

-- Test up to its call: the time is booked before it.
unfoldable pub reserve_test : ℕ → Bool → Bool → Configuration → AlertError ⊎ Configuration
reserve_test now opened commits cfg =
    if cfg.endpoint == ""
    then inl invalid_settings
    else if ltb 0 cfg.tested_at && ltb now (cfg.tested_at + 60)
    then inl test_cooling
    else if not opened
    then inl delivery_failed
    else if commits
    then inr (record cfg { tested_at = now })
    else inl store_failed
