-- ===== src/Alerts/Deliveries.antt =====
-- What a destination has been told agrees with the rows: the interleavings of checkWorkspace with
-- Update and Test, internal/alerts/alerts.go and test.go. Each step is what one hold of the
-- service's lock does; a call of the destination lies between two of them.
use sub_lane.Base.{
  In, ℕ, ◌-◌, ◌≤◌, String, ◌≡◌, ◌⊎◌, inr, Bool, true, false, Option, none, some, List, [], ◌∷◌,
  if◌then◌else◌,
}
use sub_lane.Alerts.{
  AlertState, Rows, save_state, Poll, observe, is_due, attempt, Event, event_of, finish_delivery,
  fail_delivery, Configuration, Input, Outside, update, reserve_test,
}
use sub_lane.Alerts.Saved.{Kept}

-- The workspace, and its check: the configuration that it has read, the rows that it has still to
-- look at, the delivery that is under way, and the deliveries left. `next_id` counts the identifiers
-- drawn, and `heard` lists the events that the destination has acknowledged.
pub record Workspace : Type 0 where
  pub config : Configuration
  pub rows : Rows
  pub next_id : ℕ
  pub raw : Configuration
  pub pending : Rows
  pub sending : Option AlertState
  pub remaining : ℕ
  pub heard : List Event

pub data Step (ids : ℕ → String) : Workspace → Workspace → Type 0 where
  -- Check comes to the workspace, with what is left of its ten deliveries.
  begin :
      (w : Workspace) (left : ℕ)
      → w.sending ≡ none
      → left ≤ 10
      → Step ids w (record w { raw = w.config; pending = []; remaining = left })
  -- observe, and the list of the rows in whatever order.
  look :
      (w : Workspace) (o : Poll) (listed : Rows)
      → w.sending ≡ none
      → w.config ≡ w.raw
      → w.config.enabled ≡ true
      → ((s : AlertState) → In s listed → In s (observe ids o w.next_id w.rows).0)
      → Step ids w (record w {
        rows = (observe ids o w.next_id w.rows).0;
        next_id = (observe ids o w.next_id w.rows).1;
        pending = listed;
      })
  -- A row that is not due is passed over.
  pass :
      (w : Workspace) (now : ℕ) (s : AlertState) (rest : Rows)
      → w.sending ≡ none
      → w.pending ≡ s ∷ rest
      → is_due w.remaining now s ≡ false
      → Step ids w (record w { pending = rest })
  -- The attempt is booked, and the call starts.
  book :
      (w : Workspace) (now : ℕ) (s : AlertState) (rest : Rows)
      → w.sending ≡ none
      → w.pending ≡ s ∷ rest
      → is_due w.remaining now s ≡ true
      → w.config ≡ w.raw
      → Step ids w (record w {
        rows = save_state (attempt now s) w.rows;
        pending = rest;
        sending = some (attempt now s);
        remaining = w.remaining - 1;
      })
  -- The check ends early: the configuration has changed, or a query has failed.
  stop : (w : Workspace) → w.sending ≡ none → Step ids w (record w { pending = [] })
  -- The call has returned.
  accept :
      (w : Workspace) (now : ℕ) (s : AlertState)
      → w.sending ≡ some s
      → Step ids w (record w {
        rows = finish_delivery now s.event_id w.rows;
        sending = none;
        heard = event_of s ∷ w.heard;
      })
  refuse :
      (w : Workspace) (s : AlertState)
      → w.sending ≡ some s
      → Step ids w (record w { rows = fail_delivery s.event_id w.rows; sending = none })
  -- The query after the call has failed, and the check ends.
  lose :
      (w : Workspace) (s : AlertState) (accepted : Bool)
      → w.sending ≡ some s
      → Step ids w (record w {
        pending = [];
        sending = none;
        heard = if accepted then event_of s ∷ w.heard else w.heard;
      })
  -- Update and Test, at any time.
  change :
      (w : Workspace) (x : Outside) (input : Input) (cfg : Configuration) (rows : Rows)
      → update x input w.config w.rows ≡ inr (cfg, rows)
      → Step ids w (record w { config = cfg; rows = rows })
  test :
      (w : Workspace) (now : ℕ) (opened : Bool) (cfg : Configuration)
      → reserve_test now opened true w.config ≡ inr cfg
      → Step ids w (record w { config = cfg })

pub data Reach (ids : ℕ → String) : Workspace → Type 0 where
  start :
      (cfg : Configuration)
      → Reach ids (record {
        config = cfg;
        rows = [];
        next_id = 0;
        raw = cfg;
        pending = [];
        sending = none;
        remaining = 0;
        heard = [];
      })
  next : {w v : Workspace} → Reach ids w → Step ids w v → Reach ids v

-- The states that the table, the check's list and the delivery under way hold.
abbrev pub Held : Workspace → AlertState → Type 0
Held w s = In s w.rows ⊎ In s w.pending ⊎ (w.sending ≡ some s)

abbrev pub IsKept : (ℕ → String) → Workspace → Type 0
IsKept ids w = Kept ids w.next_id w.heard (Held w)
