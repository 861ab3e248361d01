-- ===== src/Scenarios/Notices.antt =====
-- A workspace whose pool is out for a while.
use text.Mathlib.TextEquality.{eq_iff}
use sub_lane.Base.{
  In, ℕ, zero, suc, String, ◌≡◌, ◌⊎◌, refl, ap, inl, inr, true, false, none, some, [], ◌∷◌, arith,
  pos, ◌==◌, string_eq,
}
use sub_lane.Alerts.{
  Signal, AlertState, Poll, key_of, observe, attempt, event_of, finish_delivery, Configuration,
  Input, Outside, reserve_test, is_due, mark_delivered,
}
use sub_lane.Alerts.Deliveries.{Workspace, Reach, start, next, begin, look, book, IsKept}
use sub_lane.Alerts.Acknowledged.{Reach-IsKept, accept-IsApt}
use sub_lane.Alerts.Covered.{HasKey}
use sub_lane.Alerts.Settled.{IsObserved, observe-IsSettled}

-- The identifiers that are drawn: "x", "xx", and so on.
abbrev ids : ℕ → String
ids zero = "x"
ids (suc n) = String.◌∷◌ "x" (ids n)

ids-distinct : (j k : ℕ) → ids j ≡ ids k → j ≡ k
ids-distinct zero zero h = refl
ids-distinct zero (suc zero) h = cc
ids-distinct zero (suc (suc k)) h = cc
ids-distinct (suc zero) zero h = cc
ids-distinct (suc (suc j)) zero h = cc
ids-distinct (suc j) (suc k) h = ap suc (ids-distinct j k (cc))

ids_blank : (n : ℕ) → ids n ≡ "" → ⊥
ids_blank zero h = cc
ids_blank (suc n) h = cc

ids-named : (n : ℕ) → (ids n == "") ≡ false
ids-named n = ground (arith, eq_iff (ids n) "", ids_blank n)

abbrev notifying : Configuration
notifying = record {
  quota_threshold = 80;
  model_alerts = true;
  tested_at = 0;
  enabled = true;
  endpoint = "sealed";
}

abbrev pool_out : Poll
pool_out = record {
  signals = record { kind = "pool_unavailable"; subject = "3" } ∷ [];
  unknown = [];
  cycles = [];
  now = 1000;
}

abbrev incident : AlertState
incident = record {
  kind = "pool_unavailable";
  subject = "3";
  active = true;
  delivered_active = false;
  event_id = "x";
  changed_at = 1000;
  attempts = 0;
  retry_at = 0;
  delivered_at = 0;
  delivery_failed = false;
  cycle = "";
}

reports_pool : observe ids pool_out 0 [] ≡ (incident ∷ [], 1)
unfolding observe
reports_pool = refl

-- The pool is back: the row is resolved, under a new event.
resolves_pool :
    observe ids (record pool_out { signals = []; now = 1060 }) 1 (incident ∷ [])
    ≡ (record incident { active = false; event_id = "xx"; changed_at = 1060 } ∷ [], 2)
unfolding observe
resolves_pool = refl

-- The third attempt waits for four minutes.
backs_off : (attempt 1000 (record incident { attempts = 2 })).retry_at ≡ 1240
unfolding attempt
backs_off = refl

abbrev checking : Workspace
checking = record {
  config = notifying;
  rows = [];
  next_id = 0;
  raw = notifying;
  pending = [];
  sending = none;
  remaining = 10;
  heard = [];
}

abbrev looked : Workspace
looked = record checking {
  rows = (observe ids pool_out 0 []).0;
  next_id = (observe ids pool_out 0 []).1;
  pending = incident ∷ [];
}

abbrev booked : AlertState
booked = record incident { attempts = 1; retry_at = 1060 }

abbrev calling : Workspace
calling = record looked { rows = booked ∷ []; pending = []; sending = some booked; remaining = 9 }

is_due_now : is_due 10 1000 incident ≡ true
unfolding is_due
is_due_now = refl

listed_rows : (s : AlertState) → In s (incident ∷ []) → In s (observe ids pool_out 0 []).0
unfolding observe
listed_rows s member = member

looked-Reach : Reach ids looked
looked-Reach =
    next (next (start notifying) (begin (record checking { remaining = 0 }) 10 refl (omega arith)))
      (look checking pool_out (incident ∷ []) refl refl refl listed_rows)

calling-Reach : Reach ids calling
unfolding observe attempt
calling-Reach = next looked-Reach (book looked 1000 incident [] refl refl is_due_now refl)

Reach-IsKept_example : IsKept ids calling
Reach-IsKept_example = Reach-IsKept ids ids-distinct calling-Reach

marked : In (mark_delivered 1001 "x" booked) (finish_delivery 1001 "x" calling.rows)
unfolding finish_delivery
marked = inl refl

accept-IsApt_example :
    In (mark_delivered 1001 "x" booked) calling.rows
    ⊎ ((event_of (mark_delivered 1001 "x" booked) ≡ event_of booked)
        × ((mark_delivered 1001 "x" booked).delivered_active ≡ true))
accept-IsApt_example =
    accept-IsApt ids ids-distinct calling 1001 booked (mark_delivered 1001 "x" booked) calling-Reach
      refl marked

observe-IsSettled_example :
    let after = (observe ids pool_out 0 []).0 in
    ((r : AlertState) → In r after → IsObserved pool_out [] r)
    × ((x : Signal) → In x pool_out.signals → HasKey (key_of x.kind x.subject) after)
    × ((s : AlertState) → In s [] → HasKey (key_of s.kind s.subject) after)
    × (observe ids (record pool_out { now = 1060 }) 1 after ≡ (after, 1))
observe-IsSettled_example = observe-IsSettled ids ids-named pool_out 0 [] 1060 1 tt

abbrev hook : Outside
hook = record { valid = λ url. true; sealed = some "sealed again"; commits = true }

abbrev moves : Input
moves = record {
  quota_threshold = pos 90;
  model_alerts = true;
  enabled = true;
  url = "https://hooks.example.test/b";
  clear = false;
}

abbrev moved : Configuration
moved = record notifying { quota_threshold = 90; endpoint = "sealed again" }

abbrev tested : ℕ → Configuration
tested now = record notifying { tested_at = now }

first_test : reserve_test 1000 true true notifying ≡ inr (tested 1000)
unfolding reserve_test
first_test = refl

second_test : reserve_test 1060 true true (tested 1000) ≡ inr (tested 1060)
unfolding reserve_test
second_test = refl
