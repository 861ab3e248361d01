-- ===== src/Scenarios/Schedules.antt =====
-- A scheme with a revision to come, cancelled and put off.
use sub_lane.Base.{◌≡◌, refl, false, [], ◌∷◌, arith, string_eq, nat_eq, keep}
use sub_lane.Failure.{ok}
use sub_lane.Allowance.{Config}
use sub_lane.Allowance.Revisions.{Saved, Revisions}
use sub_lane.Allowance.Changes.{
  whole, Conditions, Readings, read_scheme, check_time, change_schedule,
}
use sub_lane.Allowance.Preview.{preview, IsSteady, preview-check_time}
use sub_lane.Allowance.Changes.Done.{
  IsCancelled, IsRescheduled, IsNumbered, change_schedule-IsCancelled,
  change_schedule-IsRescheduled,
}

abbrev hourly : Config
hourly = record {
  mode = "tokens";
  period = "durations";
  reset_time = "";
  reset_day = 0;
  members = [];
  rates = [];
  ratio_unit = "";
  windows = record { seconds = 3600; limit = 1000 } ∷ [];
  total = 0;
}

abbrev in_force : Saved
in_force = record { effective_at = 10; revision = record { id = 1; config = hourly; anchor = 10 } }

abbrev to_come : Saved
to_come = record { effective_at = 100; revision = record { id = 2; config = hourly; anchor = 10 } }

abbrev table : Revisions
table = record { rows = to_come ∷ in_force ∷ []; last_id = 2 }

abbrev at_50 : Readings
at_50 = record {
  now = λ k. 50;
  closing = λ c now. 0;
  captured = λ id. false;
  opened = ok tt;
  inserted = ok tt;
  deleted = ok tt;
  found = ok tt;
  audited = ok tt;
  read_back = ok tt;
  committed = ok tt;
}

abbrev named : Conditions
named = record {
  expected_current = whole 1;
  expected_next = whole 2;
  expected_effective_at = whole 3610;
}

abbrev cancelled : Revisions
cancelled = record { rows = in_force ∷ []; last_id = 2 }

abbrev put_off : Revisions
put_off = record {
  rows =
      record { effective_at = 3610; revision = record { id = 3; config = hourly; anchor = 10 } }
      ∷ in_force
      ∷ [];
  last_id = 3;
}

cancels : change_schedule at_50 "cancel" named table ≡ ok (cancelled, read_scheme 50 cancelled)
unfolding change_schedule keep
cancels = refl

reschedules : change_schedule at_50 "reschedule" named table ≡ ok (put_off, read_scheme 50 put_off)
unfolding change_schedule keep
reschedules = refl

change_schedule-IsCancelled_example : IsCancelled at_50 named table cancelled
change_schedule-IsCancelled_example =
    change_schedule-IsCancelled at_50 named table cancelled (read_scheme 50 cancelled) cancels

numbered : IsNumbered table
numbered r m = ground (arith, m)

change_schedule-IsRescheduled_example : IsRescheduled at_50 named table put_off
change_schedule-IsRescheduled_example =
    change_schedule-IsRescheduled at_50 named table put_off (read_scheme 50 put_off) numbered
      reschedules

previews : preview (λ c now. 0) (read_scheme 50 table) "reschedule" 50 ≡ ok (3610, 10)
unfolding preview read_scheme
previews = refl

never_ends : IsSteady (λ c now. 0)
never_ends c now later ordered until = absurd (omega (arith, until))

-- Ten seconds after the preview.
preview-check_time_example :
    check_time (λ c now. 0) named (read_scheme 50 table) "reschedule" 60 ≡ ok 3610
unfolding read_scheme
preview-check_time_example =
    preview-check_time (λ c now. 0) (read_scheme 50 table) "reschedule" named 50 3610 10 60
      never_ends previews refl (omega arith) refl (λ h. omega arith) (λ h. omega arith)
