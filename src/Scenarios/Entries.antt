-- ===== src/Scenarios/Entries.antt =====
-- An allowance whose rules are saved, and whose requests begin and end.
use sub_lane.Base.{
  count, In, lookup, insert, ℕ, ◌≤◌, String, ◌≡◌, refl, ◌⊎◌, inl, true, false, some, [], ◌∷◌, ◌++◌,
  arith, pos, negsuc, string_eq, nat_eq, int_eq,
}
use sub_lane.Failure.{err, ok}
use sub_lane.Allowance.{Share, Config, Window, Revision, entry_mode, effective_windows}
use sub_lane.Allowance.Check.{Ledger}
use sub_lane.Allowance.Normalize.{DraftShare, Draft, reset_clock, refused, normalize}
use sub_lane.Allowance.Fair.{IsFair, normalize-IsFair}
use sub_lane.Allowance.Entries.{
  EntryRow, Entries, Request, opened_row, begin, Completion, finished, finish_entry,
}
use sub_lane.Allowance.Charged.{IsCharged, repeats_end, finish_entry-IsCharged, finish_twice}
use sub_lane.Allowance.Spans.{is_open}
use sub_lane.Allowance.Opened.{begin_within}

abbrev wants : ℕ → ℕ → DraftShare
wants user limit = record { user_id = pos user; limit = pos limit; overrides = [] }

abbrev draft : Draft
draft = record {
  mode = "ratio";
  period = "durations";
  reset_time = "";
  reset_day = pos 0;
  members = wants 8 6000 ∷ wants 7 4000 ∷ [];
  rates = record { model = "codex/gpt"; input = pos 3; cached = pos 1; output = pos 9 } ∷ [];
  ratio_unit = "amount";
  windows = record { seconds = pos 3600; limit = pos 1000 } ∷ [];
  total = pos 0;
}

abbrev holds : ℕ → ℕ → Share
holds user limit = record { user_id = user; limit = limit; overrides = [] }

abbrev rules : Config
rules = record {
  mode = "ratio";
  period = "durations";
  reset_time = "";
  reset_day = 0;
  members = holds 7 4000 ∷ holds 8 6000 ∷ [];
  rates = record { model = "gpt"; input = 3; cached = 1; output = 9 } ∷ [];
  ratio_unit = "amount";
  windows = record { seconds = 3600; limit = 1000 } ∷ [];
  total = 0;
}

saved : normalize draft ≡ ok rules
unfolding normalize
saved = refl

-- A duration that is negative is refused.
backwards :
    normalize (record draft { windows = record { seconds = negsuc 3599; limit = pos 1000 } ∷ [] })
    ≡ err refused
unfolding normalize
backwards = refl

at_noon : reset_clock "12:00" ≡ true
unfolding reset_clock
at_noon = refl

past_midnight : reset_clock "24:00" ≡ false
unfolding reset_clock
past_midnight = refl

normalize-IsFair_example : IsFair rules
normalize-IsFair_example = normalize-IsFair draft rules saved

abbrev revision : Revision
revision = record { id = 3; config = rules; anchor = 1000 }

abbrev queries : Ledger
queries = record {
  group_of_scheme = ok 1;
  may_use = ok true;
  current = ok revision;
  entries = λ user from to. ok [];
  config_of = λ id. ok rules;
  member_used = λ user w. ok 0;
  group_used = λ w. ok 0;
}

abbrev hour : Window
hour = record { kind = "duration"; start = 8200; stop = 11800; seconds = 3600; limit = 1000 }

abbrev asked : String → ℕ → Request
asked id at = record {
  id = id;
  scheme_id = 5;
  user_id = 7;
  group_id = 1;
  account_id = "a";
  model = "gpt";
  started_at = at;
}

abbrev no_calendar : Config → ℕ × ℕ
no_calendar c = (0, 0)

abbrev first : EntryRow
first = opened_row (asked "one" 9000) revision (8200, 11800)

abbrev one_open : Entries
one_open = ("one", first) ∷ []

begins : begin queries (asked "one" 9000) 9000 no_calendar [] ≡ ok one_open
unfolding begin
begins = refl

begins_again :
    begin queries (asked "two" 9001) 9001 no_calendar one_open
    ≡ ok (one_open ++ ("two", opened_row (asked "two" 9001) revision (8200, 11800)) ∷ [])
unfolding begin
begins_again = refl

hour_shown : In hour (effective_windows revision 9001 (no_calendar rules))
unfolding effective_windows
hour_shown = inl refl

begin_within_example :
    count
      (is_open 5 7 (entry_mode rules) hour)
      (one_open ++ ("two", opened_row (asked "two" 9001) revision (8200, 11800)) ∷ [])
    ≤ 4
begin_within_example =
    begin_within queries (asked "two" 9001) 9001 no_calendar revision (holds 7 4000) hour one_open
      (one_open ++ ("two", opened_row (asked "two" 9001) revision (8200, 11800)) ∷ []) begins_again
      refl (inl refl) refl (omega arith) hour_shown refl

first_found : lookup "one" one_open ≡ some first
unfolding lookup
first_found = refl

abbrev spent : Completion
spent = record {
  input = pos 10;
  output = pos 5;
  cached = pos 4;
  known = true;
  dispatched = true;
  rejected = false;
}

abbrev one_ended : Entries
one_ended = ("one", finished first spent 9500 false 1) ∷ []

ends : finish_entry queries.config_of "one" spent 9500 false one_open ≡ ok one_ended
unfolding finish_entry entry_mode insert
ends = refl

finish_entry-IsCharged_example :
    ((one_ended ≡ one_open) × (repeats_end false first spent ≡ true))
    ⊎ IsCharged queries.config_of "one" first spent 9500 false one_open one_ended
finish_entry-IsCharged_example =
    finish_entry-IsCharged queries.config_of "one" first spent 9500 false one_open one_ended
      first_found ends

finish_twice_example :
    finish_entry queries.config_of "one" spent 9999 false one_ended ≡ ok one_ended
finish_twice_example =
    finish_twice queries.config_of "one" first spent 9500 9999 false one_open one_ended first_found
      (λ by_hand. cc) ends
