-- ===== src/Scenarios/Leases.antt =====
-- One account with one slot and one member with one request at once: the service reads the
-- account, the member joins, the request gets its lease and ends.
use sub_lane.Base.{
  keep, count, lookup, insert, erase, ◌+◌, ◌≤◌, ◌≡◌, refl, true, false, none, some, List, [], ◌∷◌,
  string_eq, nat_eq,
}
use sub_lane.Failure.{ok}
use sub_lane.Gateway.State.{default_tuning, Runtime, Account, ModelRuntime, Observation, no_reason}
use sub_lane.Gateway.Admission.{runtime_admission, account_admission}
use sub_lane.Gateway.Service.{
  ModelKey, Service, Limits, take_member_rate, admit_member, model_key_eq,
}
use sub_lane.Gateway.Members.{IsAdmitted, admit_member-IsAdmitted}
use sub_lane.Gateway.Lease.{
  RuntimeRow, load_rows, has_row, drop_gone, is_current, drop_superseded, load_runtime, read_model,
  model_lease, grant, fresh,
}
use sub_lane.Gateway.Balance.{on_account}
use sub_lane.Gateway.Balance.World.{Balanced}
use sub_lane.Gateway.Balance.Runs.{
  Chosen, no_model_runtime, new_service, Reach, Reach-Balanced, lease_within, leased_model, join,
  reload, start, more,
}

abbrev pub one_slot : Runtime
one_slot = record {
  max_concurrency = 1;
  in_flight = 0;
  cooldown_until = 0;
  reason = no_reason;
  failures = 0;
  last_failure_at = 0;
  last_failure_sequence = 0;
  revision = 4;
}

abbrev pub account_rows : List RuntimeRow
account_rows = record { id = "acct"; start = one_slot; lifecycle = 1 } ∷ []

abbrev pub acct : Account
acct = record { id = "acct"; provider = "codex"; enabled = true; status = "active" }

abbrev pub one_at_once : Limits
one_at_once = record { enabled = true; requests_per_minute = 2; max_concurrency = 1 }

abbrev pub waiting : Observation
waiting = record {
  user_id = 7;
  group_id = 1;
  account_id = "";
  model_state = none;
  leased = false;
  member_leased = true;
  sequence = 0;
  revision = 0;
  model_limited = false;
  model_transient = false;
  upstream_status = none;
}

abbrev began : Service
began = new_service default_tuning

abbrev ready : Service
ready = record began { health = ("acct", one_slot) ∷ [] }

abbrev joined : Service
joined = record ready { member_active = (7, 1) ∷ []; rates = (7, (60, 1)) ∷ [] }

abbrev gpt : ModelKey
gpt = record { account = "acct"; model = "gpt" }

abbrev pub gpt_row : ModelRuntime
gpt_row = record no_model_runtime { lifecycle = 1; runtime_revision = 4 }

loads : Reach default_tuning (record { service = ready; requests = [] })
unfolding load_runtime load_rows drop_gone drop_superseded has_row is_current keep lookup insert
    erase
loads =
    more (record { service = began; requests = [] }) (record { service = ready; requests = [] })
      start (reload began account_rows [])

joins : admit_member ready (some one_at_once) 7 90 ≡ ok joined
unfolding admit_member take_member_rate lookup insert
joins = refl

run : Reach default_tuning (record { service = joined; requests = waiting ∷ [] })
run =
    more (record { service = ready; requests = [] })
      (record { service = joined; requests = waiting ∷ [] }) loads
      (join ready joined (some one_at_once) 90 waiting [] joins refl refl refl)

admits : account_admission joined.health 90000000000 acct ≡ none
unfolding account_admission runtime_admission lookup
admits = refl

chosen : Chosen joined gpt (some (fresh gpt_row))
unfolding model_lease read_model lookup
chosen = leased_model gpt_row (fresh gpt_row) refl

knows : lookup "acct" joined.health ≡ some one_slot
unfolding lookup
knows = refl

Reach-Balanced_example : Balanced joined (waiting ∷ [])
Reach-Balanced_example =
    Reach-Balanced default_tuning (record { service = joined; requests = waiting ∷ [] }) run

lease_within_example :
    let (u, o) =
      grant joined one_slot gpt (some (fresh gpt_row)) (record waiting { account_id = "acct" }) in
    (count (on_account "acct") (o ∷ []) ≡ count (on_account "acct") [] + 1)
    × (count (on_account "acct") (o ∷ []) ≤ 1)
lease_within_example =
    lease_within default_tuning joined acct one_slot 90000000000 gpt (some (fresh gpt_row)) waiting
      [] [] run admits knows chosen refl refl

admit_member-IsAdmitted_example : IsAdmitted ready joined one_at_once 7 90
admit_member-IsAdmitted_example = admit_member-IsAdmitted ready joined one_at_once 7 90 joins
