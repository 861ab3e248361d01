-- ===== src/Scenarios/Outcomes.antt =====
-- Requests that end, at concrete inputs.
use sub_lane.Base.{ℕ, ◌+◌, ◌≤◌, ◌<◌, min, max, ◌≡◌, refl, ◌⊎◌, true, arith}
use sub_lane.Gateway.Classify.{Verdict, success, error_outcome, none_due, rate_limited}
use sub_lane.Gateway.State.{unix, default_tuning, Runtime, ModelRuntime, Observation, unreadable}
use sub_lane.Gateway.Health.{settle_runtime, settle_runtime_late}
use sub_lane.Gateway.ModelRuntime.{settle_model, settle_model_transient, saved}
use sub_lane.Gateway.Balance.Runs.{no_model_runtime}
use sub_lane.Scenarios.Leases.{one_slot, waiting}

-- An account that a failure closed until the second 200, at a request admitted before it.
abbrev closed : Runtime
closed = record one_slot {
  in_flight = 1;
  cooldown_until = 200;
  failures = 2;
  last_failure_sequence = 9;
}

abbrev early : Observation
early = record waiting { account_id = "acct"; leased = true; sequence = 8; revision = 4 }

abbrev went_well : Verdict
went_well = record { outcome = success; error_code = ""; penalty = none_due }

abbrev was_limited : Verdict
was_limited = record {
  outcome = error_outcome;
  error_code = "rate_limited";
  penalty = rate_limited;
}

abbrev at_100 : ℕ
at_100 = 100000000000

settle_runtime_late_example :
    let after = (settle_runtime default_tuning at_100 early went_well unreadable 9 closed).0 in
    (200 ≤ after.cooldown_until) × (min 16 2 ≤ after.failures) × (8 ≤ after.last_failure_sequence)
settle_runtime_late_example =
    settle_runtime_late default_tuning at_100 early went_well unreadable 9 closed (omega arith)
      (omega arith)

abbrev closed_model : ModelRuntime
closed_model = record no_model_runtime { cooldown_until = 200; failures = 2; in_flight = 1 }

abbrev met_limit : Observation
met_limit = record early { model_limited = true }

abbrev broke : Observation
broke = record early { model_transient = true }

settle_model_transient_example :
    let after =
      (settle_model default_tuning at_100 broke error_outcome unreadable
        (saved 4)
        9
        closed_model).0 in
    ((after.failures < 3) × (after.cooldown_until ≡ closed_model.cooldown_until))
    ⊎ ((3 ≤ after.failures)
        × (unix at_100 < after.cooldown_until)
        × (after.cooldown_until ≤ max closed_model.cooldown_until (unix at_100 + 300)))
settle_model_transient_example =
    settle_model_transient default_tuning at_100 broke error_outcome unreadable 4 9 closed_model
      refl refl
