-- ===== src/Scenarios/Retries.antt =====
-- A request that the provider turns away twice, and a request that is admitted again.
use sub_lane.Base.{
  insert, ℕ, zero, suc, ◌≡◌, refl, true, false, none, some, [], ◌∷◌, string_eq, nat_eq, int_eq,
}
use sub_lane.Failure.{group_unavailable, plain, err, ok}
use sub_lane.Gateway.State.{seconds}
use sub_lane.Gateway.Lease.{has_row}
use sub_lane.Gateway.Retry.{
  Reply, Upstream, Patience, Run, wait_after, execute_with_retry, IsPatient, streamed, answered,
}
use sub_lane.Gateway.Retry.Ends.{execute_with_retry-IsPatient}
use sub_lane.Gateway.Recheck.{Attempt, Snapshot, recheck_attempt}
use sub_lane.Gateway.Recheck.Readmitted.{IsReadmitted, recheck_attempt-IsReadmitted}
use sub_lane.Scenarios.Selecting.{acct_row, scene, router, at_100}

abbrev default_patience : Patience
default_patience = record { retries = 2; first_delay = 500000000 }

-- 503, then 429, which is not temporary.
abbrev overloaded : ℕ → Reply
overloaded zero = streamed 503 none
overloaded (suc n) = streamed 429 none

abbrev once_busy : Upstream
once_busy = record {
  ended = λ n. none;
  execute = overloaded;
  clock = λ n. 0;
  interrupted = λ n. none;
  recheck = λ n. ok tt;
  prepare = λ n. ok tt;
}

runs_twice :
    execute_with_retry default_patience once_busy
    ≡ some
        (record { executions = 2; waits = 500000000 ∷ []; answer = answered (streamed 429 none) })
unfolding execute_with_retry
runs_twice = refl

-- A header that asks for more than five seconds ends the loop.
asked_to_wait : wait_after default_patience 0 0 (streamed 503 (some (seconds 6))) ≡ none
unfolding wait_after
asked_to_wait = refl

execute_with_retry-IsPatient_example :
    (run : Run) × (execute_with_retry default_patience once_busy ≡ some run)
    × IsPatient default_patience once_busy 0 run
execute_with_retry-IsPatient_example = execute_with_retry-IsPatient default_patience once_busy

abbrev clean_snapshot : Snapshot
clean_snapshot = record {
  content = none;
  begun = none;
  limits = ok (some (record { enabled = true; requests_per_minute = 0; max_concurrency = 2 }));
  key = ok (some (record { enabled = true; revoked = false; expires_at = none; group_id = 1 }));
  scheme = ok 0;
  catalog_read = none;
  account_read = none;
  usage_read = none;
  row = acct_row;
}

abbrev again : Attempt
again = record {
  user_id = 7;
  key_id = 4;
  group_id = 1;
  scheme_id = 0;
  provider = "codex";
  account_id = "acct";
  model = "gpt";
}

readmits : (recheck_attempt scene clean_snapshot again router.service at_100).1 ≡ ok tt
unfolding recheck_attempt insert has_row
readmits = refl

-- A key that has expired since is refused.
expired :
    (recheck_attempt scene
      (record clean_snapshot {
        key = ok (
            some (record { enabled = true; revoked = false; expires_at = some 100; group_id = 1 }));
      })
      again
      router.service
      at_100).1
    ≡ err (plain group_unavailable)
unfolding recheck_attempt insert has_row
expired = refl

recheck_attempt-IsReadmitted_example : IsReadmitted scene clean_snapshot again router.service at_100
recheck_attempt-IsReadmitted_example =
    recheck_attempt-IsReadmitted scene clean_snapshot again router.service at_100 readmits
