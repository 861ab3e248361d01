-- ===== src/Gateway/Retry/Ends.antt =====
-- The loop of `executeWithRetry` ends, within its policy: internal/gateway/retry.go.
use sub_lane.Base.{
  ℕ, zero, suc, ◌+◌, ◌*◌, ◌^◌, ◌≤◌, ◌<◌, min, ◌≡◌, refl, sym, subst, inl, inr, not, ◌||◌, Option,
  none, some, [], ◌∷◌, arith, leb, Bool-cases, Option-cases, over,
}
use sub_lane.Failure.{Failure, Result-cases, ok}
use sub_lane.Gateway.State.{RetryAfter}
use sub_lane.Gateway.Classify.{temporary_status}
use sub_lane.Gateway.Retry.{
  Reply, Upstream, Patience, Run, five_seconds, pause, wait_after, after_wait, one_call,
  attempt_from, execute_with_retry, IsReplayed, IsLast, IsPatient, failed, no_stream, streamed,
  answered, stopped,
}

pause-le :
    (now delay : ℕ) (header : Option RetryAfter) (wait : ℕ)
    → delay ≤ five_seconds
    → pause now delay header ≡ some wait
    → wait ≤ five_seconds
unfolding pause
pause-le now delay none wait small h = ground arith
pause-le now delay (some header) wait small h = ground arith

wait_after-le :
    (p : Patience) (now attempt : ℕ) (r : Reply) (wait : ℕ)
    → wait_after p now attempt r ≡ some wait
    → (attempt < p.retries) × (wait ≤ five_seconds)
unfolding wait_after
wait_after-le p now attempt (failed e) wait h = absurd (ground arith)
wait_after-le p now attempt no_stream wait h = absurd (ground arith)
wait_after-le p now attempt (streamed status header) wait h =
    elim (Bool-cases (not (temporary_status status) || leb p.retries attempt)) [
      | inl kept ↦ absurd (ground (arith, kept, h))
      | inr replayed ↦ (
        ground (arith, replayed),
        pause-le now (min five_seconds (p.first_delay * 2 ^ attempt)) header wait (omega arith)
            (rw replayed at h),
      )
    ]

zero_shift : (n : ℕ) → n ≡ n + 0
zero_shift n = omega arith

shift : (n k : ℕ) → suc n + k ≡ n + suc k
shift n k = omega arith

answer_injective : {r s : Reply} → answered r ≡ answered s → r ≡ s
answer_injective h = ground arith

module _ (p : Patience) (up : Upstream) where
  ended-IsPatient :
      (start : ℕ) (e : Failure)
      → start ≤ p.retries
      → IsPatient p up start (record { executions = 0; waits = []; answer = stopped e })
  ended-IsPatient start e h = record {
    few_calls = omega arith;
    few_waits = omega arith;
    short = tt;
    rechecked = λ k below. absurd (omega arith);
    final = λ r returned. absurd (ground (arith, returned));
  }

  returned-IsPatient :
      (start : ℕ)
      → start ≤ p.retries
      → wait_after p (up.clock start) start (up.execute start) ≡ none
      → IsPatient p up start (one_call [] (answered (up.execute start)))
  returned-IsPatient start h last = record {
    few_calls = omega arith;
    few_waits = omega arith;
    short = tt;
    rechecked = λ k below. absurd (omega arith);
    final = λ r returned. (
      0,
      refl,
      subst (λ n. IsLast p up n r) (zero_shift start)
          (
            sym (answer_injective returned),
            subst (λ x. wait_after p (up.clock start) start x ≡ none) (answer_injective returned)
                last,
          ),
    );
  }

  stopped-IsPatient :
      (start wait : ℕ) (e : Failure)
      → wait_after p (up.clock start) start (up.execute start) ≡ some wait
      → IsPatient p up start (one_call (wait ∷ []) (stopped e))
  stopped-IsPatient start wait e waits =
      let (left, small) = wait_after-le p (up.clock start) start (up.execute start) wait waits in
      record {
        few_calls = omega arith;
        few_waits = omega arith;
        short = (small, tt);
        rechecked = λ k below. absurd (omega arith);
        final = λ r returned. absurd (ground (arith, returned));
      }

  IsReplayed-later :
      (start executions : ℕ)
      → IsReplayed p up start
      → ((k : ℕ) → k + 1 < executions → IsReplayed p up (suc start + k))
      → (k : ℕ) → k + 1 < executions + 1
      → IsReplayed p up (start + k)
  IsReplayed-later start executions own later zero below =
      subst (IsReplayed p up) (zero_shift start) own
  IsReplayed-later start executions own later (suc k) below =
      subst (IsReplayed p up) (shift start k) (later k (omega arith))

  after_wait-IsPatient :
      (start wait : ℕ) (run : Run)
      → wait_after p (up.clock start) start (up.execute start) ≡ some wait
      → up.recheck start ≡ ok tt
      → up.prepare start ≡ ok tt
      → IsPatient p up (suc start) run
      → IsPatient p up start (after_wait wait run)
  after_wait-IsPatient start wait run waits checked prepared later =
      let (left, small) = wait_after-le p (up.clock start) start (up.execute start) wait waits in
      record {
        few_calls = omega (arith, later.few_calls);
        few_waits = omega (arith, later.few_waits);
        short = (small, later.short);
        rechecked =
            IsReplayed-later start run.executions (checked, prepared, (wait, waits))
              later.rechecked;
        final = λ r returned.
            let (k, calls, last) = later.final r returned in
            (suc k, omega arith, subst (λ n. IsLast p up n r) (shift start k) last);
      }

  -- With fuel for the attempts that are left the loop ends.
  attempt_from-IsPatient :
      (fuel start : ℕ)
      → start ≤ p.retries
      → p.retries < start + fuel
      → (run : Run) × (attempt_from p up fuel start ≡ some run) × IsPatient p up start run
  unfolding attempt_from
  attempt_from-IsPatient zero start h enough = absurd (omega arith)
  attempt_from-IsPatient (suc fuel) start h enough = elim (Option-cases (up.ended start)) [
    | inr (e, over) ↦ (_, ground (arith, over), ended-IsPatient start e h)
    | inl on ↦ elim (Option-cases (wait_after p (up.clock start) start (up.execute start))) [
      | inl last ↦ (_, ground (arith, on, last), returned-IsPatient start h last)
      | inr (wait, waits) ↦ elim (Option-cases (up.interrupted start)) [
        | inr (e, cut) ↦ (_, ground (arith, on, waits, cut), stopped-IsPatient start wait e waits)
        | inl slept ↦ elim (Result-cases (up.recheck start)) [
          | inl (e, refused) ↦
              (_, ground (arith, on, waits, slept, refused), stopped-IsPatient start wait e waits)
          | inr (u, checked) ↦ elim (Result-cases (up.prepare start)) [
            | inl (e, unprepared) ↦ (
              _,
              ground (arith, on, waits, slept, checked, unprepared),
              stopped-IsPatient start wait e waits,
            )
            | inr (v, prepared) ↦
                let (left, small) =
                  wait_after-le p (up.clock start) start (up.execute start) wait waits in
                let (run, runs, patient) =
                  attempt_from-IsPatient fuel (suc start) (omega arith) (omega arith) in
                (
                  after_wait wait run,
                  ground (arith, on, waits, slept, checked, prepared, runs),
                  after_wait-IsPatient start wait run waits checked prepared patient,
                )
          ]
        ]
      ]
    ]
  ]

  -- The loop always ends with an answer: it calls `execute` at most once more than the policy has
  -- retries, each wait is at most 5 seconds, before each further call the reply was temporary,
  -- the request was admitted again and the credential was prepared, and a reply that is returned
  -- is that of the last call, which no wait follows.
  pub execute_with_retry-IsPatient :
      (run : Run) × (execute_with_retry p up ≡ some run) × IsPatient p up 0 run
  unfolding execute_with_retry
  execute_with_retry-IsPatient =
      attempt_from-IsPatient (p.retries + 1) 0 (omega arith) (omega arith)
