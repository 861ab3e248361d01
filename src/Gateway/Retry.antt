-- ===== src/Gateway/Retry.antt =====
-- The replay of requests that a provider turned away for a moment: `executeWithRetry` of
-- internal/gateway/retry.go. Durations are in nanoseconds.
pub mod Ends
use mathlib.Core.Option
use sub_lane.Base.{
  length, ℕ, zero, suc, ◌+◌, ◌*◌, ◌^◌, ◌≤◌, ◌<◌, min, max, ◌≡◌, not, ◌||◌, Option, none, some, List,
  [], ◌∷◌, map, ltb, leb, if◌then◌else◌,
}
use sub_lane.Failure.{Failure, Result, ◌>>◌, err, ok}
use sub_lane.Gateway.Classify.{temporary_status}
use sub_lane.Gateway.State.{RetryAfter, retry_delay}

-- What `execute` returns: an error, a nil stream, or a stream with its status and the header
-- Retry-After, if it has one.
pub data Reply : Type 0 where
  failed : Failure → Reply
  no_stream : Reply
  streamed : ℕ → Option RetryAfter → Reply

-- What the loop meets at each attempt: whether the context has ended at its head and in its wait,
-- the upstream's reply, the clock, and what `recheckAttempt` and `Prepare` return after the wait.
pub record Upstream : Type 0 where
  pub ended : ℕ → Option Failure
  pub execute : ℕ → Reply
  pub clock : ℕ → ℕ
  pub interrupted : ℕ → Option Failure
  pub recheck : ℕ → Result (Unit {0})
  pub prepare : ℕ → Result (Unit {0})

-- `Retries` and `RetryDelay` of Policy.
pub record Patience : Type 0 where
  pub retries : ℕ
  pub first_delay : ℕ

-- What the caller gets: the last reply, or the error that ended the loop.
pub data Answer : Type 0 where
  answered : Reply → Answer
  stopped : Failure → Answer

-- The answer, with the number of calls of `execute` and the waits that were begun.
pub record Run : Type 0 where
  pub executions : ℕ
  pub waits : List ℕ
  pub answer : Answer

abbrev pub five_seconds : ℕ
five_seconds = 5000000000

-- The wait before the next attempt, or none if the provider asks for one that is too long.
unfoldable pub pause : ℕ → ℕ → Option RetryAfter → Option ℕ
unfolding retry_delay
pause now delay none = some delay
pause now delay (some header) =
    let wait = retry_delay header now (some delay) * 1000000000 in
    if ltb five_seconds wait then none else some (max delay wait)

-- The wait after the attempt's reply, or none if the reply is returned. The shift does not
-- overflow: `Validate` admits 3 retries and delays of 5 seconds.
unfoldable pub wait_after : Patience → ℕ → ℕ → Reply → Option ℕ
unfolding temporary_status pause
wait_after p now attempt (failed e) = none
wait_after p now attempt no_stream = none
wait_after p now attempt (streamed status header) =
    if not (temporary_status status) || leb p.retries attempt
    then none
    else pause now (min five_seconds (p.first_delay * 2 ^ attempt)) header

abbrev pub after_wait : ℕ → Run → Run
after_wait wait run = record run { executions = run.executions + 1; waits = wait ∷ run.waits }

abbrev pub one_call : List ℕ → Answer → Run
one_call waits answer = record { executions = 1; waits = waits; answer = answer }

-- The loop, with fuel; `none` means that the fuel ran out.
unfoldable pub attempt_from : Patience → Upstream → ℕ → ℕ → Option Run
unfolding wait_after
attempt_from p up zero attempt = none
attempt_from p up (suc fuel) attempt = elim (up.ended attempt) [
  | some e ↦ some (record { executions = 0; waits = []; answer = stopped e })
  | none ↦ elim (wait_after p (up.clock attempt) attempt (up.execute attempt)) [
    | none ↦ some (one_call [] (answered (up.execute attempt)))
    | some wait ↦ elim (up.interrupted attempt) [
      | some e ↦ some (one_call (wait ∷ []) (stopped e))
      | none ↦ elim (up.recheck attempt >> up.prepare attempt) [
        | err e ↦ some (one_call (wait ∷ []) (stopped e))
        | ok _ ↦ Option.map (after_wait wait) (attempt_from p up fuel (suc attempt))
      ]
    ]
  ]
]

-- One round for each attempt.
unfoldable pub execute_with_retry : Patience → Upstream → Option Run
unfolding attempt_from
execute_with_retry p up = attempt_from p up (p.retries + 1) 0

abbrev pub Short : List ℕ → Type 0
Short [] = Unit
Short (wait ∷ waits) = (wait ≤ five_seconds) × Short waits

-- The attempt's reply was temporary, and the request was admitted again with a credential.
abbrev pub IsReplayed : Patience → Upstream → ℕ → Type 0
IsReplayed p up n =
    (up.recheck n ≡ ok tt)
    × (up.prepare n ≡ ok tt)
    × ((wait : ℕ) × (wait_after p (up.clock n) n (up.execute n) ≡ some wait))

-- The reply is the attempt's, and no wait follows it.
abbrev pub IsLast : Patience → Upstream → ℕ → Reply → Type 0
IsLast p up n r = (r ≡ up.execute n) × (wait_after p (up.clock n) n r ≡ none)

-- What holds of a run that begins with an attempt: the calls and the waits that the policy
-- admits, each wait at most 5 seconds; before each further call the reply was temporary and the
-- request was admitted again with a fresh credential; and a reply that is returned is the last
-- one, after which the loop does not wait.
pub record IsPatient (p : Patience) (up : Upstream) (start : ℕ) (run : Run) : Type 0 where
  pub few_calls : run.executions + start ≤ p.retries + 1
  pub few_waits : length run.waits + start ≤ p.retries
  pub short : Short run.waits
  pub rechecked : (k : ℕ) → k + 1 < run.executions → IsReplayed p up (start + k)
  pub final :
      (r : Reply)
      → run.answer ≡ answered r
      → (k : ℕ) × (run.executions ≡ k + 1) × IsLast p up (start + k) r
