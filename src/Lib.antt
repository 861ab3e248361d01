-- ===== src/Lib.antt =====
-- SubLane: the admission of requests to the accounts of a pool.
--
-- SubLane is a gateway that shares the provider accounts of a team. A request names a member, a
-- pool and maybe a model. Under one lock the gateway admits the member, selects an account of the
-- pool, and counts leases on the member, the account and the model of the account; when the
-- request ends, it settles what the request showed about the account and gives the leases back.
--
-- The parts, and the files that model them (paths from the repository's root):
--
--   Failure                  the error values of internal/gateway, internal/accounts and the
--                            packages they call, with `errors.Is` as a walk of the chain
--   Gateway/Classify         `classify`, `observation.fail` (internal/gateway/history.go) and
--                            `statusOutcome` (exchange.go): an error as an outcome, a code and a
--                            penalty
--   Gateway/Route            the explanation of a decision (route.go)
--   Groups                   pool policy and routing preference (internal/groups/policy.go,
--                            resources.go), with Groups/Laws and Groups/Gates
--   Gateway/Quota            quota snapshots (quota.go, usage.go); Quota/Percent has the
--                            floating-point percentages as signed fractions m / 2^k
--   Gateway/Catalog          what routing asks of a model catalog (catalog.go)
--   Gateway/State            the records of runtime state, `retryDelay` (runtime.go)
--   Gateway/Admission        `accountAdmission` and `modelRuntimeAdmission`
--   Gateway/Health           the account's part of `finish` (history.go)
--   Gateway/ModelRuntime     the model's part, `finishModelRuntime` (model_runtime.go)
--   Gateway/Service          the state under the lock and `admitMember` (members.go)
--   Gateway/Lease            the taking and giving back of leases: the end of `leaseAccount`
--                            (queue.go), `finish`, `loadRuntimeRows`, `Resume`, `SetConcurrency`
--   Gateway/Balance          the lock's operations as a step relation on worlds, a world being the
--                            service with its open requests
--   Gateway/Affinity         the table of bindings and `sessionBinding` (affinity.go)
--   Gateway/Selection        `selectAllocationAccount` (selection.go): Candidates is its loop,
--                            Rotation its cursor and weights, Bound the branch of a binding,
--                            Choose the whole; Survey, Turns, Sound, Stays, Entitled have proofs
--   Gateway/Retry            `executeWithRetry` (retry.go); Retry/Ends has its proofs
--   Gateway/Queue            the counts and the channels of waiting requests: `leaseAccount` and
--                            `notifyCapacity` (queue.go); Channels, Waiters and Heard have proofs
--   Gateway/Availability     `modelAvailability` (availability.go), what the console shows of a
--                            model; Limits, Reasons and Agrees relate it to the selection, Summed
--                            to its rows
--   Gateway/Recheck          `recheckMember` (queue.go) and `recheckAttempt` (retry.go); Load and
--                            Readmitted relate them to the tests of the selection
--   Allowance                rules, windows and costs of an allowance (internal/allocations:
--                            allocations.go, calendar.go); Allowance/Check has the accounting
--                            and `Check` (accounting.go, runtime.go), Allowance/Normalize the
--                            rules of a request's body with `normalize`, Allowance/Entries the
--                            table of entries with `Begin`, `Finish`, `Settle` and `Prune`; Admitted,
--                            Fair, Charged, Spans and Opened have proofs
--   Allowance/Calendar       `wallTime`, `resetOn` and `Window` (internal/allocations/calendar.go);
--                            WallTime and Months have proofs
--   Allowance/Revisions      the revisions of a scheme, with the SQL over them; Allowance/Changes has
--                            `ChangeSchedule` (schedule.go) with its checks (changes.go), Steps and
--                            Done have proofs; Allowance/Funding has `checkFunding`, with
--                            proofs in Allowance/Funded, and
--                            Allowance/Membership `applyMembers` and `UpdateMembers` (changes.go),
--                            Allowance/Preview `Preview` (schedule.go)
--   Timezone                 `DayStart` (internal/timezone/calendar.go) and `civilStart`
--                            (internal/resets/schedule.go); Timezone/Starts has proofs
--   Alerts                   the alerts of a workspace: `observe`, the deliveries of
--                            `checkWorkspace`, `Update` (internal/alerts/alerts.go) and `Test`
--                            (test.go), with the SQL of alert_states; Deliveries is the loop and a
--                            poll as a step relation, Saved, Observed, Marked, Acknowledged,
--                            Merged, Incidents, Entered, Covered, Doubted, Passed, Settled and
--                            Settings have proofs
--   Auth                     the second factor (internal/auth/security.go): `factorAttempt`,
--                            `totpStep`, `verifyFactor`; Auth/Budget and Auth/Replay have proofs
--   Scenarios                the program at concrete inputs
--
-- Numbers are natural numbers: identifiers, counters and Unix times are never negative in the
-- database, and where the code subtracts it has compared before or clamps at 0. Instants are in
-- nanoseconds, and `unix` cuts them to seconds. Counters of requests stay far below 2^63. A pointer
-- to a model's state is a number into a table of cells, so that a request keeps its state when
-- the map has moved on. The numbers of a request's body are integers until `normalize` or `Finish`
-- has looked at them. Loops are structural recursion on the list that the code ranges over; three
-- have fuel: `executeWithRetry` one more than the policy's retries, `bisect` of Timezone the length
-- of its interval, and `walk` of Allowance/Calendar the minutes of the day that are left, which
-- suffices for each. Reads of the database are arguments (`Scene`), each a value or an error; the
-- SQL of the rate table, of the bindings, of an allowance's entries and revisions, of alert states and of
-- recovery codes is written out. A time zone is its first offset and its changes; the months are a
-- table, and the first guess of `time.Date` is an argument. SHA-256 digests, random digests and the random
-- identifiers of alerts, `json.Unmarshal` of snapshots, `ValidateDestination`, the sender of alerts,
-- the vault, the codes of an authenticator and the other queries of the ledger are arguments; a
-- selection takes the answer of `allocations.Check` as one.
--
-- Not modelled: the timers and rounds of a waiting request, the streaming exchange, caches of usage
-- and catalogs, the observers that report signals of alerts, changes of an allowance's rules,
-- credentials, passwords, sessions and passkeys, HTTP, and the console.
pub mod Base
pub mod Failure
pub mod Groups
pub mod Gateway
pub mod Timezone
pub mod Alerts
pub mod Allowance
pub mod Auth
pub mod Scenarios
