-- ===== src/Gateway/Queue.antt =====
-- The requests that wait for an account: the counts and the channels that `leaseAccount` and
-- `notifyCapacity` of internal/gateway/queue.go keep for each pool.
pub mod Channels
pub mod Waiters
pub mod Heard
use sub_lane.Base.{
  lookup, insert, erase, Map, ℕ, ◌+◌, ◌-◌, Bool, true, false, none, some, List, [], ◌∷◌, leb,
  if◌then◌else◌, ◌==◌, string_eq, nat_eq, int_eq,
}
use sub_lane.Failure.{Result, ◌>>=◌, account_queue_full, plain, err, ok}
use sub_lane.Gateway.Service.{active, model_key_eq}

-- `waiting` and `capacityChanged`; a channel holds one signal or none.
pub record Queue : Type 0 where
  pub waiting : Map ℕ ℕ
  pub signals : Map ℕ Bool

-- The first round of a request that finds every account busy: it joins the queue of its pool, if
-- there is room.
unfoldable pub join_queue : ℕ → ℕ → Queue → Result Queue
unfolding lookup insert
join_queue limit group q =
    if leb limit (active q.waiting group)
    then err (plain account_queue_full)
    else ok (record q { waiting = insert group (active q.waiting group + 1) q.waiting })

-- Before each wait: the pool's channel, made if there is none.
unfoldable pub ready_channel : ℕ → Queue → Queue
unfolding lookup insert
ready_channel group q = elim (lookup group q.signals) [
  | none ↦ record q { signals = insert group false q.signals }
  | some signal ↦ q
]

unfoldable pub wait_first : ℕ → ℕ → Queue → Result Queue
unfolding join_queue ready_channel
wait_first limit group q = join_queue limit group q >>= λ joined. ok (ready_channel group joined)

-- The deferred function of a request that has waited: the last one of its pool drops the pool's
-- count and channel.
unfoldable pub leave_queue : ℕ → Queue → Queue
unfolding lookup insert erase
leave_queue group q =
    let left = active q.waiting group - 1 in
    if left == 0
    then record q {
      waiting = erase group (insert group left q.waiting);
      signals = erase group q.signals;
    }
    else record q { waiting = insert group left q.waiting }

-- A receive from the pool's channel.
unfoldable pub take_signal : ℕ → Queue → Queue
unfolding lookup insert
take_signal group q = elim (lookup group q.signals) [
  | none ↦ q
  | some signal ↦ record q { signals = insert group false q.signals }
]

-- A send that does not block, to a channel that is there.
unfoldable pub send_signal : ℕ → Queue → Queue
unfolding lookup insert
send_signal group q = elim (lookup group q.signals) [
  | none ↦ q
  | some signal ↦ record q { signals = insert group true q.signals }
]

unfoldable pub signal_all : List ℕ → Queue → Queue
unfolding send_signal
signal_all [] q = q
signal_all (g ∷ gs) q = signal_all gs (send_signal g q)

-- The keys of `waiting`.
unfoldable pub pools : Map ℕ ℕ → List ℕ
pools [] = []
pools ((group, n) ∷ rest) = group ∷ pools rest

-- notifyCapacity, with what ListResourceGroups returns for the account.
unfoldable pub notify_capacity : Result (List ℕ) → Queue → Queue
unfolding signal_all pools
notify_capacity found q = elim q.waiting [
  | [] ↦ q
  | entry ∷ rest ↦ elim found [
    | err e ↦ signal_all (pools q.waiting) q
    | ok groups ↦ signal_all groups q
  ]
]
