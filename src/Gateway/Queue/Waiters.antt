-- ===== src/Gateway/Queue/Waiters.antt =====
-- The counts and the channels of the queue agree with the requests that wait:
-- internal/gateway/queue.go.
use sub_lane.Base.{
  count, In, lookup, ℕ, suc, ◌+◌, ◌-◌, ◌≤◌, ◌≡◌, refl, sym, ◌∙◌, inl, inr, Bool, true, false, not,
  ◌&&◌, ◌||◌, List, [], ◌∷◌, ◌++◌, arith, ltb, leb, if◌then◌else◌, nat_beq_iff, ◌==◌, string_eq,
  nat_eq, int_eq,
}
use sub_lane.Failure.{Result, ok}
use sub_lane.Gateway.Service.{active, model_key_eq}
use sub_lane.Gateway.Queue.{
  Queue, ready_channel, wait_first, leave_queue, take_signal, notify_capacity,
}
use sub_lane.Gateway.Queue.Channels.{
  has_channel, SameChannels, take_signal-channels, notify-channels, ready_channel-channel,
  join_queue-cases, wait_first-counts, leave_queue-counts,
}

-- The queue with the requests that wait, each with its pool.
pub record Waiting : Type 0 where
  pub queue : Queue
  pub waiters : List (ℕ × ℕ)

abbrev pub in_pool : ℕ → ℕ × ℕ → Bool
in_pool g waiter = waiter.1 == g

count-append :
    (p : ℕ × ℕ → Bool) (xs ys : List (ℕ × ℕ)) → count p (xs ++ ys) ≡ count p xs + count p ys
unfolding count
count-append p [] ys = omega arith
count-append p (x ∷ xs) ys = ground (arith, count-append p xs ys)

-- The steps that are taken under the lock, of requests and of those that free capacity.
pub data Step (limit : ℕ) : Waiting → Waiting → Type 0 where
  wait :
      (w : Waiting) (r g : ℕ) (q : Queue)
      → wait_first limit g w.queue ≡ ok q
      → Step limit w (record { queue = q; waiters = (r, g) ∷ w.waiters })
  wait_again :
      (w : Waiting) (r g : ℕ)
      → In (r, g) w.waiters
      → Step limit w (record w { queue = ready_channel g w.queue })
  wake : (w : Waiting) (g : ℕ) → Step limit w (record w { queue = take_signal g w.queue })
  leave :
      (w : Waiting) (r g : ℕ) (before after : List (ℕ × ℕ))
      → w.waiters ≡ before ++ (r, g) ∷ after
      → Step limit w (record { queue = leave_queue g w.queue; waiters = before ++ after })
  notify :
      (w : Waiting) (found : Result (List ℕ))
      → Step limit w (record w { queue = notify_capacity found w.queue })

pub data Reach (limit : ℕ) : Waiting → Type 0 where
  start : Reach limit (record { queue = record { waiting = []; signals = [] }; waiters = [] })
  next : {w v : Waiting} → Reach limit w → Step limit w v → Reach limit v

-- The count of a pool is the number of its requests that wait, at most the limit, and the pool has
-- a channel exactly while one waits.
pub record IsQueued (limit : ℕ) (w : Waiting) : Type 0 where
  pub counts : (g : ℕ) → active w.queue.waiting g ≡ count (in_pool g) w.waiters
  pub bounded : (g : ℕ) → active w.queue.waiting g ≤ limit
  pub channel : (g : ℕ) → has_channel w.queue.signals g ≡ ltb 0 (active w.queue.waiting g)

pub count-member :
    (p : ℕ × ℕ → Bool) (x : ℕ × ℕ) (xs : List (ℕ × ℕ))
    → In x xs
    → p x ≡ true
    → ltb 0 (count p xs) ≡ true
unfolding count
count-member p x [] member holds = elim member [ ]
count-member p x (y ∷ ys) member holds = elim member [
  | inl same ↦ rw (← same, holds) (ground arith)
  | inr later ↦ ground (arith, count-member p x ys later holds)
]

SameChannels-IsQueued :
    (limit : ℕ) (w : Waiting) (r : Queue)
    → IsQueued limit w
    → SameChannels w.queue r
    → IsQueued limit (record w { queue = r })
SameChannels-IsQueued limit w r known same = record {
  counts = λ g. rw (same.same_counts g) (known.counts g);
  bounded = λ g. rw (same.same_counts g) (known.bounded g);
  channel = λ g. rw (same.same_counts g, same.same_channels g) (known.channel g);
}

joined_count :
    (same : Bool) (m n old waiters : ℕ)
    → old ≡ waiters
    → (same ≡ true → n ≡ m)
    → (if same then n + 1 else old) ≡ (if same then suc m else waiters)
joined_count true m n old waiters equal here = ground (arith, here refl)
joined_count false m n old waiters equal here = equal

joined_bound :
    (same : Bool) (limit n old : ℕ)
    → leb limit n ≡ false
    → old ≤ limit
    → (if same then n + 1 else old) ≤ limit
joined_bound true limit n old room bounded = ground arith
joined_bound false limit n old room bounded = bounded

joined_channel :
    (same had : Bool) (n old : ℕ)
    → had ≡ ltb 0 old
    → (same || had) ≡ ltb 0 (if same then n + 1 else old)
joined_channel true had n old agree = ground arith
joined_channel false had n old agree = agree

wait-IsQueued :
    (limit : ℕ) (w : Waiting) (r g : ℕ) (q : Queue)
    → IsQueued limit w
    → wait_first limit g w.queue ≡ ok q
    → IsQueued limit (record { queue = q; waiters = (r, g) ∷ w.waiters })
unfolding count
wait-IsQueued limit w r g q known done =
    let room = (join_queue-cases limit g w.queue q done).0 in
    record {
      counts = λ h. rw ((wait_first-counts limit g h w.queue q done).0) (
          joined_count (g == h) (count (in_pool h) w.waiters) (active w.queue.waiting g)
            (active w.queue.waiting h) (count (in_pool h) w.waiters) (known.counts h)
            (λ same. rw ((nat_beq_iff g h).0 same) (known.counts h)));
      bounded = λ h. rw ((wait_first-counts limit g h w.queue q done).0) (
          joined_bound (g == h) limit (active w.queue.waiting g) (active w.queue.waiting h) room
            (known.bounded h));
      channel = λ h.
          let (counts, channel) = wait_first-counts limit g h w.queue q done in
          rw (counts, channel)
            (joined_channel (g == h) (has_channel w.queue.signals h) (active w.queue.waiting g)
              (active w.queue.waiting h) (known.channel h));
    }

kept_channel :
    (same had : Bool) (n : ℕ)
    → had ≡ ltb 0 n
    → (same ≡ true → ltb 0 n ≡ true)
    → (same || had) ≡ ltb 0 n
kept_channel true had n agree here = sym (here refl)
kept_channel false had n agree here = agree

again-IsQueued :
    (limit : ℕ) (w : Waiting) (r g : ℕ)
    → IsQueued limit w
    → In (r, g) w.waiters
    → IsQueued limit (record w { queue = ready_channel g w.queue })
again-IsQueued limit w r g known member =
    let there : ltb 0 (active w.queue.waiting g) ≡ true =
      rw (known.counts g)
        (count-member (in_pool g) (r, g) w.waiters member ((nat_beq_iff g g).1 refl)) in
    record {
      counts = λ h. rw ((ready_channel-channel g h w.queue).1) (known.counts h);
      bounded = λ h. rw ((ready_channel-channel g h w.queue).1) (known.bounded h);
      channel = λ h.
          let (channel, counts) = ready_channel-channel g h w.queue in
          rw (counts, channel)
            (kept_channel (g == h) (has_channel w.queue.signals h) (active w.queue.waiting h)
              (known.channel h) (λ same. rw (← (nat_beq_iff g h).0 same) there));
    }

left_count :
    (same : Bool) (n old before after : ℕ)
    → old ≡ before + (if same then suc after else after)
    → (same ≡ true → n ≡ old)
    → (if same then n - 1 else old) ≡ before + after
left_count true n old before after equal here = ground (arith, here refl)
left_count false n old before after equal here = equal

left_bound :
    (same : Bool) (limit n old : ℕ)
    → n ≤ limit
    → old ≤ limit
    → (if same then n - 1 else old) ≤ limit
left_bound true limit n old bounded others = ground arith
left_bound false limit n old bounded others = others

left_channel :
    (same had : Bool) (n old : ℕ)
    → had ≡ ltb 0 old
    → (same ≡ true → n ≡ old)
    → (not (n - 1 == 0 && same) && had) ≡ ltb 0 (if same then n - 1 else old)
left_channel true had n old agree here = ground (arith, here refl)
left_channel false had n old agree here = ground (arith, agree)

leave-IsQueued :
    (limit : ℕ) (w : Waiting) (r g : ℕ) (before after : List (ℕ × ℕ))
    → IsQueued limit w
    → w.waiters ≡ before ++ (r, g) ∷ after
    → IsQueued limit (record { queue = leave_queue g w.queue; waiters = before ++ after })
unfolding count
leave-IsQueued limit w r g before after known split = record {
  counts = λ h.
      rw ((leave_queue-counts g h w.queue).0, count-append (in_pool h) before after)
        (left_count (g == h) (active w.queue.waiting g) (active w.queue.waiting h)
          (count (in_pool h) before) (count (in_pool h) after)
          ((known.counts h) ∙ (rw (split) (count-append (in_pool h) before ((r, g) ∷ after))))
          (λ same. rw ((nat_beq_iff g h).0 same) refl));
  bounded = λ h. rw ((leave_queue-counts g h w.queue).0) (
      left_bound (g == h) limit (active w.queue.waiting g) (active w.queue.waiting h)
        (known.bounded g) (known.bounded h));
  channel = λ h.
      let (counts, channel) = leave_queue-counts g h w.queue in
      rw (counts, channel)
        (left_channel (g == h) (has_channel w.queue.signals h) (active w.queue.waiting g)
          (active w.queue.waiting h) (known.channel h)
          (λ same. rw ((nat_beq_iff g h).0 same) refl));
}

Step-IsQueued : {limit : ℕ} {w v : Waiting} → IsQueued limit w → Step limit w v → IsQueued limit v
Step-IsQueued known (wait w r g q done) = wait-IsQueued _ w r g q known done
Step-IsQueued known (wait_again w r g member) = again-IsQueued _ w r g known member
Step-IsQueued known (wake w g) =
    SameChannels-IsQueued _ w (take_signal g w.queue) known (take_signal-channels g w.queue)
Step-IsQueued known (leave w r g before after split) =
    leave-IsQueued _ w r g before after known split
Step-IsQueued known (notify w found) =
    SameChannels-IsQueued _ w (notify_capacity found w.queue) known
      (notify-channels found w.queue.waiting w.queue.signals)

-- In a queue that steps of waiting requests and of freed capacity reach, a pool's count is the
-- number of its requests that wait, it is at most the queue's limit, and the pool has a channel
-- exactly while one of its requests waits.
pub Reach-IsQueued : {limit : ℕ} {w : Waiting} → Reach limit w → IsQueued limit w
unfolding count lookup
Reach-IsQueued start = record {
  counts = λ g. refl;
  bounded = λ g. omega arith;
  channel = λ g. refl;
}
Reach-IsQueued (next reach step) = Step-IsQueued (Reach-IsQueued reach) step
