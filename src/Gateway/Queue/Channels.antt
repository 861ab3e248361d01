-- ===== src/Gateway/Queue/Channels.antt =====
-- The counts and the channels of the queue after each of its operations:
-- internal/gateway/queue.go.
use sub_lane.Base.{
  lookup, insert, erase, Map, lookup-insert, lookup-erase, ℕ, ◌+◌, ◌-◌, ◌≡◌, refl, ◌∙◌, inl, inr,
  Bool, true, false, not, ◌&&◌, ◌||◌, none, some, List, [], ◌∷◌, arith, leb, if◌then◌else◌,
  nat_beq_iff, Bool-cases, Option-cases, ◌==◌, string_eq, nat_eq, int_eq,
}
use sub_lane.Failure.{Failure, Result, bind_ok, account_queue_full, plain, err, ok}
use sub_lane.Gateway.Service.{active, model_key_eq}
use sub_lane.Gateway.Queue.{
  Queue, join_queue, ready_channel, wait_first, leave_queue, take_signal, send_signal, signal_all,
  pools, notify_capacity,
}

abbrev pub has_channel : Map ℕ Bool → ℕ → Bool
has_channel signals g = elim (lookup g signals) [ none ↦ false | some signal ↦ true ]

pub active-insert :
    (g h n : ℕ) (m : Map ℕ ℕ) → active (insert g n m) h ≡ (if g == h then n else active m h)
active-insert g h n m = elim (Bool-cases (g == h)) [
  | inl same ↦ ground (arith, lookup-insert g h n m, same)
  | inr other ↦ ground (arith, lookup-insert g h n m, other)
]

pub active-erase :
    (g h : ℕ) (m : Map ℕ ℕ) → active (erase g m) h ≡ (if g == h then 0 else active m h)
active-erase g h m = elim (Bool-cases (g == h)) [
  | inl same ↦ ground (arith, lookup-erase g h m, same)
  | inr other ↦ ground (arith, lookup-erase g h m, other)
]

pub has_channel-insert :
    (g h : ℕ) (signal : Bool) (m : Map ℕ Bool)
    → has_channel (insert g signal m) h ≡ (g == h || has_channel m h)
has_channel-insert g h signal m = elim (Bool-cases (g == h)) [
  | inl same ↦ ground (arith, lookup-insert g h signal m, same)
  | inr other ↦ ground (arith, lookup-insert g h signal m, other)
]

pub has_channel-erase :
    (g h : ℕ) (m : Map ℕ Bool) → has_channel (erase g m) h ≡ (not (g == h) && has_channel m h)
has_channel-erase g h m = elim (Bool-cases (g == h)) [
  | inl same ↦ ground (arith, lookup-erase g h m, same)
  | inr other ↦ ground (arith, lookup-erase g h m, other)
]

-- The two queues have the same counts and the same channels.
pub record SameChannels (q r : Queue) : Type 0 where
  pub same_counts : (h : ℕ) → active r.waiting h ≡ active q.waiting h
  pub same_channels : (h : ℕ) → has_channel r.signals h ≡ has_channel q.signals h

pub has_channel-insert_known :
    (g h : ℕ) (old signal : Bool) (m : Map ℕ Bool)
    → lookup g m ≡ some old
    → has_channel (insert g signal m) h ≡ has_channel m h
has_channel-insert_known g h old signal m known = elim (Bool-cases (g == h)) [
  | inl same ↦ ground (arith, lookup-insert g h signal m, same, known, nat_beq_iff g h)
  | inr other ↦ ground (arith, lookup-insert g h signal m, other)
]

pub send_signal-channels : (g : ℕ) (q : Queue) → SameChannels q (send_signal g q)
unfolding send_signal
send_signal-channels g q = elim (Option-cases (lookup g q.signals)) [
  | inl none' ↦
      rw (none', send_signal) (record { same_counts = λ h. refl; same_channels = λ h. refl })
  | inr (signal, known) ↦
      rw (known, send_signal)
        (record {
          same_counts = λ h. refl;
          same_channels = λ h. has_channel-insert_known g h signal true q.signals known;
        })
]

pub take_signal-channels : (g : ℕ) (q : Queue) → SameChannels q (take_signal g q)
unfolding take_signal
take_signal-channels g q = elim (Option-cases (lookup g q.signals)) [
  | inl none' ↦
      rw (none', take_signal) (record { same_counts = λ h. refl; same_channels = λ h. refl })
  | inr (signal, known) ↦
      rw (known, take_signal)
        (record {
          same_counts = λ h. refl;
          same_channels = λ h. has_channel-insert_known g h signal false q.signals known;
        })
]

pub signal_all-channels : (gs : List ℕ) (q : Queue) → SameChannels q (signal_all gs q)
unfolding signal_all
signal_all-channels [] q = record { same_counts = λ h. refl; same_channels = λ h. refl }
signal_all-channels (g ∷ gs) q =
    let one = send_signal-channels g q in
    let others = signal_all-channels gs (send_signal g q) in
    record {
      same_counts = λ h. (others.same_counts h) ∙ (one.same_counts h);
      same_channels = λ h. (others.same_channels h) ∙ (one.same_channels h);
    }

pub notify-channels :
    (found : Result (List ℕ)) (waiting : Map ℕ ℕ) (signals : Map ℕ Bool)
    → SameChannels
        (record { waiting = waiting; signals = signals })
        (notify_capacity found (record { waiting = waiting; signals = signals }))
unfolding notify_capacity
notify-channels found [] signals = record { same_counts = λ h. refl; same_channels = λ h. refl }
notify-channels (err e) (entry ∷ rest) signals =
    signal_all-channels (pools (entry ∷ rest))
      (record { waiting = entry ∷ rest; signals = signals })
notify-channels (ok groups) (entry ∷ rest) signals =
    signal_all-channels groups (record { waiting = entry ∷ rest; signals = signals })

pub ready_channel-channel :
    (g h : ℕ) (q : Queue)
    → (has_channel (ready_channel g q).signals h ≡ (g == h || has_channel q.signals h))
      × (active (ready_channel g q).waiting h ≡ active q.waiting h)
unfolding ready_channel
ready_channel-channel g h q = elim (Option-cases (lookup g q.signals)) [
  | inl none' ↦ rw (none', ready_channel) (has_channel-insert g h false q.signals, refl)
  | inr (signal, known) ↦ rw (known, ready_channel) (ground (arith, nat_beq_iff g h, known), refl)
]

pub past_guard :
    {A : Type 0}
    → (refused : Bool) (e : Failure) (rest : Result A) (v : A)
    → (if refused then err e else rest) ≡ ok v
    → (refused ≡ false) × (rest ≡ ok v)
past_guard true e rest v h = absurd (ground arith)
past_guard false e rest v h = (refl, h)

pub join_queue-cases :
    (limit g : ℕ) (q r : Queue)
    → wait_first limit g q ≡ ok r
    → (leb limit (active q.waiting g) ≡ false)
      × (r ≡ ready_channel g (record q { waiting = insert g (active q.waiting g + 1) q.waiting }))
unfolding wait_first join_queue
join_queue-cases limit g q r done =
    let (joined, counted, made) =
      bind_ok (join_queue limit g q) (λ joined. ok (ready_channel g joined)) r done in
    let (room, same) =
      past_guard (leb limit (active q.waiting g)) (plain account_queue_full)
        (ok (record q { waiting = insert g (active q.waiting g + 1) q.waiting })) joined counted in
    (room, cc)

pub wait_first-counts :
    (limit g h : ℕ) (q r : Queue)
    → wait_first limit g q ≡ ok r
    → (active r.waiting h ≡ (if g == h then active q.waiting g + 1 else active q.waiting h))
      × (has_channel r.signals h ≡ (g == h || has_channel q.signals h))
wait_first-counts limit g h q r done =
    let (room, made) = join_queue-cases limit g q r done in
    let joined : Queue = record q { waiting = insert g (active q.waiting g + 1) q.waiting } in
    let (channel, counts) = ready_channel-channel g h joined in
    rw (made) (counts ∙ (active-insert g h (active q.waiting g + 1) q.waiting), channel)

-- What is left of a pool's count and channel when one of its requests stops waiting.
pub leave_queue-counts :
    (g h : ℕ) (q : Queue)
    → (active (leave_queue g q).waiting h
        ≡ (if g == h then active q.waiting g - 1 else active q.waiting h))
      × (has_channel (leave_queue g q).signals h
          ≡ (not (active q.waiting g - 1 == 0 && g == h) && has_channel q.signals h))
unfolding leave_queue
leave_queue-counts g h q = elim (Bool-cases (active q.waiting g - 1 == 0)) [
  | inl empty ↦
      rw (leave_queue, empty)
        (
          ground (
            arith,
            active-erase g h (insert g (active q.waiting g - 1) q.waiting),
            active-insert g h (active q.waiting g - 1) q.waiting,
            empty,
          ),
          has_channel-erase g h q.signals,
        )
  | inr others ↦
      rw (leave_queue, others) (active-insert g h (active q.waiting g - 1) q.waiting, ground arith)
]
