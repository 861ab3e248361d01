-- ===== src/Gateway/Queue/Heard.antt =====
-- Freed capacity is heard by the pools that wait: `notifyCapacity` of
-- internal/gateway/queue.go.
use sub_lane.Base.{
  ◌∙◌, In, lookup, Map, lookup-insert, ℕ, ◌≡◌, refl, sym, inl, inr, Bool, true, some, List, [], ◌∷◌,
  arith, ltb, nat_beq_iff, Bool-cases, Option-cases, ◌==◌, string_eq, nat_eq, int_eq,
}
use sub_lane.Failure.{Result, err, ok}
use sub_lane.Gateway.Service.{active, model_key_eq}
use sub_lane.Gateway.Queue.{Queue, send_signal, signal_all, pools, notify_capacity}
use sub_lane.Gateway.Queue.Channels.{has_channel, send_signal-channels}
use sub_lane.Gateway.Queue.Waiters.{Waiting, Reach, Reach-IsQueued, in_pool, count-member}

-- The pool is among those that the lookup of the account's pools returned, or that lookup failed.
abbrev pub Affects : ℕ → Result (List ℕ) → Type 0
Affects g (err e) = Unit
Affects g (ok groups) = In g groups

send_signal-kept :
    (g h : ℕ) (q : Queue)
    → lookup h q.signals ≡ some true
    → lookup h (send_signal g q).signals ≡ some true
unfolding send_signal
send_signal-kept g h q there = elim (Option-cases (lookup g q.signals)) [
  | inl none' ↦ rw (send_signal, none') there
  | inr (signal, known) ↦
      rw (send_signal, known) (ground (arith, lookup-insert g h true q.signals, there))
]

signal_all-kept :
    (gs : List ℕ) (h : ℕ) (q : Queue)
    → lookup h q.signals ≡ some true
    → lookup h (signal_all gs q).signals ≡ some true
unfolding signal_all
signal_all-kept [] h q there = there
signal_all-kept (g ∷ gs) h q there =
    signal_all-kept gs h (send_signal g q) (send_signal-kept g h q there)

send_signal-signal :
    (g : ℕ) (q : Queue)
    → has_channel q.signals g ≡ true
    → lookup g (send_signal g q).signals ≡ some true
unfolding send_signal
send_signal-signal g q ready = elim (Option-cases (lookup g q.signals)) [
  | inl none' ↦ absurd (ground (arith, none'))
  | inr (signal, known) ↦
      rw (send_signal, known) (ground (arith, lookup-insert g g true q.signals, nat_beq_iff g g))
]

signal_all-signal :
    (gs : List ℕ) (g : ℕ) (q : Queue)
    → In g gs
    → has_channel q.signals g ≡ true
    → lookup g (signal_all gs q).signals ≡ some true
unfolding signal_all
signal_all-signal [] g q member ready = elim member [ ]
signal_all-signal (at ∷ gs) g q member ready = elim member [
  | inl same ↦ rw (← same) (signal_all-kept gs g (send_signal g q) (send_signal-signal g q ready))
  | inr later ↦
      signal_all-signal gs g (send_signal at q) later
        (((send_signal-channels at q).same_channels g) ∙ ready)
]

pools-In : (m : Map ℕ ℕ) (g : ℕ) → ltb 0 (active m g) ≡ true → In g (pools m)
unfolding lookup pools
pools-In [] g some_wait = absurd (ground arith)
pools-In ((at, n) ∷ m) g some_wait = elim (Bool-cases (at == g)) [
  | inl same ↦ inl (sym ((nat_beq_iff at g).0 same))
  | inr other ↦ inr (pools-In m g (ground (arith, other)))
]

notify_capacity-signal :
    (found : Result (List ℕ)) (waiting : Map ℕ ℕ) (signals : Map ℕ Bool) (g : ℕ)
    → ltb 0 (active waiting g) ≡ true
    → has_channel signals g ≡ true
    → Affects g found
    → lookup g (notify_capacity found (record { waiting = waiting; signals = signals })).signals
      ≡ some true
unfolding lookup notify_capacity
notify_capacity-signal found [] signals g some_wait ready here = absurd (ground arith)
notify_capacity-signal (err e) (entry ∷ rest) signals g some_wait ready here =
    signal_all-signal (pools (entry ∷ rest)) g
      (record { waiting = entry ∷ rest; signals = signals }) (pools-In (entry ∷ rest) g some_wait)
      ready
notify_capacity-signal (ok groups) (entry ∷ rest) signals g some_wait ready here =
    signal_all-signal groups g (record { waiting = entry ∷ rest; signals = signals }) here ready

-- No release is lost: while a request waits in a queue that the steps reach, freed capacity of an
-- account that its pool holds, or whose pools could not be looked up, leaves a signal in the
-- channel of its pool.
pub notify_capacity-IsHeard :
    (limit : ℕ) (w : Waiting) (r g : ℕ) (found : Result (List ℕ))
    → Reach limit w
    → In (r, g) w.waiters
    → Affects g found
    → lookup g (notify_capacity found w.queue).signals ≡ some true
notify_capacity-IsHeard limit w r g found reach member here =
    let known = Reach-IsQueued reach in
    let some_wait : ltb 0 (active w.queue.waiting g) ≡ true =
      rw (known.counts g)
        (count-member (in_pool g) (r, g) w.waiters member ((nat_beq_iff g g).1 refl)) in
    notify_capacity-signal found w.queue.waiting w.queue.signals g some_wait
      (rw (known.channel g) some_wait) here
