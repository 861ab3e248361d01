-- ===== src/Scenarios/Queueing.antt =====
-- Requests that wait for a busy pool.
use sub_lane.Base.{lookup, ◌≡◌, refl, inl, Bool, true, some, [], ◌∷◌, nat_eq}
use sub_lane.Failure.{ok}
use sub_lane.Gateway.Queue.{wait_first, notify_capacity}
use sub_lane.Gateway.Queue.Waiters.{Waiting, Reach, start, next, wait, IsQueued, Reach-IsQueued}
use sub_lane.Gateway.Queue.Heard.{notify_capacity-IsHeard}

abbrev nobody : Waiting
nobody = record { queue = record { waiting = []; signals = [] }; waiters = [] }

abbrev one_waits : Waiting
one_waits = record {
  queue = record { waiting = (7, 1) ∷ []; signals = (7, Bool.false) ∷ [] };
  waiters = (100, 7) ∷ [];
}

joins : wait_first 2 7 nobody.queue ≡ ok one_waits.queue
unfolding wait_first
joins = refl

one_waits-Reach : Reach 2 one_waits
one_waits-Reach = next start (wait nobody 100 7 one_waits.queue joins)

Reach-IsQueued_example : IsQueued 2 one_waits
Reach-IsQueued_example = Reach-IsQueued one_waits-Reach

notify_capacity-IsHeard_example :
    lookup 7 (notify_capacity (ok (7 ∷ [])) one_waits.queue).signals ≡ some true
notify_capacity-IsHeard_example =
    notify_capacity-IsHeard 2 one_waits 100 7 (ok (7 ∷ [])) one_waits-Reach (inl refl) (inl refl)
