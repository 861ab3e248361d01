-- ===== src/Gateway/Balance/World.antt =====
-- The lock's operations as steps of a world, and the invariant that they keep: the counters of the
-- service are what the open requests hold.
use sub_lane.Base.{
  keep, count, lookup, insert, erase, Map, ℕ, ◌+◌, ◌≤◌, ◌<◌, String, ◌≡◌, ◌⊎◌, Bool, Option, none,
  some, List, [], ◌∷◌, ◌++◌, arith, string_eq, nat_eq,
}
use sub_lane.Gateway.Classify.{Outcome, Verdict}
use sub_lane.Gateway.State.{RetryAfter, Observation}
use sub_lane.Gateway.ModelRuntime.{Write}
use sub_lane.Gateway.Service.{ModelKey, Service, active, model_key_eq}
use sub_lane.Gateway.Lease.{leave, finish_account, is_transient, finish_model, finish}
use sub_lane.Gateway.Balance.{
  bit, in_flight_at, on_account, of_member, on_cell, finish_account-in_flight, leave-active,
  finish_model-in_flight, finish_model_keeps,
}

-- Every pointer of the map is one that was given out.
abbrev pub Below : ℕ → Map ModelKey ℕ → Type 0
Below n [] = Unit {0}
Below n ((k, p) ∷ m) = (p < n) × Below n m

pub record Balanced (s : Service) (requests : List Observation) : Type 0 where
  pub accounts : (id : String) → in_flight_at s.health id ≡ count (on_account id) requests
  pub members : (user : ℕ) → active s.member_active user ≡ count (of_member user) requests
  pub models : (p : ℕ) → (s.cells p).state.in_flight ≡ count (on_cell p) requests
  pub unused : (p : ℕ) → (p < s.next_cell) ⊎ ((s.cells p).state.in_flight ≡ 0)
  pub pointers : Below s.next_cell s.models

pub count-append :
    (p : Observation → Bool) (xs ys : List Observation) (e : Observation)
    → count p (xs ++ e ∷ ys) ≡ count p (xs ++ ys) + bit (p e)
unfolding count
count-append p [] ys e = ground arith
count-append p (x ∷ xs) ys e = ground (arith, count-append p xs ys e)

pub Below-lookup :
    (n : ℕ) (m : Map ModelKey ℕ) (k : ModelKey) (p : ℕ) → Below n m → lookup k m ≡ some p → p < n
unfolding lookup
Below-lookup n [] k p b h = cc
Below-lookup n ((j, q) ∷ m) k p b h = ground (arith, Below-lookup n m k p b.1)

pub Below-insert :
    (n : ℕ) (m : Map ModelKey ℕ) (k : ModelKey) (p : ℕ) → Below n m → p < n → Below n (insert k p m)
unfolding insert
Below-insert n [] k p b h = (h, tt)
Below-insert n ((j, q) ∷ m) k p b h = ground (arith, Below-insert n m k p b.1 h)

pub Below-erase : (n : ℕ) (m : Map ModelKey ℕ) (k : ModelKey) → Below n m → Below n (erase k m)
unfolding erase
Below-erase n [] k b = tt
Below-erase n ((j, q) ∷ m) k b = ground (arith, Below-erase n m k b.1)

pub Below-keep :
    (n : ℕ) (m : Map ModelKey ℕ) (f : ModelKey × ℕ → Bool) → Below n m → Below n (keep f m)
unfolding keep
Below-keep n [] f b = tt
Below-keep n ((j, q) ∷ m) f b = ground (arith, Below-keep n m f b.1)

pub Below-mono : (n k : ℕ) (m : Map ModelKey ℕ) → n ≤ k → Below n m → Below k m
Below-mono n k [] h b = tt
Below-mono n k ((j, q) ∷ m) h b = (omega arith, Below-mono n k m h b.1)

pub finish_model-Below :
    (now : ℕ) (e : Observation) (o : Outcome) (retry : RetryAfter) (w : Write) (s : Service)
    (ref : Option ℕ)
    → Below s.next_cell s.models
    → Below s.next_cell (finish_model now e o retry w s ref).models
unfolding finish_model
finish_model-Below now e o retry w s none b = b
finish_model-Below now e o retry w s (some q) b =
    ground (arith, Below-erase s.next_cell s.models (s.cells q).key)

-- A finished request gives back exactly what it held.
pub finish-Balanced :
    (now : ℕ) (e : Observation) (v : Verdict) (retry : RetryAfter) (w : Write) (s : Service)
    (xs ys : List Observation)
    → Balanced s (xs ++ e ∷ ys)
    → Balanced (finish now e v retry w s) (xs ++ ys)
unfolding finish
finish-Balanced now e v retry w s xs ys b =
    let o : Observation = record e {
      model_transient = is_transient s.tuning v e.upstream_status;
    } in
    let after = finish_account s.tuning now o v retry s.sequence s.health in
    let u : Service = record s {
      member_active = leave o s.member_active;
      health = after.0;
      sequence = after.1;
    } in
    let (same_health, same_members, same_next) =
      finish_model_keeps now o v.outcome retry w u o.model_state in
    record {
      accounts = λ id. ground (
        arith,
        same_health,
        finish_account-in_flight s.tuning now o v retry s.sequence s.health id,
        count-append (on_account id) xs ys e,
        b.accounts id,
      );
      members = λ user. ground (
        arith,
        same_members,
        leave-active o s.member_active user,
        count-append (of_member user) xs ys e,
        b.members user,
      );
      models = λ p. ground (
        arith,
        finish_model-in_flight now o v.outcome retry w u o.model_state p,
        count-append (on_cell p) xs ys e,
        b.models p,
      );
      unused = λ p. ground (
        arith,
        finish_model-in_flight now o v.outcome retry w u o.model_state p,
        same_next,
        b.unused p,
      );
      pointers =
          ground (
            arith,
            same_next,
            finish_model-Below now o v.outcome retry w u o.model_state b.pointers,
          );
    }
