-- ===== src/Gateway/Balance/Opening.antt =====
-- A member that joins and a lease that is granted keep the counters balanced.
use text.Mathlib.TextEquality.{eq_iff}
use sub_lane.Base.{
  lookup, lookup-insert, ℕ, ◌+◌, ◌≤◌, ◌<◌, String, ◌≡◌, refl, ◌⊎◌, inr, false, Option, none, some,
  List, ◌∷◌, ◌++◌, arith, string_eq, nat_eq,
}
use sub_lane.Failure.{ok}
use sub_lane.Gateway.State.{Runtime, ModelRuntime, Observation}
use sub_lane.Gateway.Service.{ModelKey, Service, model_key_eq}
use sub_lane.Gateway.Lease.{ModelRef, read_model, model_lease, hold_model, grant, held, fresh}
use sub_lane.Gateway.Balance.{bit, on_account, of_member, at_cell, on_cell}
use sub_lane.Gateway.Balance.World.{
  Below, Balanced, count-append, Below-lookup, Below-insert, Below-mono,
}

-- A model state that a request may hold: the map's own pointer, or a new one that nobody holds.
abbrev pub IsOffered : Service → ModelKey → Option ModelRef → Type 0
IsOffered s key none = Unit {0}
IsOffered s key (some (held p)) = lookup key s.models ≡ some p
IsOffered s key (some (fresh m)) = m.in_flight ≡ 0

pub model_lease-IsOffered :
    (s : Service) (row : ModelRuntime) (key : ModelKey) (ref : ModelRef)
    → model_lease s row key ≡ ok ref
    → IsOffered s key (some ref)
unfolding model_lease read_model
model_lease-IsOffered s row key (held p) h = ground arith
model_lease-IsOffered s row key (fresh m) h = ground arith

hold_model-in_flight :
    (s : Service) (key : ModelKey) (ref : Option ModelRef) (p : ℕ)
    → IsOffered s key ref
    → (s.cells s.next_cell).state.in_flight ≡ 0
    → let (t, q) = hold_model s key ref in
      (t.cells p).state.in_flight ≡ (s.cells p).state.in_flight + bit (at_cell p q)
unfolding hold_model
hold_model-in_flight s key none p o z = ground arith
hold_model-in_flight s key (some (held q)) p o z = ground arith
hold_model-in_flight s key (some (fresh m)) p o z = ground arith

hold_model_keeps :
    (s : Service) (key : ModelKey) (ref : Option ModelRef)
    → let t = (hold_model s key ref).0 in
      (t.member_active ≡ s.member_active) × (s.next_cell ≤ t.next_cell)
unfolding hold_model
hold_model_keeps s key none = (refl, omega arith)
hold_model_keeps s key (some (held q)) = (refl, omega arith)
hold_model_keeps s key (some (fresh m)) = (refl, omega arith)

hold_model-pointers :
    (s : Service) (key : ModelKey) (ref : Option ModelRef)
    → IsOffered s key ref
    → Below s.next_cell s.models
    → let (t, q) = hold_model s key ref in
      Below t.next_cell t.models × ((p : ℕ) → (p < t.next_cell) ⊎ (at_cell p q ≡ false))
unfolding hold_model
hold_model-pointers s key none o b = (b, λ p. inr refl)
hold_model-pointers s key (some (held q)) o b =
    let under = Below-lookup s.next_cell s.models key q b o in
    (Below-insert s.next_cell s.models key q b under, λ p. ground arith)
hold_model-pointers s key (some (fresh m)) o b = (
  Below-insert (s.next_cell + 1) s.models key s.next_cell
      (Below-mono s.next_cell (s.next_cell + 1) s.models (omega arith) b) (omega arith),
  λ p. ground arith,
)

-- The request that holds nothing yet becomes one that holds its account and its model.
pub grant-Balanced :
    (s : Service) (r : Runtime) (key : ModelKey) (ref : Option ModelRef) (e : Observation)
    (id : String) (xs ys : List Observation)
    → lookup id s.health ≡ some r
    → IsOffered s key ref
    → e.leased ≡ false
    → e.model_state ≡ none
    → Balanced s (xs ++ e ∷ ys)
    → let (t, o) = grant s r key ref (record e { account_id = id }) in Balanced t (xs ++ o ∷ ys)
unfolding grant
grant-Balanced s r key ref e id xs ys known offered idle bare b =
    let after = hold_model s key ref in
    let o : Observation = (grant s r key ref (record e { account_id = id })).1 in
    let (same_members, more) = hold_model_keeps s key ref in
    let empty : (s.cells s.next_cell).state.in_flight ≡ 0 = ground (arith, b.unused s.next_cell) in
    let (below, not_held) = hold_model-pointers s key ref offered b.pointers in
    record {
      accounts = λ j. ground (
        arith,
        count-append (on_account j) xs ys e,
        count-append (on_account j) xs ys o,
        b.accounts j,
        eq_iff id j,
        lookup-insert id j (record r { in_flight = r.in_flight + 1 }) s.health,
      );
      members = λ user. ground (
        arith,
        same_members,
        count-append (of_member user) xs ys e,
        count-append (of_member user) xs ys o,
        b.members user,
      );
      models = λ p. ground (
        arith,
        count-append (on_cell p) xs ys e,
        count-append (on_cell p) xs ys o,
        b.models p,
        hold_model-in_flight s key ref p offered empty,
      );
      unused = λ p.
          ground
            (arith, more, hold_model-in_flight s key ref p offered empty, not_held p, b.unused p);
      pointers = below;
    }
