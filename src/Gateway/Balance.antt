-- ===== src/Gateway/Balance.antt =====
-- Leases balance: what the service counts is what the open requests hold. A world is the service
-- with the requests that are open.
pub mod World
pub mod Opening
pub mod Upkeep
pub mod Runs
use text.Mathlib.TextEquality.{eq_iff}
use sub_lane.Base.{
  lookup, Map, lookup-insert, lookup-erase, ℕ, ◌-◌, String, ◌≡◌, refl, inl, inr, Bool, true, false,
  ◌&&◌, Option, none, some, arith, Option-cases, ◌==◌, string_eq, nat_eq,
}
use sub_lane.Gateway.Classify.{Outcome, Verdict}
use sub_lane.Gateway.State.{Tuning, Runtime, ModelRuntime, RetryAfter, Observation}
use sub_lane.Gateway.Health.{penalise, recover, settle_runtime, release}
use sub_lane.Gateway.ModelRuntime.{
  Write, count_failure, cool_down, failed_model, write_failure, write_recovery, settle_model,
}
use sub_lane.Gateway.Service.{Service, active, model_key_eq}
use sub_lane.Gateway.Lease.{let_go, leave, finish_account, finish_model}

abbrev pub bit : Bool → ℕ
bit true = 1
bit false = 0

abbrev pub in_flight_at : Map String Runtime → String → ℕ
in_flight_at health id = elim (lookup id health) [ none ↦ 0 | some r ↦ r.in_flight ]

abbrev pub on_account : String → Observation → Bool
on_account id e = e.leased && e.account_id == id

abbrev pub of_member : ℕ → Observation → Bool
of_member user e = e.member_leased && e.user_id == user

abbrev pub at_cell : ℕ → Option ℕ → Bool
at_cell p none = false
at_cell p (some q) = q == p

abbrev pub on_cell : ℕ → Observation → Bool
on_cell p e = at_cell p e.model_state

-- One equation for each counter.
pub settle_runtime-in_flight :
    (t : Tuning) (now : ℕ) (e : Observation) (v : Verdict) (retry : RetryAfter) (n : ℕ)
    (r : Runtime)
    → (settle_runtime t now e v retry n r).0.in_flight ≡ r.in_flight
unfolding settle_runtime penalise recover
settle_runtime-in_flight t now e v retry n r = ground arith

pub settle_model-in_flight :
    (t : Tuning) (now : ℕ) (e : Observation) (o : Outcome) (retry : RetryAfter) (w : Write) (n : ℕ)
    (m : ModelRuntime)
    → (settle_model t now e o retry w n m).0.in_flight ≡ m.in_flight
unfolding settle_model write_failure write_recovery failed_model cool_down count_failure
settle_model-in_flight t now e o retry w n m = ground arith

pub finish_account-in_flight :
    (t : Tuning) (now : ℕ) (e : Observation) (v : Verdict) (retry : RetryAfter) (n : ℕ)
    (health : Map String Runtime) (id : String)
    → in_flight_at (finish_account t now e v retry n health).0 id
      ≡ in_flight_at health id - bit (on_account id e)
unfolding finish_account
finish_account-in_flight t now e v retry n health id =
    elim (Option-cases (lookup e.account_id health)) [
      | inl gone ↦ ground (arith, eq_iff e.account_id id)
      | inr (r, known) ↦ ground (
        arith,
        eq_iff e.account_id id,
        lookup-insert e.account_id id (release (settle_runtime t now e v retry n r).0) health,
        settle_runtime-in_flight t now e v retry n r,
      )
    ]

pub leave-active :
    (e : Observation) (members : Map ℕ ℕ) (user : ℕ)
    → active (leave e members) user ≡ active members user - bit (of_member user e)
unfolding leave
leave-active e members user = ground (
  arith,
  lookup-erase e.user_id user members,
  lookup-insert e.user_id user (active members e.user_id - 1) members,
)

pub finish_model-in_flight :
    (now : ℕ) (e : Observation) (o : Outcome) (retry : RetryAfter) (w : Write) (s : Service)
    (ref : Option ℕ) (p : ℕ)
    → ((finish_model now e o retry w s ref).cells p).state.in_flight
      ≡ (s.cells p).state.in_flight - bit (at_cell p ref)
unfolding finish_model
finish_model-in_flight now e o retry w s none p = omega arith
finish_model-in_flight now e o retry w s (some q) p =
    ground
      (arith, settle_model-in_flight s.tuning now e o retry w s.sequence (let_go (s.cells q)).state)

pub finish_model_keeps :
    (now : ℕ) (e : Observation) (o : Outcome) (retry : RetryAfter) (w : Write) (s : Service)
    (ref : Option ℕ)
    → let t = finish_model now e o retry w s ref in
      (t.health ≡ s.health) × (t.member_active ≡ s.member_active) × (t.next_cell ≡ s.next_cell)
unfolding finish_model
finish_model_keeps now e o retry w s none = (refl, refl, refl)
finish_model_keeps now e o retry w s (some q) = ground arith
