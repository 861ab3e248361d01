-- ===== src/Gateway/Balance/Upkeep.antt =====
-- The operations that open and close no lease keep the counters: the accounts read again, an
-- account resumed, a limit changed; and a member that joins.
use text.Mathlib.TextEquality.{eq_iff}
use sub_lane.Base.{
  count, lookup, insert, Map, lookup-insert, lookup-erase, ℕ, ◌+◌, String, ◌≡◌, refl, inl, inr,
  true, false, not, Option, none, some, List, [], ◌∷◌, arith, Option-cases, ◌==◌, string_eq, nat_eq,
}
use sub_lane.Failure.{ok}
use sub_lane.Gateway.State.{Runtime, Observation, no_reason}
use sub_lane.Gateway.Service.{Service, active, Limits, admit_member, model_key_eq}
use sub_lane.Gateway.Lease.{
  RuntimeRow, known_or_new, load_rows, drop_gone, is_current, drop_superseded, load_runtime, resume,
  set_concurrency,
}
use sub_lane.Gateway.Balance.{bit, in_flight_at}
use sub_lane.Gateway.Balance.World.{Balanced, Below-keep}

known_or_new-in_flight :
    (row : RuntimeRow) (health : Map String Runtime)
    → (known_or_new row (lookup row.id health)).in_flight ≡ in_flight_at health row.id
known_or_new-in_flight row health = ground arith

load_rows-in_flight :
    (rows : List RuntimeRow) (health : Map String Runtime) (id : String)
    → in_flight_at (load_rows rows health) id ≡ in_flight_at health id
unfolding load_rows
load_rows-in_flight [] health id = refl
load_rows-in_flight (row ∷ rows) health id =
    let r = known_or_new row (lookup row.id health) in
    let limited : Runtime = record r { max_concurrency = row.start.max_concurrency } in
    ground (
      arith,
      load_rows-in_flight rows (insert row.id limited health) id,
      lookup-insert row.id id limited health,
      eq_iff row.id id,
      known_or_new-in_flight row health,
    )

drop_gone-in_flight :
    (rows : List RuntimeRow) (health : Map String Runtime) (id : String)
    → in_flight_at (drop_gone rows health) id ≡ in_flight_at health id
unfolding drop_gone lookup
drop_gone-in_flight rows [] id = refl
drop_gone-in_flight rows ((j, r) ∷ health) id =
    ground (arith, lookup-erase j id (drop_gone rows health), drop_gone-in_flight rows health id)

pub load_runtime-Balanced :
    (rows : List RuntimeRow) (s : Service) (xs : List Observation)
    → Balanced s xs
    → Balanced (load_runtime rows s) xs
unfolding load_runtime drop_superseded
load_runtime-Balanced rows s xs b = record {
  accounts = λ id. ground (
    arith,
    drop_gone-in_flight rows (load_rows rows s.health) id,
    load_rows-in_flight rows s.health id,
    b.accounts id,
  );
  members = b.members;
  models = b.models;
  unused = b.unused;
  pointers =
      Below-keep s.next_cell s.models (λ entry. is_current rows (s.cells entry.1)) b.pointers;
}

pub resume-Balanced :
    (id : String) (s t : Service) (xs : List Observation)
    → resume id s ≡ some t
    → Balanced s xs
    → Balanced t xs
unfolding resume
resume-Balanced id s t xs h b = elim (Option-cases (lookup id s.health)) [
  | inl gone ↦ absurd (ground arith)
  | inr (r, known) ↦
      let open' = record r {
        cooldown_until = 0;
        reason = no_reason;
        failures = 0;
        last_failure_at = 0;
        last_failure_sequence = 0;
        revision = r.revision + 1;
      } in
      record {
        accounts =
            λ j. ground (arith, lookup-insert id j open' s.health, eq_iff id j, b.accounts j);
        members = λ user. ground (arith, b.members user);
        models = λ p. ground (arith, b.models p);
        unused = λ p. ground (arith, b.unused p);
        pointers = ground (
          arith,
          Below-keep s.next_cell s.models (λ entry. not (entry.0.account == id)) b.pointers,
        );
      }
]

pub set_concurrency-Balanced :
    (id : String) (limit : ℕ) (s t : Service) (xs : List Observation)
    → set_concurrency id limit s ≡ some t
    → Balanced s xs
    → Balanced t xs
unfolding set_concurrency
set_concurrency-Balanced id limit s t xs h b = elim (Option-cases (lookup id s.health)) [
  | inl gone ↦ record {
    accounts = λ j. ground (arith, b.accounts j);
    members = λ user. ground (arith, b.members user);
    models = λ p. ground (arith, b.models p);
    unused = λ p. ground (arith, b.unused p);
    pointers = ground (arith, b.pointers);
  }
  | inr (r, known) ↦ record {
    accounts = λ j. ground (
      arith,
      lookup-insert id j (record r { max_concurrency = limit }) s.health,
      eq_iff id j,
      b.accounts j,
    );
    members = λ user. ground (arith, b.members user);
    models = λ p. ground (arith, b.models p);
    unused = λ p. ground (arith, b.unused p);
    pointers = ground (arith, b.pointers);
  }
]

admit_member_keeps :
    (s t : Service) (l : Option Limits) (user now j : ℕ)
    → admit_member s l user now ≡ ok t
    → (active t.member_active j ≡ active s.member_active j + bit (user == j))
      × (t.health ≡ s.health)
      × (t.models ≡ s.models)
      × (t.cells ≡ s.cells)
      × (t.next_cell ≡ s.next_cell)
unfolding admit_member
admit_member_keeps s t none user now j h = ground arith
admit_member_keeps s t (some l) user now j h =
    ground (arith, lookup-insert user j (active s.member_active user + 1) s.member_active)

pub join-Balanced :
    (s t : Service) (l : Option Limits) (now : ℕ) (e : Observation) (xs : List Observation)
    → admit_member s l e.user_id now ≡ ok t
    → e.member_leased ≡ true
    → e.leased ≡ false
    → e.model_state ≡ none
    → Balanced s xs
    → Balanced t (e ∷ xs)
unfolding count
join-Balanced s t l now e xs h joined idle bare b =
    let keeps = λ (j : ℕ). admit_member_keeps s t l e.user_id now j h in
    record {
      accounts = λ id. ground (arith, keeps 0, b.accounts id);
      members = λ user. ground (arith, keeps user, b.members user);
      models = λ p. ground (arith, keeps 0, b.models p);
      unused = λ p. ground (arith, keeps 0, b.unused p);
      pointers = ground (arith, keeps 0, b.pointers);
    }
