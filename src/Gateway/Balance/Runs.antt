-- ===== src/Gateway/Balance/Runs.antt =====
-- The operations of the admission lock as steps of a world, the service with its open requests,
-- and the worlds that a run can reach.
use sub_lane.Base.{
  count, lookup, ℕ, ◌+◌, ◌≤◌, String, ◌≡◌, refl, ◌⊎◌, inr, true, false, Option, none, some, List,
  [], ◌∷◌, ◌++◌, arith, text_beq_refl, string_eq, nat_eq,
}
use sub_lane.Failure.{ok}
use sub_lane.Gateway.Classify.{Verdict}
use sub_lane.Gateway.State.{
  Tuning, Runtime, Account, ModelRuntime, RetryAfter, Observation, no_reason,
}
use sub_lane.Gateway.ModelRuntime.{Write}
use sub_lane.Gateway.Members.{admit_member-IsAdmitted}
use sub_lane.Gateway.Admission.{account_admission, account_admission-IsAdmissible}
use sub_lane.Gateway.Service.{ModelKey, Service, Limits, admit_member, model_key_eq}
use sub_lane.Gateway.Lease.{
  RuntimeRow, load_runtime, ModelRef, model_lease, grant, finish, resume, set_concurrency,
}
use sub_lane.Gateway.Balance.{on_account, of_member}
use sub_lane.Gateway.Balance.World.{Balanced, count-append, finish-Balanced}
use sub_lane.Gateway.Balance.Opening.{IsOffered, model_lease-IsOffered, grant-Balanced}
use sub_lane.Gateway.Balance.Upkeep.{
  load_runtime-Balanced, resume-Balanced, set_concurrency-Balanced, join-Balanced,
}

pub record World : Type 0 where
  pub service : Service
  pub requests : List Observation

-- A model state is chosen for a request that names a model.
pub data Chosen (s : Service) (key : ModelKey) : Option ModelRef → Type 0 where
  no_model : Chosen s key none
  leased_model :
      (row : ModelRuntime) (ref : ModelRef)
      → model_lease s row key ≡ ok ref
      → Chosen s key (some ref)

-- One hold of the lock. A request joins with no lease; it takes its lease later, at an account
-- that admits it; it ends with any verdict; and the service reads its accounts, resumes one or
-- changes a limit, at any time.
pub data Step : World → World → Type 0 where
  join :
      (s t : Service) (l : Option Limits) (now : ℕ) (e : Observation) (xs : List Observation)
      → admit_member s l e.user_id now ≡ ok t
      → e.member_leased ≡ true
      → e.leased ≡ false
      → e.model_state ≡ none
      → Step (record { service = s; requests = xs }) (record { service = t; requests = e ∷ xs })
  lease :
      (s : Service) (a : Account) (r : Runtime) (now : ℕ) (key : ModelKey) (ref : Option ModelRef)
      (e : Observation) (xs ys : List Observation)
      → account_admission s.health now a ≡ none
      → lookup a.id s.health ≡ some r
      → Chosen s key ref
      → e.leased ≡ false
      → e.model_state ≡ none
      → Step
          (record { service = s; requests = xs ++ e ∷ ys })
          (record {
            service = (grant s r key ref (record e { account_id = a.id })).0;
            requests = xs ++ (grant s r key ref (record e { account_id = a.id })).1 ∷ ys;
          })
  done :
      (s : Service) (now : ℕ) (e : Observation) (v : Verdict) (retry : RetryAfter) (w : Write)
      (xs ys : List Observation)
      → Step
          (record { service = s; requests = xs ++ e ∷ ys })
          (record { service = finish now e v retry w s; requests = xs ++ ys })
  reload :
      (s : Service) (rows : List RuntimeRow) (xs : List Observation)
      → Step
          (record { service = s; requests = xs })
          (record { service = load_runtime rows s; requests = xs })
  resumed :
      (s t : Service) (id : String) (xs : List Observation)
      → resume id s ≡ some t
      → Step (record { service = s; requests = xs }) (record { service = t; requests = xs })
  limited :
      (s t : Service) (id : String) (limit : ℕ) (xs : List Observation)
      → set_concurrency id limit s ≡ some t
      → Step (record { service = s; requests = xs }) (record { service = t; requests = xs })

-- New: no account is read yet, no member is in, no model is known, and no cell is given out.
abbrev pub no_model_runtime : ModelRuntime
no_model_runtime = record {
  lifecycle = 0;
  runtime_revision = 0;
  version = 0;
  failures = 0;
  cooldown_until = 0;
  last_failure_at = 0;
  last_failure_sequence = 0;
  persist_failed = false;
  in_flight = 0;
  reason = no_reason;
  failure_window_at = 0;
}

abbrev pub new_service : Tuning → Service
new_service t = record {
  tuning = t;
  health = [];
  models = [];
  cells = λ p. record { key = record { account = ""; model = "" }; state = no_model_runtime };
  next_cell = 0;
  member_active = [];
  rates = [];
  sequence = 0;
}

pub data Reach (t : Tuning) : World → Type 0 where
  start : Reach t (record { service = new_service t; requests = [] })
  more : (w v : World) → Reach t w → Step w v → Reach t v

Chosen-IsOffered :
    (s : Service) (key : ModelKey) (ref : Option ModelRef) → Chosen s key ref → IsOffered s key ref
Chosen-IsOffered s key _ no_model = tt
Chosen-IsOffered s key _ (leased_model row ref h) = model_lease-IsOffered s row key ref h

Step-Balanced :
    (w v : World) → Step w v → Balanced w.service w.requests → Balanced v.service v.requests
Step-Balanced _ _ (join s t l now e xs h joined idle bare) b =
    join-Balanced s t l now e xs h joined idle bare b
Step-Balanced _ _ (lease s a r now key ref e xs ys free known chosen idle bare) b =
    grant-Balanced s r key ref e a.id xs ys known (Chosen-IsOffered s key ref chosen) idle bare b
Step-Balanced _ _ (done s now e v retry w xs ys) b = finish-Balanced now e v retry w s xs ys b
Step-Balanced _ _ (reload s rows xs) b = load_runtime-Balanced rows s xs b
Step-Balanced _ _ (resumed s t id xs h) b = resume-Balanced id s t xs h b
Step-Balanced _ _ (limited s t id limit xs h) b = set_concurrency-Balanced id limit s t xs h b

-- In every world that is reached from the empty one by joins, leases, ends of requests, reads of the
-- accounts, resumed accounts and changed limits, the counters of each account, member and model
-- state are the numbers of open requests that hold them, no cell that is not given out has a
-- lease, and every pointer of the map is one that was given out.
pub Reach-Balanced : (t : Tuning) (w : World) → Reach t w → Balanced w.service w.requests
unfolding count lookup
Reach-Balanced t _ start = record {
  accounts = λ id. refl;
  members = λ user. refl;
  models = λ p. refl;
  unused = λ p. inr refl;
  pointers = tt;
}
Reach-Balanced t _ (more w v run step) = Step-Balanced w v step (Reach-Balanced t w run)

-- The open requests on an account never exceed its limit by a lease that its admission allows.
pub lease_within :
    (t : Tuning) (s : Service) (a : Account) (r : Runtime) (now : ℕ) (key : ModelKey)
    (ref : Option ModelRef) (e : Observation) (xs ys : List Observation)
    → Reach t (record { service = s; requests = xs ++ e ∷ ys })
    → account_admission s.health now a ≡ none
    → lookup a.id s.health ≡ some r
    → Chosen s key ref
    → e.leased ≡ false
    → e.model_state ≡ none
    → let (u, o) = grant s r key ref (record e { account_id = a.id }) in
      (count (on_account a.id) (xs ++ o ∷ ys) ≡ count (on_account a.id) (xs ++ ys) + 1)
      × (count (on_account a.id) (xs ++ o ∷ ys) ≤ r.max_concurrency)
unfolding grant
lease_within t s a r now key ref e xs ys run free known chosen idle bare =
    let b = Reach-Balanced t (record { service = s; requests = xs ++ e ∷ ys }) run in
    let o : Observation = (grant s r key ref (record e { account_id = a.id })).1 in
    let open' = account_admission-IsAdmissible s.health now a free in
    ground (
      arith,
      count-append (on_account a.id) xs ys e,
      count-append (on_account a.id) xs ys o,
      b.accounts a.id,
      open'.known,
      open'.has_slot,
      text_beq_refl a.id,
    )

-- The open requests of a member never exceed its limit by one that joins.
pub join_within :
    (t : Tuning) (s u : Service) (l : Limits) (now : ℕ) (e : Observation) (xs : List Observation)
    → Reach t (record { service = s; requests = xs })
    → admit_member s (some l) e.user_id now ≡ ok u
    → e.member_leased ≡ true
    → (l.max_concurrency ≡ 0) ⊎ (count (of_member e.user_id) (e ∷ xs) ≤ l.max_concurrency)
unfolding count
join_within t s u l now e xs run h joined =
    let b = Reach-Balanced t (record { service = s; requests = xs }) run in
    let allowed = admit_member-IsAdmitted s u l e.user_id now h in
    ground (arith, allowed.within, allowed.one_more, b.members e.user_id)
