-- ===== src/Gateway/Selection/Entitled.antt =====
-- A selection as a whole: an account that is returned with no error is one of the pool's rows, and
-- has passed every gate.
use sub_lane.Base.{
  length, get_elem?, In-get, In, ℕ, ◌≤◌, min, String, ◌≡◌, refl, sym, ap, inl, inr, false, not,
  ◌&&◌, ◌||◌, Option, none, some, List, [], ◌∷◌, arith, if◌then◌else◌, Option-cases, if_either,
  ◌==◌, string_eq, nat_eq,
}
use sub_lane.Failure.{
  Failure, Result, invalid_input, provider_disabled, model_not_allowed, plain, err, ok,
}
use sub_lane.Groups.{allows}
use sub_lane.Gateway.Affinity.{Affinity, session_binding}
use sub_lane.Gateway.Selection.{Ask, Row, Scene, failing, provider_enabled}
use sub_lane.Gateway.Selection.Candidates.{
  Gate, has_model, rank_of, look_at, Tally, new_tally, survey, no_candidate, fit,
}
use sub_lane.Gateway.State.{unix}
use sub_lane.Gateway.Lease.{RuntimeRow, load_runtime}
use sub_lane.Gateway.Selection.Bound.{
  Bound, bound, conversation, scope_of, extend, stays, reselects,
}
use sub_lane.Gateway.Selection.Sound.{look_at-fit}
use sub_lane.Gateway.Route.{max_route_count, Route, no_exclusions}
use sub_lane.Gateway.Selection.Rotation.{next_at, plan_of, place, cursor_eq}
use sub_lane.Gateway.Selection.Survey.{survey_sound, survey_complete}
use sub_lane.Gateway.Selection.Choose.{
  Router, Selected, new_route, refuse, succeed, save, Pool, read_pool, has_parent, parent_account,
  bind, pick_row, cursor_of, take_turn, turn_among, surveyed, schedule, with_parent, start_over,
  affinity_route, follow, with_binding, requested, select_in_pool, opened, with_pool, with_accounts,
  select_account,
}
use sub_lane.Gateway.Selection.Stays.{Serves, bound-Serves}

pick_row-In : (first : Row) (rest : List Row) (n : ℕ) → In (pick_row first rest n) (first ∷ rest)
pick_row-In first rest n = elim (Option-cases (get_elem? (first ∷ rest) n)) [
  | inl e ↦ inl (ground arith)
  | inr (row, e) ↦ In-get (first ∷ rest) n (pick_row first rest n) (ground arith)
]

refuse-failure :
    (s : Router) (id : String) (route : Route) (e : Failure)
    → (refuse s id route e).failure ≡ some e
unfolding refuse
refuse-failure s id route e = refl

refused {ℓ} :
    {A : Type ℓ} (s : Router) (id : String) (route : Route) (e : Failure)
    → (refuse s id route e).failure ≡ none
    → A
refused s id route e h = absurd (ground (arith, refuse-failure s id route e, h))

pub save-ok :
    (o : Option Failure) (m : Result (List Affinity)) (s : Router) (failed done : Route)
    (id : String)
    → (save o m s failed done id).failure ≡ none
    → (t : List Affinity) × (m ≡ ok t)
      × (save o m s failed done id ≡ succeed (record s { affinities = t }) id done)
unfolding save
save-ok o (err e) s failed done id h = refused s "" failed e h
save-ok (some e) (ok t) s failed done id h = refused s "" failed e h
save-ok none (ok t) s failed done id h = (t, refl, refl)

save-account_id :
    (o : Option Failure) (m : Result (List Affinity)) (s : Router) (failed done : Route)
    (id : String)
    → (save o m s failed done id).failure ≡ none
    → (save o m s failed done id).account_id ≡ id
unfolding succeed
save-account_id o m s failed done id h =
    let (t, e, same) = save-ok o m s failed done id h in ap (λ out. out.account_id) same

-- A turn that ends with no error returns the candidate that it has picked.
take_turn-picks :
    (g : Gate) (best : ℕ) (first : Row) (rest : List Row) (replacement : Option Affinity)
    (route : Route) (s : Router)
    → let out = take_turn g best first rest replacement route s in
      out.failure ≡ none → (row : Row) × In row (first ∷ rest) × (row.account.id ≡ out.account_id)
unfolding take_turn
take_turn-picks g best first rest replacement route s h =
    let plan = plan_of g.service.tuning g.ask.model g.now first rest in
    let at = next_at s.next (cursor_of g best) in
    let row = pick_row first rest (place plan at) in
    (
      row,
      pick_row-In first rest (place plan at),
      sym (
          save-account_id g.scene.commit
            (failing g.scene.writes (bind g.ask g.now replacement row.account.id s.affinities)) _ _
            _ row.account.id h),
    )

-- The schedule returns an account that is fit, with the rank that the survey found the best.
pub record IsScheduled (g : Gate) (rows : List Row) (route : Route) (id : String) : Type 0 where
  pub serves : Serves g rows id
  pub tally : Tally
  pub surveyed_as :
      survey g rows (record new_tally { exclusions = route.exclusions }) ≡ (tally, none)
  pub ranked : rank_of g serves.row.account ≡ tally.best_rank

turn_among-IsScheduled :
    (g : Gate) (rows : List Row) (replacement : Option Affinity) (route seen : Route) (s : Router)
    (t : Tally) (found : List Row)
    → survey g rows (record new_tally { exclusions = route.exclusions }) ≡ (t, none)
    → t.candidates ≡ found
    → let out = turn_among g t replacement seen s found in
      out.failure ≡ none → IsScheduled g rows route out.account_id
unfolding turn_among
turn_among-IsScheduled g rows replacement route seen s t [] e c h =
    refused s "" seen (no_candidate g t) h
turn_among-IsScheduled g rows replacement route seen s t (first ∷ rest) e c h =
    let (row, inside, named) = take_turn-picks g t.best_rank first rest replacement seen s h in
    let (in_rows, fits) = survey_sound g rows row route.exclusions t e (rw c inside) in
    let (servable, ranked) = look_at-fit g row t.best_rank fits in
    record {
      serves = record { row = row; in_rows = in_rows; named = named; servable = servable };
      tally = t;
      surveyed_as = e;
      ranked = sym ranked;
    }

surveyed-IsScheduled :
    (g : Gate) (rows : List Row) (replacement : Option Affinity) (route : Route) (s : Router)
    (told : Tally × Option Failure)
    → survey g rows (record new_tally { exclusions = route.exclusions }) ≡ told
    → let out = surveyed g replacement route s told in
      out.failure ≡ none → IsScheduled g rows route out.account_id
unfolding surveyed
surveyed-IsScheduled g rows replacement route s (t, some e) told h =
    refused s "" (record route { exclusions = t.exclusions }) e h
surveyed-IsScheduled g rows replacement route s (t, none) told h =
    turn_among-IsScheduled g rows replacement route (record route { exclusions = t.exclusions }) s t
      t.candidates told refl h

pub schedule-IsScheduled :
    (g : Gate) (rows : List Row) (replacement : Option Affinity) (route : Route) (s : Router)
    → let out = schedule g rows replacement route s in
      out.failure ≡ none → IsScheduled g rows route out.account_id
unfolding schedule
schedule-IsScheduled g rows replacement route s h =
    surveyed-IsScheduled g rows replacement route s
      (survey g rows (record new_tally { exclusions = route.exclusions })) refl h

-- An account that the schedule returns has the best rank: no account of the pool that is fit has
-- a better one.
pub schedule-best :
    (g : Gate) (rows : List Row) (replacement : Option Affinity) (route : Route) (s : Router)
    (x : Row) (r : ℕ)
    → (schedule g rows replacement route s).failure ≡ none
    → In x rows
    → look_at g x ≡ fit r
    → (row : Row) × In row rows
      × (row.account.id ≡ (schedule g rows replacement route s).account_id)
      × (rank_of g row.account ≤ r)
schedule-best g rows replacement route s x r h m looked =
    let chosen = schedule-IsScheduled g rows replacement route s h in
    let other =
      survey_complete g rows x r route.exclusions chosen.tally chosen.surveyed_as m looked in
    (
      chosen.serves.row,
      chosen.serves.in_rows,
      chosen.serves.named,
      ground (arith, chosen.ranked, other),
    )

forget_parent :
    (g : Gate) (rows : List Row) (id hint : String)
    → Serves (record g { parent_account = hint }) rows id
    → Serves g rows id
forget_parent g rows id hint v =
    let w = v.servable in
    record {
      row = v.row;
      in_rows = v.in_rows;
      named = v.named;
      servable = record {
        provider_on = w.provider_on;
        provider_allowed = w.provider_allowed;
        in_pool = w.in_pool;
        kind_fits = w.kind_fits;
        model_allowed = w.model_allowed;
        supported = w.supported;
        free = w.free;
        has_quota = w.has_quota;
        model_free = w.model_free;
        allowance_left = w.allowance_left;
      };
    }

with_parent-Serves :
    (g : Gate) (rows : List Row) (replacement : Option Affinity) (route : Route) (s : Router)
    (hint : Result String)
    → let out = with_parent g rows replacement route s hint in
      out.failure ≡ none → Serves g rows out.account_id
unfolding with_parent
with_parent-Serves g rows replacement route s (err e) h = refused s "" route e h
with_parent-Serves g rows replacement route s (ok id) h =
    forget_parent g rows
      (schedule (record g { parent_account = id }) rows replacement route s).account_id id
      (schedule-IsScheduled (record g { parent_account = id }) rows replacement route s h).serves

start_over-Serves :
    (g : Gate) (rows : List Row) (replacement : Option Affinity) (s : Router)
    → let out = start_over g rows replacement s in out.failure ≡ none → Serves g rows out.account_id
unfolding start_over
start_over-Serves g rows replacement s h =
    with_parent-Serves g rows replacement (record new_route { parent_fallback = has_parent g.ask })
      s (parent_account g.scene g.now g.ask s.affinities) h

follow-Serves :
    (g : Gate) (rows : List Row) (b : Affinity) (s : Router) (way : Result Bound)
    → bound g rows b ≡ way
    → let out = follow g rows b s way in out.failure ≡ none → Serves g rows out.account_id
unfolding follow
follow-Serves g rows b s (err e) w h = refused s b.account_id affinity_route e h
follow-Serves g rows b s (ok reselects) w h = start_over-Serves g rows (some b) s h
follow-Serves g rows b s (ok stays) w h =
    rw
      (save-account_id g.scene.commit (failing g.scene.writes (extend g.ask g.now b s.affinities)) s
        _ _ b.account_id h)
      (bound-Serves g rows b w)

with_binding-Serves :
    (g : Gate) (rows : List Row) (s : Router) (found : Result (Option Affinity))
    → let out = with_binding g rows s found in out.failure ≡ none → Serves g rows out.account_id
unfolding with_binding
with_binding-Serves g rows s (err e) h = refused s "" new_route e h
with_binding-Serves g rows s (ok none) h = start_over-Serves g rows none s h
with_binding-Serves g rows s (ok (some b)) h = follow-Serves g rows b s (bound g rows b) refl h

-- The pool's own rule lets the model's name through, and the account serves.
pub record IsRouted (g : Gate) (rows : List Row) (id : String) : Type 0 where
  pub serves : Serves g rows id
  pub model_in_policy : (has_model g && not (allows g.policy (requested g.ask))) ≡ false

select_in_pool-IsRouted :
    (g : Gate) (rows : List Row) (s : Router)
    → let out = select_in_pool g rows s in out.failure ≡ none → IsRouted g rows out.account_id
unfolding select_in_pool
select_in_pool-IsRouted g rows s =
    let P = λ (out : Selected). out.failure ≡ none → IsRouted g rows out.account_id in
    let banned = has_model g && not (allows g.policy (requested g.ask)) in
    let over : Route = record new_route {
      exclusions = record no_exclusions { policy = min max_route_count (length rows) };
    } in
    let found = failing g.scene.reads (
      session_binding (conversation g.ask g.ask.digest) (unix g.now) s.affinities
        (scope_of g.ask)) in
    let fresh_start = start_over g rows none s in
    let bound' = with_binding g rows s found in
    if_either P banned (refuse s "" over (plain model_not_allowed))
      (if g.ask.session == "" then fresh_start else bound')
      (λ off h. refused s "" over (plain model_not_allowed) h)
      (λ on.
        if_either P (g.ask.session == "") fresh_start bound'
          (λ no' h. record { serves = start_over-Serves g rows none s h; model_in_policy = on })
          (λ yes' h. record {
            serves = with_binding-Serves g rows s found h;
            model_in_policy = on;
          }))

-- What a selection with no error has established: who asked, what was read, and that the
-- account serves at the state that the service then has.
pub record IsEntitled (x : Scene) (now : ℕ) (ask : Ask) (s : Router) (id : String) : Type 0 where
  pub member_named : (ask.user_id == 0 || ask.group_id == 0) ≡ false
  pub provider_on :
      (not (ask.provider == "") && not (provider_enabled x.codex_only ask.provider)) ≡ false
  pub states : List RuntimeRow
  pub loaded : x.load ≡ ok states
  pub pool : Pool
  pub read : read_pool x ≡ ok pool
  pub routed : IsRouted (opened x now ask (load_runtime states s.service) pool) pool.rows id

with_pool-IsRouted :
    (x : Scene) (now : ℕ) (ask : Ask) (s : Router) (m : Result Pool)
    → let out = with_pool x now ask s m in
      out.failure ≡ none
      → (p : Pool) × (m ≡ ok p) × IsRouted (opened x now ask s.service p) p.rows out.account_id
unfolding with_pool
with_pool-IsRouted x now ask s (err e) h = refused s "" new_route e h
with_pool-IsRouted x now ask s (ok p) h =
    (p, refl, select_in_pool-IsRouted (opened x now ask s.service p) p.rows s h)

with_accounts-IsRouted :
    (x : Scene) (now : ℕ) (ask : Ask) (s : Router) (m : Result (List RuntimeRow))
    → let out = with_accounts x now ask s m in
      out.failure ≡ none
      → (states : List RuntimeRow) × (m ≡ ok states)
        × (p : Pool) × (read_pool x ≡ ok p)
        × IsRouted (opened x now ask (load_runtime states s.service) p) p.rows out.account_id
unfolding with_accounts
with_accounts-IsRouted x now ask s (err e) h = refused s "" new_route e h
with_accounts-IsRouted x now ask s (ok states) h =
    let loaded : Router = record s { service = load_runtime states s.service } in
    let (p, read, routed) = with_pool-IsRouted x now ask loaded (read_pool x) h in
    (states, refl, p, read, routed)

-- A selection that ends with no error names its member and pool, asks for no provider that is off,
-- and returns a row of the pool that is in the pool's accounts, whose provider is on and allowed by
-- the pool's policy, whose kind of protocol and model fit the request, and that is admitted with
-- its runtime state, its quota, its model's state and the member's allowance.
pub select_account-IsEntitled :
    (x : Scene) (now : ℕ) (ask : Ask) (s : Router)
    → (select_account x now ask s).failure ≡ none
    → IsEntitled x now ask s (select_account x now ask s).account_id
unfolding select_account
select_account-IsEntitled x now ask s =
    let P = λ (out : Selected). out.failure ≡ none → IsEntitled x now ask s out.account_id in
    let nobody = ask.user_id == 0 || ask.group_id == 0 in
    let off = not (ask.provider == "") && not (provider_enabled x.codex_only ask.provider) in
    let out = with_accounts x now ask s x.load in
    if_either P nobody (refuse s "" new_route (plain invalid_input))
      (if off then refuse s "" new_route (plain provider_disabled) else out)
      (λ yes' h. refused s "" new_route (plain invalid_input) h)
      (λ named.
        if_either P off (refuse s "" new_route (plain provider_disabled)) out
          (λ yes' h. refused s "" new_route (plain provider_disabled) h)
          (λ on h.
            let (states, loaded, p, read, routed) = with_accounts-IsRouted x now ask s x.load h in
            record {
              member_named = named;
              provider_on = on;
              states = states;
              loaded = loaded;
              pool = p;
              read = read;
              routed = routed;
            }))
