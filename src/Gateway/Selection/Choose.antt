-- ===== src/Gateway/Selection/Choose.antt =====
-- `selectAllocationAccount` of internal/gateway/selection.go as a whole, with the route that it
-- explains.
use sub_lane.Base.{
  length, get_elem?, lookup, insert, Map, ℕ, ◌+◌, min, String, Bool, true, false, not, ◌&&◌, ◌||◌,
  Option, none, some, List, [], ◌∷◌, if◌then◌else◌, ◌==◌, string_eq, nat_eq,
}
use sub_lane.Failure.{
  Failure, is, Result, ◌>>=◌, invalid_input, provider_disabled, affinity_unavailable,
  model_not_allowed, plain, ok, err,
}
use sub_lane.Groups.{qualify, ModelPolicy, allows}
use sub_lane.Gateway.State.{unix}
use sub_lane.Gateway.Route.{
  max_route_count, Strategy, Route, no_exclusions, reject, no_strategy, affinity, parent, rotation,
  quota_weighted, selected_route, rejected_route,
}
use sub_lane.Gateway.Service.{Service, model_key_eq}
use sub_lane.Gateway.Lease.{RuntimeRow, load_runtime}
use sub_lane.Gateway.Affinity.{Affinity, session_binding, remember, replace}
use sub_lane.Gateway.Catalog.{catalog_model_id}
use sub_lane.Gateway.Selection.{
  preferred_provider, is_continued, Ask, Row, Scene, failing, provider_enabled,
}
use sub_lane.Gateway.Selection.Candidates.{Gate, has_model, Tally, new_tally, survey, no_candidate}
use sub_lane.Gateway.Selection.Rotation.{
  Cursor, next_at, Plan, plan_of, period, place, advance, even, weighted, cursor_eq,
}
use sub_lane.Gateway.Selection.Bound.{
  Bound, bound, expiry, conversation, new_affinity, scope_of, extend, stays, reselects,
}

-- What a selection reads and changes.
pub record Router : Type 0 where
  pub service : Service
  pub next : Map Cursor ℕ
  pub affinities : List Affinity

-- What it returns: an account's name is returned with some errors too.
pub record Selected : Type 0 where
  pub router : Router
  pub account_id : String
  pub route : Route
  pub failure : Option Failure

abbrev pub new_route : Route
new_route = record {
  strategy = no_strategy;
  result = rejected_route;
  candidates = 0;
  parent_fallback = false;
  exclusions = no_exclusions;
}

abbrev pub is_affinity : Strategy → Bool
is_affinity affinity = true
is_affinity _ = false

-- A return with an error, and the deferred function.
unfoldable pub refuse : Router → String → Route → Failure → Selected
unfolding reject
refuse s id route e = record {
  router = s;
  account_id = id;
  route =
      if is_affinity route.strategy
      then record route { exclusions = reject route.exclusions e }
      else route;
  failure = some e;
}

unfoldable pub succeed : Router → String → Route → Selected
succeed s id route = record {
  router = s;
  account_id = id;
  route = record route { result = selected_route };
  failure = none;
}

-- The writes of the bindings, the commit, and the return; `failed` and `done` are the route on
-- either way.
unfoldable pub save :
    Option Failure → Result (List Affinity) → Router → Route → Route → String → Selected
unfolding refuse succeed
save commit (err e) s failed done id = refuse s "" failed e
save (some e) (ok t) s failed done id = refuse s "" failed e
save none (ok t) s failed done id = succeed (record s { affinities = t }) id done

-- poolAccounts, ReadPolicy and the rows, in one transaction.
pub record Pool : Type 0 where
  pub rows : List Row
  pub allowed : List String
  pub policy : ModelPolicy

unfoldable pub read_pool : Scene → Result Pool
read_pool x = x.rows >>= λ rows. x.members_of_pool >>= λ ids.
    x.policy >>= λ policy. ok (record { rows = rows; allowed = ids; policy = policy })

abbrev pub has_parent : Ask → Bool
has_parent ask = not (ask.parent_thread == "") && not (is_continued ask.affinity)

-- The account of the parent thread's own binding; more bindings than one are no hint.
unfoldable pub parent_account : Scene → ℕ → Ask → List Affinity → Result String
unfolding session_binding
parent_account x now ask t =
    if has_parent ask
    then elim (failing x.reads
        (session_binding (conversation ask ask.parent_digest) (unix now) t "auto")) [
          | err e ↦ if is e affinity_unavailable then ok "" else err e
          | ok none ↦ ok ""
          | ok (some b) ↦ ok b.account_id
        ]
    else ok ""

-- The binding that a scheduled conversation gets.
unfoldable pub bind : Ask → ℕ → Option Affinity → String → List Affinity → Result (List Affinity)
unfolding catalog_model_id remember replace
bind ask now replacement id t =
    let model = catalog_model_id ask.model in
    if ask.session == "" then ok t else elim replacement [
      | none ↦ remember (new_affinity ask now (scope_of ask) id model false) (unix now) t
      | some b ↦
          if b.provider == scope_of ask
          then ok (replace (conversation ask ask.digest) (scope_of ask) id model (expiry now) t)
          else remember (new_affinity ask now (scope_of ask) id model true) (unix now) t
    ]

abbrev pub pick_row : Row → List Row → ℕ → Row
pick_row first rest n = elim (get_elem? (first ∷ rest) n) [ none ↦ first | some row ↦ row ]

abbrev pub strategy_of : Plan → Strategy
strategy_of (even n) = rotation
strategy_of (weighted ws) = quota_weighted

abbrev pub cursor_of : Gate → ℕ → Cursor
cursor_of g best = record {
  group_id = g.ask.group_id;
  scope = scope_of g.ask;
  preference = g.policy.routing.preference;
  preferred = preferred_provider g.ask.kind;
  best_rank = best;
}

-- The end of the function, from the first candidate on. The cursor moves before the writes.
unfoldable pub take_turn : Gate → ℕ → Row → List Row → Option Affinity → Route → Router → Selected
unfolding plan_of place period lookup bind preferred_provider save
take_turn g best first rest replacement route s =
    let plan = plan_of g.service.tuning g.ask.model g.now first rest in
    let at = next_at s.next (cursor_of g best) in
    let id = (pick_row first rest (place plan at)).account.id in
    let moved = record s { next = insert (cursor_of g best) (advance plan at) s.next } in
    let planned = record route {
      strategy = strategy_of plan;
      candidates = min max_route_count (length rest + 1);
    } in
    let told =
      if id == g.parent_account
      then record planned { strategy = parent; parent_fallback = false }
      else planned in
    save g.scene.commit (failing g.scene.writes (bind g.ask g.now replacement id s.affinities))
      moved told told id

-- The candidates that the survey has left.
unfoldable pub turn_among : Gate → Tally → Option Affinity → Route → Router → List Row → Selected
unfolding no_candidate take_turn
turn_among g t replacement seen s [] = refuse s "" seen (no_candidate g t)
turn_among g t replacement seen s (first ∷ rest) =
    take_turn g t.best_rank first rest replacement seen s

unfoldable pub surveyed :
    Gate → Option Affinity → Route → Router → Tally × Option Failure → Selected
unfolding turn_among
surveyed g replacement route s (t, some e) =
    refuse s "" (record route { exclusions = t.exclusions }) e
surveyed g replacement route s (t, none) =
    turn_among g t replacement (record route { exclusions = t.exclusions }) s t.candidates

-- From the survey of the pool on.
unfoldable pub schedule : Gate → List Row → Option Affinity → Route → Router → Selected
unfolding survey surveyed
schedule g rows replacement route s =
    surveyed g replacement route s
      (survey g rows (record new_tally { exclusions = route.exclusions }))

unfoldable pub with_parent :
    Gate → List Row → Option Affinity → Route → Router → Result String → Selected
unfolding schedule
with_parent g rows replacement route s (err e) = refuse s "" route e
with_parent g rows replacement route s (ok id) =
    schedule (record g { parent_account = id }) rows replacement route s

-- From the parent's binding on.
unfoldable pub start_over : Gate → List Row → Option Affinity → Router → Selected
unfolding parent_account with_parent
start_over g rows replacement s =
    with_parent g rows replacement (record new_route { parent_fallback = has_parent g.ask }) s
      (parent_account g.scene g.now g.ask s.affinities)

abbrev pub affinity_route : Route
affinity_route = record new_route { strategy = affinity }

-- The branch of a conversation that is bound.
unfoldable pub follow : Gate → List Row → Affinity → Router → Result Bound → Selected
unfolding extend start_over save
follow g rows b s (err e) = refuse s b.account_id affinity_route e
follow g rows b s (ok reselects) = start_over g rows (some b) s
follow g rows b s (ok stays) =
    save g.scene.commit (failing g.scene.writes (extend g.ask g.now b s.affinities)) s
      affinity_route (record affinity_route { candidates = 1 }) b.account_id

unfoldable pub with_binding : Gate → List Row → Router → Result (Option Affinity) → Selected
unfolding bound follow start_over
with_binding g rows s (err e) = refuse s "" new_route e
with_binding g rows s (ok none) = start_over g rows none s
with_binding g rows s (ok (some b)) = follow g rows b s (bound g rows b)

-- requested
abbrev pub requested : Ask → String
requested ask = if ask.provider == "" then ask.model else qualify ask.provider ask.model

-- From the pool's rows on.
unfoldable pub select_in_pool : Gate → List Row → Router → Selected
unfolding allows session_binding with_binding start_over
select_in_pool g rows s =
    if has_model g && not (allows g.policy (requested g.ask))
    then refuse s ""
        (record new_route {
          exclusions = record no_exclusions { policy = min max_route_count (length rows) };
        })
        (plain model_not_allowed)
    else if g.ask.session == ""
    then start_over g rows none s
    else with_binding g rows s (
        failing g.scene.reads (
          session_binding (conversation g.ask g.ask.digest) (unix g.now) s.affinities
            (scope_of g.ask)))

-- The values that the transaction has read.
abbrev pub opened : Scene → ℕ → Ask → Service → Pool → Gate
opened x now ask s p = record {
  service = s;
  scene = x;
  ask = ask;
  policy = p.policy;
  allowed = p.allowed;
  parent_account = "";
  now = now;
}

unfoldable pub with_pool : Scene → ℕ → Ask → Router → Result Pool → Selected
unfolding select_in_pool
with_pool x now ask s (err e) = refuse s "" new_route e
with_pool x now ask s (ok p) = select_in_pool (opened x now ask s.service p) p.rows s

unfoldable pub with_accounts : Scene → ℕ → Ask → Router → Result (List RuntimeRow) → Selected
unfolding load_runtime read_pool with_pool
with_accounts x now ask s (err e) = refuse s "" new_route e
with_accounts x now ask s (ok states) =
    with_pool x now ask (record s { service = load_runtime states s.service }) (read_pool x)

unfoldable pub select_account : Scene → ℕ → Ask → Router → Selected
unfolding with_accounts
select_account x now ask s =
    if ask.user_id == 0 || ask.group_id == 0
    then refuse s "" new_route (plain invalid_input)
    else if not (ask.provider == "") && not (provider_enabled x.codex_only ask.provider)
    then refuse s "" new_route (plain provider_disabled)
    else with_accounts x now ask s x.load
