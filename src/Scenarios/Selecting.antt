-- ===== src/Scenarios/Selecting.antt =====
-- A pool of two accounts, one of them an API channel, at concrete requests.
use sub_lane.Base.{
  any, In, lookup, insert, ℕ, ◌≤◌, ◌<◌, ◌≡◌, refl, ◌⊎◌, inl, true, false, none, List, [], ◌∷◌,
  arith, string_eq, nat_eq, int_eq,
}
use sub_lane.Failure.{ok}
use sub_lane.Groups.{ModelPolicy}
use sub_lane.Groups.Laws.{routing}
use sub_lane.Gateway.State.{default_tuning}
use sub_lane.Gateway.Route.{no_exclusions}
use sub_lane.Gateway.Quota.{RawUsage}
use sub_lane.Gateway.Catalog.{Catalog}
use sub_lane.Gateway.Lease.{RuntimeRow, has_row}
use sub_lane.Gateway.Balance.Runs.{new_service}
use sub_lane.Gateway.Selection.{preferred_provider, Ask, Row, Scene, chat, pinned}
use sub_lane.Gateway.Selection.Rotation.{sum, period, weighted, cursor_eq}
use sub_lane.Gateway.Selection.Turns.{served, share, served-share}
use sub_lane.Gateway.Admission.{runtime_admission}
use sub_lane.Gateway.Selection.Survey.{survey_complete}
use sub_lane.Gateway.Selection.Candidates.{Gate, rank_of, look_at, Tally, new_tally, survey, fit}
use sub_lane.Gateway.Affinity.{Affinity}
use sub_lane.Gateway.Affinity.Rows.{IsBound, HasKeys}
use sub_lane.Gateway.Selection.Bound.{conversation, extend}
use sub_lane.Gateway.Selection.Sticky.{extend-IsBound, bind-IsBound}
use sub_lane.Gateway.Selection.Choose.{Router, new_route, bind, schedule, select_account}
use sub_lane.Gateway.Selection.Entitled.{schedule-best, IsEntitled, select_account-IsEntitled}
use sub_lane.Scenarios.Leases.{one_slot, account_rows, acct, gpt_row}

-- A cursor that a larger pool has left.
served-share_example : served (weighted (2 ∷ 3 ∷ [])) 1 5 9 ≡ 3
unfolding period sum share
served-share_example = served-share (weighted (2 ∷ 3 ∷ [])) 1 9 (omega arith)

abbrev pub models : Catalog
models = record { models = "gpt" ∷ []; source = "v1"; updated_at = 50 }

abbrev pub no_usage : RawUsage
no_usage = record { size = 0; parsed = none; has_limits = false }

abbrev pub acct_row : Row
acct_row = record { account = acct; catalog = ok models; usage = no_usage; usage_updated_at = none }

abbrev pub channel_row : Row
channel_row = record {
  account = record acct { id = "chan"; provider = "openai" };
  catalog = ok models;
  usage = no_usage;
  usage_updated_at = none;
}

abbrev pub pool_policy : ModelPolicy
pool_policy = record {
  routing = routing "subscription_first" true;
  has_subscriptions = true;
  restricted = false;
  models = [];
}

abbrev pub both_rows : List RuntimeRow
both_rows = record { id = "chan"; start = one_slot; lifecycle = 1 } ∷ account_rows

abbrev pub scene : Scene
scene = record {
  codex_only = false;
  load = ok both_rows;
  rows = ok (channel_row ∷ acct_row ∷ []);
  members_of_pool = ok ("acct" ∷ "chan" ∷ []);
  policy = ok pool_policy;
  catalog_source = λ provider. "v1";
  model_row = λ id. ok gpt_row;
  allowance = λ id. none;
  reads = none;
  writes = none;
  commit = none;
}

abbrev asks : Ask
asks = record {
  user_id = 7;
  group_id = 1;
  session = "s";
  digest = "d";
  provider = "";
  model = "gpt";
  kind = chat;
  scheme = 0;
  affinity = pinned;
  parent_thread = "";
  parent_digest = "";
}

abbrev pub router : Router
router = record { service = new_service default_tuning; next = []; affinities = [] }

abbrev pub at_100 : ℕ
at_100 = 100000000000

selects : (select_account scene at_100 asks router).failure ≡ none
unfolding select_account insert has_row runtime_admission
selects = refl

-- The subscription comes before the channel that stands first in the pool.
selects_subscription : (select_account scene at_100 asks router).account_id ≡ "acct"
unfolding select_account insert has_row runtime_admission
selects_subscription = refl

select_account-IsEntitled_example :
    IsEntitled scene at_100 asks router (select_account scene at_100 asks router).account_id
select_account-IsEntitled_example = select_account-IsEntitled scene at_100 asks router selects

abbrev pub gate : Gate
gate = record {
  service = record (new_service default_tuning) {
    health = ("chan", one_slot) ∷ ("acct", one_slot) ∷ [];
  };
  scene = scene;
  ask = asks;
  policy = pool_policy;
  allowed = "acct" ∷ "chan" ∷ [];
  parent_account = "";
  now = at_100;
}

abbrev two_rows : List Row
two_rows = channel_row ∷ acct_row ∷ []

abbrev seen : Tally
seen = (survey gate two_rows new_tally).0

surveys : survey gate two_rows (record new_tally { exclusions = no_exclusions }) ≡ (seen, none)
unfolding survey lookup runtime_admission preferred_provider
surveys = refl

channel_fits : look_at gate channel_row ≡ fit 4
unfolding look_at lookup runtime_admission preferred_provider
channel_fits = refl

schedules : (schedule gate two_rows none new_route router).failure ≡ none
unfolding schedule runtime_admission
schedules = refl

survey_complete_example :
    (seen.best_rank < 4) ⊎ ((seen.best_rank ≡ 4) × In channel_row seen.candidates)
survey_complete_example =
    survey_complete gate two_rows channel_row 4 no_exclusions seen surveys (inl refl) channel_fits

schedule-best_example :
    (row : Row) × In row two_rows
    × (row.account.id ≡ (schedule gate two_rows none new_route router).account_id)
    × (rank_of gate row.account ≤ 4)
schedule-best_example =
    schedule-best gate two_rows none new_route router channel_row 4 schedules (inl refl)
      channel_fits

-- A binding that the conversation made a while ago.
abbrev binding : Affinity
binding = record {
  user_id = 7;
  group_id = 1;
  digest = "d";
  provider = "auto";
  account_id = "acct";
  model = "gpt";
  expires_at = 40000;
  rebound = false;
}

abbrev extended : Affinity
extended = record binding { expires_at = 86500 }

extends : extend asks at_100 binding (binding ∷ []) ≡ ok (extended ∷ [])
unfolding extend
extends = refl

one_row : HasKeys (binding ∷ [])
unfolding any
one_row = (refl, tt)

extend-IsBound_example : IsBound (conversation asks "d") 80000 (extended ∷ []) "auto" "acct"
extend-IsBound_example =
    extend-IsBound asks at_100 80000 binding (binding ∷ []) (extended ∷ []) extends one_row
      (inl refl) refl (omega arith)

binds : bind asks at_100 none "acct" [] ≡ ok (extended ∷ [])
unfolding bind
binds = refl

bind-IsBound_example : IsBound (conversation asks "d") 80000 (extended ∷ []) "auto" "acct"
bind-IsBound_example =
    bind-IsBound asks at_100 80000 none "acct" [] (extended ∷ []) binds refl tt (omega arith)
