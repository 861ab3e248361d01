-- ===== src/Allowance/Normalize.antt =====
-- The rules of an allowance as a request's body has them, and `normalize`, which checks and sorts
-- them: internal/allocations/allocations.go and calendar.go.
pub mod Order
pub mod Members
use Prim.Native.Char.{Char}
use sub_lane.Base.{
  all, length, ℕ, ◌+◌, ◌%◌, code, String, Bool, true, false, not, ◌&&◌, ◌||◌, List, [], ◌∷◌, map,
  ltb, leb, nat_beq, if◌then◌else◌, ℤ, under, over, nat_of, pos, Eq, ◌==◌, string_eq, nat_eq,
  int_eq,
}
use sub_lane.Failure.{
  Failure, Result, ◌>>◌, ◌>>=◌, unless, allocation_input, unknown_window_override, plain, ok,
}
use sub_lane.Groups.{split_model}
use sub_lane.Allowance.{Condition, Share, Rate, Config, ratio_limit}

-- MemberWindowLimit and WindowCondition
pub record DraftWindow : Type 0 where
  pub seconds : ℤ
  pub limit : ℤ

pub record DraftShare : Type 0 where
  pub user_id : ℤ
  pub limit : ℤ
  pub overrides : List DraftWindow

pub record DraftRate : Type 0 where
  pub model : String
  pub input : ℤ
  pub cached : ℤ
  pub output : ℤ

pub record Draft : Type 0 where
  pub mode : String
  pub period : String
  pub reset_time : String
  pub reset_day : ℤ
  pub members : List DraftShare
  pub rates : List DraftRate
  pub ratio_unit : String
  pub windows : List DraftWindow
  pub total : ℤ

abbrev pub trillion : ℕ
trillion = 1000000000000

abbrev pub is_empty {ℓ} : {A : Type ℓ} → List A → Bool
is_empty [] = true
is_empty (x ∷ xs) = false

-- seen[key]
unfoldable pub has {ℓ} : {K : Type ℓ} ⦃keys : Eq K⦄ → K → List K → Bool
has key [] = false
has key (x ∷ xs) = x == key || has key xs

-- The pattern ^(?:[01][0-9]|2[0-3]):[0-5][0-9]$ of resetClock.
abbrev digit_to : ℕ → Char → Bool
digit_to last c = leb b'0' (code c) && leb (code c) last

unfoldable pub reset_clock : String → Bool
reset_clock (String.◌∷◌ a (String.◌∷◌ b (String.◌∷◌ c (String.◌∷◌ d (String.◌∷◌ e String.[]))))) =
    ((digit_to b'1' a && digit_to b'9' b) || (nat_beq (code a) b'2' && digit_to b'3' b))
    && nat_beq (code c) b':'
    && digit_to b'5' d
    && digit_to b'9' e
reset_clock text = false

-- validResetSchedule
unfoldable pub valid_reset_schedule : Draft → Bool
unfolding reset_clock
valid_reset_schedule d =
    if d.period == "durations"
    then d.reset_time == "" && d.reset_day == pos 0
    else if not (d.reset_time == "") && not (reset_clock d.reset_time)
    then false
    else if d.period == "day"
    then d.reset_day == pos 0
    else not (under d.reset_day 0) && not (over d.reset_day 31)

-- validPeriod
unfoldable pub valid_period : Draft → Bool
unfolding valid_reset_schedule
valid_period d =
    if not (valid_reset_schedule d)
    then false
    else if d.period == "durations"
    then d.mode == "windows" || d.mode == "ratio"
    else (d.period == "day" || d.period == "month") && not (d.mode == "windows")

-- The loop of validMemberLimit over a member's own limits.
unfoldable pub valid_overrides : List ℤ → List DraftWindow → Bool
unfolding has
valid_overrides seen [] = true
valid_overrides seen (o ∷ os) =
    let rest = valid_overrides (o.seconds ∷ seen) os in
    if has o.seconds seen || under o.limit 0 || over o.limit trillion then false else rest

abbrev pub has_share : DraftShare → DraftWindow → Bool
has_share m w = ltb 0 (ratio_limit (nat_of w.limit) (nat_of m.limit))

-- validMemberLimit; a negative total has no positive share of it, and counts as 0.
unfoldable pub valid_member_limit : Draft → DraftShare → Bool
unfolding valid_overrides all ratio_limit
valid_member_limit d m =
    if under m.user_id 1 || under m.limit 0 || over m.limit trillion
    then false
    else if d.mode == "ratio"
    then (if under m.limit 1 || over m.limit 10000 || not (is_empty m.overrides)
        then false
        else if d.period == "durations"
        then all (has_share m) d.windows
        else ltb 0 (ratio_limit (nat_of d.total) (nat_of m.limit)))
    else if d.mode == "windows"
    then (if not (m.limit == pos 0) then false else valid_overrides [] m.overrides)
    else over m.limit 0 && is_empty m.overrides

abbrev pub refused : Failure
refused = plain allocation_input

-- The first test of normalize.
unfoldable pub bad_shape : Draft → Bool
bad_shape d =
    (not (d.mode == "tokens")
      && not (d.mode == "amount")
      && not (d.mode == "ratio")
      && not (d.mode == "windows"))
    || is_empty d.members
    || ltb 100 (length d.members)
    || ltb 4096 (length d.rates)

-- The tests of the total and its unit.
unfoldable pub bad_total : Draft → Bool
bad_total d =
    if d.mode == "ratio"
    then (not (d.ratio_unit == "tokens") && not (d.ratio_unit == "amount"))
      || (d.period == "durations" && not (d.total == pos 0))
      || (not (d.period == "durations") && (under d.total 1 || over d.total trillion))
      || (d.ratio_unit == "tokens" && not (is_empty d.rates))
    else not (d.total == pos 0) || not (d.ratio_unit == "")

-- The test of one window; `seen` are the durations before it.
unfoldable pub bad_window : Bool → List ℤ → DraftWindow → Bool
unfolding has
bad_window ratio seen w =
    under w.seconds 3600
    || over w.seconds 31536000
    || not (nat_beq (nat_of w.seconds % 3600) 0)
    || has w.seconds seen
    || under w.limit 0
    || (ratio && w.limit == pos 0)
    || over w.limit trillion

-- The loop over the windows: the durations seen.
unfoldable pub check_durations : Bool → List ℤ → List DraftWindow → Result (List ℤ)
unfolding bad_window
check_durations ratio seen [] = ok seen
check_durations ratio seen (w ∷ ws) =
    unless (bad_window ratio seen w) refused >> check_durations ratio (w.seconds ∷ seen) ws

abbrev knows_overrides : List ℤ → DraftShare → Bool
knows_overrides seen m = all (λ o. has o.seconds seen) m.overrides

unfoldable pub check_draft_windows : Draft → Result (Unit {0})
unfolding check_durations has all
check_draft_windows d =
    if d.period == "durations"
    then unless (is_empty d.windows || ltb 8 (length d.windows)) refused
      >> (check_durations (d.mode == "ratio") [] d.windows >>= λ seen.
          unless (not (all (knows_overrides seen) d.members)) (plain unknown_window_override))
    else unless (not (is_empty d.windows)) refused

-- The loop over the members: the sum of their limits.
unfoldable pub check_shares : Draft → List ℤ → List DraftShare → Result ℕ
unfolding has valid_member_limit
check_shares d seen [] = ok 0
check_shares d seen (m ∷ ms) =
    unless (has m.user_id seen || not (valid_member_limit d m)) refused
    >> (check_shares d (m.user_id ∷ seen) ms >>= λ sum. ok (nat_of m.limit + sum))

-- len of a model's name: the bytes of its code points in UTF-8.
unfoldable pub bytes : String → ℕ
bytes String.[] = 0
bytes (String.◌∷◌ c s) =
    bytes s
    + (if ltb (code c) 0x80
        then 1
        else if ltb (code c) 0x800
        then 2
        else if ltb (code c) 0x10000
        then 3
        else 4)

-- strings.ContainsAny(model, " \t\n*")
unfoldable pub has_blank : String → Bool
has_blank String.[] = false
has_blank (String.◌∷◌ c s) =
    nat_beq (code c) 32
    || nat_beq (code c) 9
    || nat_beq (code c) 10
    || nat_beq (code c) b'*'
    || has_blank s

unfoldable pub bad_rate : List String → DraftRate → Bool
unfolding split_model bytes has_blank has
bad_rate seen r =
    let model = (split_model r.model).1 in
    model == ""
    || ltb 128 (bytes model)
    || has model seen
    || has_blank model
    || under r.input 1
    || under r.cached 0
    || under r.output 1
    || over r.input 1000000000
    || over r.cached 1000000000
    || over r.output 1000000000

-- The loop over the rates, which drops the provider of each model's name.
unfoldable pub check_rates : List String → List DraftRate → Result (List Rate)
unfolding bad_rate split_model
check_rates seen [] = ok []
check_rates seen (r ∷ rs) =
    unless (bad_rate seen r) refused
    >> (check_rates ((split_model r.model).1 ∷ seen) rs >>= λ rest. ok (
        record {
          model = (split_model r.model).1;
          input = nat_of r.input;
          cached = nat_of r.cached;
          output = nat_of r.output;
        }
        ∷ rest))

-- pricedConfig
unfoldable pub priced_config : Draft → Bool
priced_config d =
    d.mode == "amount" || d.mode == "windows" || (d.mode == "ratio" && d.ratio_unit == "amount")

abbrev pub condition_of : DraftWindow → Condition
condition_of w = record { seconds = nat_of w.seconds; limit = nat_of w.limit }

abbrev pub share_of : DraftShare → Share
share_of m = record {
  user_id = nat_of m.user_id;
  limit = nat_of m.limit;
  overrides = map condition_of m.overrides;
}

-- slices.SortFunc by user, on members whose users differ.
unfoldable pub put : Share → List Share → List Share
put m [] = m ∷ []
put m (x ∷ xs) = let later = put m xs in if ltb m.user_id x.user_id then m ∷ x ∷ xs else x ∷ later

unfoldable pub sort_members : List Share → List Share
unfolding put
sort_members [] = []
sort_members (m ∷ ms) = put m (sort_members ms)

unfoldable pub config_of : Draft → List Rate → Config
unfolding sort_members
config_of d rates = record {
  mode = d.mode;
  period = d.period;
  reset_time = d.reset_time;
  reset_day = nat_of d.reset_day;
  members = sort_members (map share_of d.members);
  rates = rates;
  ratio_unit = d.ratio_unit;
  windows = map condition_of d.windows;
  total = nat_of d.total;
}

unfoldable pub normalize : Draft → Result Config
unfolding bad_shape valid_period bad_total check_draft_windows check_shares priced_config
    check_rates config_of
normalize d =
    unless (bad_shape d || not (valid_period d) || bad_total d) refused
    >> (check_draft_windows d
        >> (check_shares d [] d.members >>= λ sum.
            unless ((d.mode == "ratio" && ltb 10000 sum) || (priced_config d && is_empty d.rates))
              refused
            >> (check_rates [] d.rates >>= λ rates. ok (config_of d rates))))
