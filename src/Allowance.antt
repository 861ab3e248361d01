-- ===== src/Allowance.antt =====
-- Allowances of members: the rules of internal/allocations/allocations.go, the windows of
-- calendar.go, the accounting of accounting.go, and `Check` of runtime.go. Instants are Unix seconds.
pub mod Calendar
pub mod Laws
pub mod Check
pub mod Admitted
pub mod Normalize
pub mod Fair
pub mod Entries
pub mod Charged
pub mod Spans
pub mod Opened
pub mod Revisions
pub mod Changes
pub mod Funding
pub mod Funded
pub mod Membership
pub mod Preview
use sub_lane.Base.{
  ℕ, ◌+◌, ◌-◌, ◌*◌, ◌/◌, max, String, ◌||◌, List, [], ◌∷◌, ltb, if◌then◌else◌, ◌==◌, string_eq,
  nat_eq,
}
use sub_lane.Failure.{Result, allocation_input, plain, err, ok}

-- MemberWindowLimit and WindowCondition have the same two fields.
pub record Condition : Type 0 where
  pub seconds : ℕ
  pub limit : ℕ

pub record Share : Type 0 where
  pub user_id : ℕ
  pub limit : ℕ
  pub overrides : List Condition

-- Rate, in micro-USD for a million tokens.
pub record Rate : Type 0 where
  pub model : String
  pub input : ℕ
  pub cached : ℕ
  pub output : ℕ

pub record Config : Type 0 where
  pub mode : String
  pub period : String
  pub reset_time : String
  pub reset_day : ℕ
  pub members : List Share
  pub rates : List Rate
  pub ratio_unit : String
  pub windows : List Condition
  pub total : ℕ

-- allocationWindow
pub record Window : Type 0 where
  pub kind : String
  pub start : ℕ
  pub stop : ℕ
  pub seconds : ℕ
  pub limit : ℕ

pub record Revision : Type 0 where
  pub id : ℕ
  pub config : Config
  pub anchor : ℕ

-- ratioLimit: a share is in hundredths of a percent.
unfoldable pub ratio_limit : ℕ → ℕ → ℕ
ratio_limit total share = total * share / 10000

unfoldable pub override_or : ℕ → ℕ → List Condition → ℕ
override_or seconds fallback [] = fallback
override_or seconds fallback (c ∷ cs) =
    if c.seconds == seconds then c.limit else override_or seconds fallback cs

unfoldable pub member_limit : Config → Share → Window → ℕ
unfolding ratio_limit override_or
member_limit c m w =
    if c.mode == "ratio"
    then ratio_limit (if c.period == "durations" then w.limit else c.total) m.limit
    else if c.mode == "windows"
    then override_or w.seconds w.limit m.overrides
    else m.limit

-- A tenth of the limit, rounded up, and at least 1.
unfoldable pub reservation : ℕ → ℕ
reservation limit = max 1 ((limit + 9) / 10)

unfoldable pub window_total : Config → Window → ℕ
window_total c w = if c.period == "durations" then w.limit else c.total

unfoldable pub entry_mode : Config → String
entry_mode c =
    if c.mode == "ratio" then c.ratio_unit else if c.mode == "windows" then "amount" else c.mode

-- durationWindow, for a duration that is not 0: Go panics on a division by 0.
unfoldable pub duration_window : ℕ → ℕ → ℕ → Window
duration_window now anchor seconds =
    let start = if ltb now anchor then anchor else anchor + (now - anchor) / seconds * seconds in
    record { kind = ""; start = start; stop = start + seconds; seconds = 0; limit = 0 }

unfoldable pub duration_windows : ℕ → ℕ → List Condition → List Window
unfolding duration_window
duration_windows now anchor [] = []
duration_windows now anchor (c ∷ cs) =
    record (duration_window now anchor c.seconds) {
      kind = "duration";
      seconds = c.seconds;
      limit = c.limit;
    }
    ∷ duration_windows now anchor cs

-- effectiveWindows; `calendar` is what `Window` finds in the workspace's time zone.
unfoldable pub effective_windows : Revision → ℕ → ℕ × ℕ → List Window
unfolding duration_windows
effective_windows r now calendar =
    if r.config.period == "durations"
    then duration_windows now r.anchor r.config.windows
    else record {
      kind = r.config.period;
      start = max calendar.0 r.anchor;
      stop = calendar.1;
      seconds = 0;
      limit = 0;
    }
      ∷ []

-- The exact price of a request, in millionths of a micro-USD.
abbrev pub exact_cost : Rate → ℕ → ℕ → ℕ → ℕ
exact_cost r input output cached =
    (input - cached) * r.input + cached * r.cached + output * r.output

-- Cost, on tokens and rates that are not negative.
unfoldable pub cost : Rate → ℕ → ℕ → ℕ → Result ℕ
cost r input output cached =
    if ltb input cached || ltb 1000000000 input || ltb 1000000000 output
    then err (plain allocation_input)
    else let sum = (exact_cost r input output cached + 999999) / 1000000 in
      if ltb 9223372036854775807 sum then err (plain allocation_input) else ok sum
