-- ===== src/Allowance/Check.antt =====
-- The accounting of an allowance, internal/allocations/accounting.go, and `Check` of runtime.go.
use sub_lane.Base.{
  any, length, ℕ, ◌+◌, ◌-◌, min, max, String, Bool, true, false, not, ◌&&◌, ◌||◌, Option, none,
  some, List, [], ◌∷◌, ltb, leb, if◌then◌else◌, ◌==◌, string_eq, nat_eq,
}
use sub_lane.Failure.{
  Result, ◌>>◌, ◌>>=◌, unless, allocation_quota, allocation_risk, allocation_unpriced,
  allocation_unavailable, plain, err, ok,
}
use sub_lane.Allowance.{
  Condition, Share, Config, Window, Revision, member_limit, reservation, window_total, entry_mode,
  effective_windows,
}

-- A row of AllocationActiveEntries.
pub record Entry : Type 0 where
  pub user_id : ℕ
  pub revision_id : ℕ
  pub started_at : ℕ

-- The queries: `entries` by user (0 for all) and span, `config_of` a revision's stored rules.
pub record Ledger : Type 0 where
  pub group_of_scheme : Result ℕ
  pub may_use : Result Bool
  pub current : Result Revision
  pub entries : ℕ → ℕ → ℕ → Result (List Entry)
  pub config_of : ℕ → Result Config
  pub member_used : ℕ → Window → Result ℕ
  pub group_used : Window → Result ℕ

-- The span of the windows whose limit counts, if there is one.
unfoldable pub span : Bool → Config → Share → List Window → Option (ℕ × ℕ)
unfolding member_limit
span one c m [] = none
span one c m (w ∷ ws) =
    let rest = span one c m ws in
    if one && c.mode == "windows" && member_limit c m w == 0 then rest else elim rest [
      | none ↦ some (w.start, w.stop)
      | some (from, to) ↦ some (min w.start from, max w.stop to)
    ]

-- accounting.entries
unfoldable pub active_entries : Ledger → Config → List Window → ℕ → Share → Result (List Entry)
unfolding span
active_entries led c ws user m =
    let scope = if c.mode == "ratio" then 0 else user in
    elim (span (not (scope == 0)) c m ws) [
      | none ↦ ok []
      | some (from, to) ↦ led.entries scope from to >>= λ rows.
          unless (ltb 4096 (length rows)) (plain allocation_risk) >> ok rows
    ]

-- The limit of the last condition with the window's duration.
unfoldable pub captured_limit : ℕ → ℕ → List Condition → ℕ
captured_limit seconds limit [] = limit
captured_limit seconds limit (c ∷ cs) =
    captured_limit seconds (if c.seconds == seconds then c.limit else limit) cs

-- What the rules that an entry was admitted by hold back for it.
unfoldable pub held_for : Config → ℕ → Window → List Share → ℕ
unfolding member_limit reservation captured_limit
held_for c user w [] = 0
held_for c user w (m ∷ ms) =
    let rest = held_for c user w ms in
    if m.user_id == user
    then (let limit =
          member_limit c m (record w { limit = captured_limit w.seconds w.limit c.windows }) in
        if not (c.mode == "windows") || not (limit == 0) then reservation limit else 0)
    else rest

-- The loop of accounting.reservations: the entries in the window and what is held back for them.
unfoldable pub reserve : Ledger → ℕ → Window → List Entry → Result (ℕ × ℕ)
unfolding held_for
reserve led user w [] = ok (0, 0)
reserve led user w (e ∷ es) =
    let rest = reserve led user w es in
    if ltb e.started_at w.start
      || leb w.stop e.started_at
      || (not (user == 0) && not (e.user_id == user))
    then rest
    else led.config_of e.revision_id >>= λ c.
        rest >>= λ counted. ok (counted.0 + 1, counted.1 + held_for c e.user_id w c.members)

unfoldable pub reservations : Ledger → Config → List Window → ℕ → Share → Window → Result (ℕ × ℕ)
unfolding active_entries reserve
reservations led c ws user m w = active_entries led c ws user m >>= λ rows. reserve led user w rows

-- memberWindowUsage, as admission reads it.
pub record MemberUsage : Type 0 where
  pub limit : ℕ
  pub unlimited : Bool
  pub used : ℕ
  pub active : ℕ
  pub held : ℕ

-- accounting.member, but for the two tests of its risk budget; its second query is for reports.
unfoldable pub member_usage : Ledger → Config → List Window → Share → Window → Result MemberUsage
unfolding member_limit reservations
member_usage led c ws m w = led.member_used m.user_id w >>= λ used.
    let limit = member_limit c m w in
    if c.mode == "windows" && limit == 0
    then ok (record { limit = limit; unlimited = true; used = used; active = 0; held = 0 })
    else reservations led c ws m.user_id m w >>= λ counted. ok (record {
      limit = limit;
      unlimited = false;
      used = used;
      active = counted.0;
      held = counted.1;
    })

-- risk.room and risk.limited
unfoldable pub member_room : MemberUsage → ℕ
unfolding reservation
member_room u = (u.limit + reservation u.limit) - (u.used + u.held)

unfoldable pub is_risky : MemberUsage → Bool
unfolding member_room reservation
is_risky u =
    if u.unlimited then false else leb 4 u.active || ltb (member_room u) (reservation u.limit)

pub record GroupUsage : Type 0 where
  pub used : ℕ
  pub room : ℕ

-- accounting.group
unfoldable pub group_usage : Ledger → Config → List Window → Window → Result GroupUsage
unfolding window_total reservations reservation
group_usage led c ws w = led.group_used w >>= λ used.
    reservations led c ws 0 (record { user_id = 0; limit = 0; overrides = [] }) w >>= λ counted.
    let limit = window_total c w in
    ok (record { used = used; room = (limit + reservation limit) - (used + counted.1) })

-- One window: its refusal, or whether it is at risk.
unfoldable pub check_member : MemberUsage → Result Bool
unfolding is_risky
check_member u =
    if not u.unlimited && leb u.limit u.used then err (plain allocation_quota) else ok (is_risky u)

unfoldable pub check_group : Config → Window → MemberUsage → Result GroupUsage → Result Bool
unfolding window_total reservation
check_group c w u (err e) = err e
check_group c w u (ok g) =
    if leb (window_total c w) g.used
    then err (plain allocation_quota)
    else ok (ltb g.room (reservation u.limit))

-- riskLimited = riskLimited || ...
abbrev pub with_risk : Bool → Result Bool → Result Bool
with_risk risky (err e) = err e
with_risk risky (ok other) = ok (risky || other)

unfoldable pub check_shared :
    Ledger → Config → List Window → Window → MemberUsage → Bool → Result Bool
unfolding group_usage check_group
check_shared led c ws w u risky =
    if c.mode == "ratio"
    then with_risk risky (check_group c w u (group_usage led c ws w))
    else ok risky

unfoldable pub check_window : Ledger → Config → List Window → Share → Window → Result Bool
unfolding member_usage check_member check_shared
check_window led c ws m w =
    member_usage led c ws m w >>= λ u. check_member u >>= λ risky. check_shared led c ws w u risky

unfoldable pub check_windows : Ledger → Config → List Window → Share → List Window → Result Bool
unfolding check_window
check_windows led c ws m [] = ok false
check_windows led c ws m (w ∷ rest) =
    check_window led c ws m w >>= λ risky. with_risk risky (check_windows led c ws m rest)

-- The loop over the members of the rules.
unfoldable pub check_members : Ledger → Config → List Window → ℕ → List Share → Result (Unit {0})
unfolding check_windows
check_members led c ws user [] = ok tt
check_members led c ws user (m ∷ ms) =
    let rest = check_members led c ws user ms in
    if not (m.user_id == user)
    then rest
    else check_windows led c ws m ws >>= λ risky. unless risky (plain allocation_risk) >> rest

-- Authorize
unfoldable pub authorize : Ledger → ℕ → ℕ → Result Revision
unfolding any
authorize led user group = elim led.group_of_scheme [
  | err e ↦ err (plain allocation_unavailable)
  | ok owner ↦
      unless (not (owner == group)) (plain allocation_unavailable)
      >> (led.may_use >>= λ allowed.
          unless (not allowed) (plain allocation_unavailable)
          >> (led.current >>= λ r.
              unless (not (any (λ m. m.user_id == user) r.config.members))
                (plain allocation_unavailable)
              >> ok r))
]

-- Check
unfoldable pub check : Ledger → ℕ → ℕ → String → ℕ → (Config → ℕ × ℕ) → Result Revision
unfolding authorize entry_mode any effective_windows check_members
check led user group model now calendar = authorize led user group >>= λ r.
    unless
      (entry_mode r.config == "amount" && not (any (λ rate. rate.model == model) r.config.rates))
      (plain allocation_unpriced)
    >> (check_members led r.config (effective_windows r now (calendar r.config)) user
          r.config.members
        >> ok r)
