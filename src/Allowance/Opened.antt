-- ===== src/Allowance/Opened.antt =====
-- How many requests of a member an allowance leaves open: internal/allocations/runtime.go.
use sub_lane.Failure.{
  ◌>>=◌, Result-cases, unless_ok, bind_ok, ok_injective, allocation_unpriced, plain, ok,
}
use sub_lane.Allowance.Admitted.{IsCovered, then_ok, check-IsCovered}
use sub_lane.Base.{
  count, In, lookup, insert, ℕ, ◌+◌, ◌≤◌, ◌<◌, String, ◌≡◌, refl, sym, ap, ◌∙◌, subst, inl, inr,
  Bool, true, false, ◌&&◌, List, [], ◌∷◌, arith, if◌then◌else◌, Option-cases, ◌==◌, string_eq,
  nat_eq, int_eq,
}
use sub_lane.Allowance.{
  Share, Config, Window, Revision, member_limit, entry_mode, effective_windows,
}
use sub_lane.Allowance.Check.{
  Ledger, active_entries, reserve, reservations, MemberUsage, member_usage, check_members,
  authorize, check,
}
use sub_lane.Allowance.Entries.{
  EntryRow, Entries, used, mode_of, over_table, effective_window, Request, opened_row, insert_entry,
  begin,
}
use sub_lane.Allowance.Spans.{is_open, reserve-count, active_entries-count}

abbrev unlimited_usage : Config → Share → Window → ℕ → MemberUsage
unlimited_usage c m w used = record {
  limit = member_limit c m w;
  unlimited = true;
  used = used;
  active = 0;
  held = 0;
}

abbrev metered : Config → Share → Window → ℕ → ℕ × ℕ → MemberUsage
metered c m w used counted = record {
  limit = member_limit c m w;
  unlimited = false;
  used = used;
  active = counted.0;
  held = counted.1;
}

-- The usage of a window with a limit, once what is used is read.
limited_usage :
    (led : Ledger) (c : Config) (ws : List Window) (m : Share) (w : Window) (u : MemberUsage)
    → member_usage led c ws m w ≡ ok u
    → (c.mode == "windows" && member_limit c m w == 0) ≡ false
    → (counted : ℕ × ℕ) × (reservations led c ws m.user_id m w ≡ ok counted)
      × (u.unlimited ≡ false)
      × (u.active ≡ counted.0)
unfolding member_usage
limited_usage led c ws m w u h limited =
    let (used, known, more) =
      bind_ok (led.member_used m.user_id w)
        (λ used.
          if c.mode == "windows" && member_limit c m w == 0
          then ok (unlimited_usage c m w used)
          else reservations led c ws m.user_id m w >>= λ counted. ok (metered c m w used counted))
        u h in
    let (counted, read, total) =
      bind_ok (reservations led c ws m.user_id m w) (λ counted. ok (metered c m w used counted)) u
        (rw limited at more) in
    (counted, read, ground arith, ground arith)

-- A member's usage reads as many open requests as the table has.
member_usage-count :
    (led : Ledger) (scheme : ℕ) (table : Entries) (c : Config) (ws : List Window) (m : Share)
    (w : Window) (u : MemberUsage)
    → member_usage (over_table led scheme table) c ws m w ≡ ok u
    → (m.user_id ≡ 0 → ⊥)
    → In w ws
    → (c.mode == "windows" && member_limit c m w == 0) ≡ false
    → (u.unlimited ≡ false)
      × (count (is_open scheme m.user_id (mode_of led.current) w) table ≤ u.active)
member_usage-count led scheme table c ws m w u h named i limited =
    let led' = over_table led scheme table in
    let (counted, read, bounded, active') = limited_usage led' c ws m w u h limited in
    let (rows, found, totals) =
      bind_ok (active_entries led' c ws m.user_id m) (reserve led' m.user_id w) counted
        (unfold reservations in read) in
    (
      bounded,
      omega (
        arith,
        active_entries-count led scheme table c ws m w rows found named i limited,
        reserve-count led' m.user_id w rows counted totals,
      ),
    )

count-insert-le :
    (p : String × EntryRow → Bool) (id : String) (e : EntryRow) (table : Entries)
    → count p (insert id e table) ≤ count p table + 1
unfolding count insert
count-insert-le p id e [] = ground arith
count-insert-le p id e ((at, x) ∷ rest) = ground (arith, count-insert-le p id e rest)

insert_entry-inserts :
    (id : String) (e : EntryRow) (table opened_row' : Entries)
    → insert_entry id e table ≡ ok opened_row'
    → opened_row' ≡ insert id e table
unfolding insert_entry
insert_entry-inserts id e table opened_row' h = elim (Option-cases (lookup id table)) [
  | inl free ↦ ground (arith, free, h)
  | inr (x, taken) ↦ absurd (ground (arith, taken, h))
]

-- The rules that let a request through are the scheme's present ones.
authorize-current :
    (led : Ledger) (user group : ℕ) (r : Revision)
    → authorize led user group ≡ ok r
    → led.current ≡ ok r
unfolding authorize
authorize-current led user group r h = elim (Result-cases led.current) [
  | inl (e, failed) ↦ absurd (ground (arith, failed, h))
  | inr (s, present) ↦ ground (arith, present, h)
]

check-current :
    (led : Ledger) (user group : ℕ) (model : String) (now : ℕ) (calendar : Config → ℕ × ℕ)
    (r : Revision)
    → check led user group model now calendar ≡ ok r
    → led.current ≡ ok r
unfolding check
check-current led user group model now calendar r h =
    let (s, allowed, more) = bind_ok (authorize led user group) _ r h in
    let (rated, on) = unless_ok _ (plain allocation_unpriced) _ r more in
    let (checked, same) =
      then_ok
        (check_members led s.config (effective_windows s now (calendar s.config)) user
          s.config.members)
        s r on in
    authorize-current led user group s allowed ∙ ap ok same

over_table-current :
    (led : Ledger) (scheme : ℕ) (table : Entries)
    → (over_table led scheme table).current ≡ led.current
unfolding over_table
over_table-current led scheme table = refl

-- A request that is let through finds three open ones at most.
covered_within :
    (led : Ledger) (scheme : ℕ) (table : Entries) (c : Config) (ws : List Window) (m : Share)
    (w : Window)
    → IsCovered (over_table led scheme table) c ws m w
    → (m.user_id ≡ 0 → ⊥)
    → In w ws
    → (c.mode == "windows" && member_limit c m w == 0) ≡ false
    → count (is_open scheme m.user_id (mode_of led.current) w) table < 4
covered_within led scheme table c ws m w covered named i limited =
    let (bounded, few) =
      member_usage-count led scheme table c ws m w covered.usage covered.read named i limited in
    elim covered.within [
      | inl unbounded ↦ absurd (ground (arith, bounded, unbounded))
      | inr (below, open', held) ↦ omega arith
    ]

-- A member whose windows have limits: after `Begin` at most four of its requests are open in each,
-- by the rows of the table.
pub begin_within :
    (led : Ledger) (r : Request) (now : ℕ) (calendar : Config → ℕ × ℕ) (rev : Revision) (m : Share)
    (w : Window) (table written : Entries)
    → begin led r now calendar table ≡ ok written
    → led.current ≡ ok rev
    → In m rev.config.members
    → m.user_id ≡ r.user_id
    → 0 < m.user_id
    → In w (effective_windows rev now (calendar rev.config))
    → (rev.config.mode == "windows" && member_limit rev.config m w == 0) ≡ false
    → count (is_open r.scheme_id m.user_id (entry_mode rev.config) w) written ≤ 4
unfolding mode_of
begin_within led r now calendar rev m w table written h present i same named shown limited =
    let led' = over_table led r.scheme_id table in
    let (s, allowed, more) =
      bind_ok (check led' r.user_id r.group_id r.model now calendar)
        (λ s.
          insert_entry r.id
            (opened_row r s (effective_window (effective_windows s now (calendar s.config)))) table)
        written (unfold begin in h) in
    let it : s ≡ rev = ok_injective (
      sym (check-current led' r.user_id r.group_id r.model now calendar s allowed)
      ∙ (over_table-current led r.scheme_id table ∙ present)) in
    let admitted =
      subst (λ x. check led' r.user_id r.group_id r.model now calendar ≡ ok x) it allowed in
    let covered =
      check-IsCovered led' r.user_id r.group_id r.model now calendar rev m w admitted i same
        shown in
    let few : count (is_open r.scheme_id m.user_id (entry_mode rev.config) w) table < 4 =
      subst (λ x. count (is_open r.scheme_id m.user_id (mode_of x) w) table < 4) present
        (covered_within led r.scheme_id table rev.config
          (effective_windows rev now (calendar rev.config)) m w covered (λ e. omega arith) shown
          limited) in
    let row = opened_row r s (effective_window (effective_windows s now (calendar s.config))) in
    rw (insert_entry-inserts r.id row table written more) (
      omega (
        arith,
        count-insert-le (is_open r.scheme_id m.user_id (entry_mode rev.config) w) r.id row table,
      ))
