-- ===== src/Allowance/Spans.antt =====
-- The open requests that the accounting of an allowance counts: internal/allocations/accounting.go.
use sub_lane.Failure.{
  ◌>>◌, ◌>>=◌, unless, unless_ok, bind_ok, ok_injective, allocation_risk, plain, ok,
}
use sub_lane.Base.{
  count, length, In, ℕ, ◌+◌, ◌≤◌, min, max, String, ◌≡◌, refl, sym, ◌∙◌, subst, ◌⊎◌, inl, inr, Bool,
  false, not, ◌&&◌, ◌||◌, Option, none, some, List, [], ◌∷◌, arith, ltb, leb, if◌then◌else◌,
  Bool-cases, Option-cases, if_either, ◌==◌, string_eq, nat_eq, int_eq,
}
use sub_lane.Allowance.{Share, Config, Window, member_limit}
use sub_lane.Allowance.Check.{Entry, Ledger, span, active_entries, held_for, reserve}
use sub_lane.Allowance.Entries.{is_active, EntryRow, Entries, falls, open_rows, mode_of, over_table}

-- An open request of the member in the window, as the rows of the table say.
abbrev pub is_open : ℕ → ℕ → String → Window → String × EntryRow → Bool
is_open scheme user mode w (id, e) = falls scheme user w.start w.stop mode e && is_active e.state

abbrev pub counts_for : ℕ → Window → Entry → Bool
counts_for user w e = not (
    ltb e.started_at w.start
    || leb w.stop e.started_at
    || (not (user == 0) && not (e.user_id == user)))

-- What the loop of the reservations counts.
pub reserve-count :
    (led : Ledger) (user : ℕ) (w : Window) (es : List Entry) (counted : ℕ × ℕ)
    → reserve led user w es ≡ ok counted
    → counted.0 ≡ count (counts_for user w) es
unfolding reserve count
reserve-count led user w [] counted h = ground arith
reserve-count led user w (e ∷ es) counted h =
    elim (Bool-cases (
      ltb e.started_at w.start
      || leb w.stop e.started_at
      || (not (user == 0) && not (e.user_id == user)))) [
        | inl skipped ↦ rw skipped (reserve-count led user w es counted (rw skipped at h))
        | inr counts ↦
            let (c, captured, more) =
              bind_ok (led.config_of e.revision_id)
                (λ c. reserve led user w es >>= λ rest.
                  ok (rest.0 + 1, rest.1 + held_for c e.user_id w c.members))
                counted (rw counts at h) in
            let (rest, again, total) =
              bind_ok (reserve led user w es)
                (λ rest. ok (rest.0 + 1, rest.1 + held_for c e.user_id w c.members)) counted more in
            rw counts (ground (arith, reserve-count led user w es rest again))
      ]

-- A window inside the span that the query asks for loses no row.
pub open_rows-count :
    (scheme scope user from to : ℕ) (mode : String) (w : Window) (table : Entries)
    → (user ≡ 0 → ⊥)
    → from ≤ w.start
    → w.stop ≤ to
    → (scope ≡ 0) ⊎ (scope ≡ user)
    → count (is_open scheme user mode w) table
      ≤ count (counts_for user w) (open_rows scheme scope from to mode table)
unfolding count open_rows
open_rows-count scheme scope user from to mode w [] u f t s = omega arith
open_rows-count scheme scope user from to mode w ((id, e) ∷ rest) u f t s =
    ground (arith, open_rows-count scheme scope user from to mode w rest u f t s)

-- The span of the windows covers each that has a limit.
abbrev pub skips : Bool → Config → Share → Window → Bool
skips one c m w = one && c.mode == "windows" && member_limit c m w == 0

abbrev pub Covers : Option (ℕ × ℕ) → Window → Type 0
Covers none w = ⊥
Covers (some (from, to)) w = (from ≤ w.start) × (w.stop ≤ to)

-- The span with one more window, which is not skipped.
abbrev pub widened : Window → Option (ℕ × ℕ) → Option (ℕ × ℕ)
widened w rest = elim rest [
  | none ↦ some (w.start, w.stop)
  | some (from, to) ↦ some (min w.start from, max w.stop to)
]

pub widened-Covers_own : (w : Window) (rest : Option (ℕ × ℕ)) → Covers (widened w rest) w
widened-Covers_own w none = (omega arith, omega arith)
widened-Covers_own w (some (from, to)) = (omega arith, omega arith)

pub widened-Covers :
    (v w : Window) (rest : Option (ℕ × ℕ)) → Covers rest w → Covers (widened v rest) w
widened-Covers v w none h = absurd h
widened-Covers v w (some (from, to)) h = (omega arith, omega arith)

pub span-cons :
    (one : Bool) (c : Config) (m : Share) (v : Window) (vs : List Window)
    → span one c m (v ∷ vs)
      ≡ (if skips one c m v then span one c m vs else widened v (span one c m vs))
unfolding span
span-cons one c m v vs = refl

-- The span of the windows covers each that has a limit.
pub span-Covers :
    (one : Bool) (c : Config) (m : Share) (ws : List Window) (w : Window)
    → In w ws
    → skips one c m w ≡ false
    → Covers (span one c m ws) w
span-Covers one c m [] w i h = absurd i
span-Covers one c m (v ∷ vs) w (inl same) h =
    rw (span-cons one c m v vs, sym same, h) (widened-Covers_own w (span one c m vs))
span-Covers one c m (v ∷ vs) w (inr later) h =
    let rest = span-Covers one c m vs w later h in
    rw (span-cons one c m v vs) (
      if_either (λ o. Covers o w) (skips one c m v) _ _ (λ skipped. rest)
        (λ counts. widened-Covers v w (span one c m vs) rest))

pub scope_of : Config → ℕ → ℕ
scope_of c user = if c.mode == "ratio" then 0 else user

pub scope_of-cases : (c : Config) (user : ℕ) → (scope_of c user ≡ 0) ⊎ (scope_of c user ≡ user)
unfolding scope_of
scope_of-cases c user = ground arith

pub active_entries-found :
    (led : Ledger) (c : Config) (ws : List Window) (user : ℕ) (m : Share) (from to : ℕ)
    → span (not (scope_of c user == 0)) c m ws ≡ some (from, to)
    → active_entries led c ws user m ≡ (
        led.entries (scope_of c user) from to >>= λ rows.
        unless (ltb 4096 (length rows)) (plain allocation_risk) >> ok rows)
unfolding scope_of active_entries
active_entries-found led c ws user m from to found = rw (found, active_entries)

pub active_entries-count :
    (led : Ledger) (scheme : ℕ) (table : Entries) (c : Config) (ws : List Window) (m : Share)
    (w : Window) (rows : List Entry)
    → active_entries (over_table led scheme table) c ws m.user_id m ≡ ok rows
    → (m.user_id ≡ 0 → ⊥)
    → In w ws
    → (c.mode == "windows" && member_limit c m w == 0) ≡ false
    → count (is_open scheme m.user_id (mode_of led.current) w) table
      ≤ count (counts_for m.user_id w) rows
active_entries-count led scheme table c ws m w rows h u i limited =
    let scope = scope_of c m.user_id in
    let covered = span-Covers (not (scope == 0)) c m ws w i (ground (arith, limited)) in
    elim (Option-cases (span (not (scope == 0)) c m ws)) [
      | inl lost ↦ absurd (rw lost at covered)
      | inr ((from, to), found) ↦
          let (starts, stops) : (from ≤ w.start) × (w.stop ≤ to) = rw found at covered in
          let table_rows = open_rows scheme scope from to (mode_of led.current) table in
          let read =
            sym (active_entries-found (over_table led scheme table) c ws m.user_id m from to found)
            ∙ h in
          let (few, same) =
            unless_ok (ltb 4096 (length table_rows)) (plain allocation_risk) (ok table_rows) rows
              (unfold over_table in read) in
          subst
            (λ xs.
              count (is_open scheme m.user_id (mode_of led.current) w) table
              ≤ count (counts_for m.user_id w) xs)
            (ok_injective same)
            (open_rows-count scheme scope m.user_id from to (mode_of led.current) w table u starts
              stops (scope_of-cases c m.user_id))
    ]
