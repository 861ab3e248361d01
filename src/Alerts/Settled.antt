-- ===== src/Alerts/Settled.antt =====
-- What an observation leaves behind: observe of internal/alerts/alerts.go.
use text.Mathlib.TextEquality.{eq_iff}
use sub_lane.Base.{
  In, ℕ, String, ◌≡◌, refl, sym, ◌∙◌, subst, ◌⊎◌, inl, inr, true, false, ◌||◌, none, [], arith,
  Bool-cases, ◌==◌, string_eq, nat_eq, int_eq,
}
use sub_lane.Alerts.{
  Signal, AlertState, Rows, key_of, Poll, seed, merge, is_signalled, cycle_of, is_new_cycle,
  stays_unknown, is_told_in_cycle, is_same, observe_row, observe,
}
use sub_lane.Alerts.Passed.{is_settled, observe_rows-settled}
use sub_lane.Alerts.Entered.{Listed, merge-In, seed-In, seed-IsDistinct}
use sub_lane.Alerts.Covered.{
  HasKey, observe_rows-HasKey, observe-HasKey, observe_rows-passes, signalled,
}
use sub_lane.Alerts.Doubted.{IsDoubtful, uncertain-IsDoubtful, IsChange, observe_rows-from}
use sub_lane.Alerts.Merged.{Separate, merge-has, seed-Keyed, merge-Keyed}
use sub_lane.Alerts.Incidents.{Separate-Apart}

observe_row-settled_none :
    (o : Poll) (later : ℕ) (key id : String) (s : AlertState)
    → (stays_unknown o key s || is_told_in_cycle o key s || is_same o key s) ≡ true
    → observe_row (record o { now = later }) key id s ≡ none
unfolding observe_row
observe_row-settled_none o later key id s h = ground arith

settled_says :
    (o : Poll) (key : String) (s : AlertState)
    → (stays_unknown o key s || is_told_in_cycle o key s || is_same o key s) ≡ true
    → (s.active ≡ is_signalled o.signals key)
      ⊎ ((is_signalled o.signals key ≡ false) × IsDoubtful o.unknown key s)
      ⊎ ((is_signalled o.signals key ≡ true) × (s.kind ≡ "allowance_low") × (s.event_id ≡ "" → ⊥))
unfolding stays_unknown is_told_in_cycle is_same
settled_says o key s h = elim (Bool-cases (stays_unknown o key s)) [
  | inl unknown ↦ inr (inl (ground arith, uncertain-IsDoubtful o.unknown key s (ground arith)))
  | inr known ↦ elim (Bool-cases (is_told_in_cycle o key s)) [
    | inl told ↦ inr (
        inr (
          ground arith,
          (eq_iff s.kind "allowance_low").0 (ground arith),
          λ blank. absurd (ground (arith, eq_iff s.event_id "")),
        ))
    | inr untold ↦ inl (ground arith)
  ]
]

settled-cycle :
    (o : Poll) (key : String) (s : AlertState)
    → (stays_unknown o key s || is_told_in_cycle o key s || is_same o key s) ≡ true
    → s.kind ≡ "allowance_low"
    → is_signalled o.signals key ≡ true
    → s.cycle ≡ cycle_of o.cycles key
unfolding stays_unknown is_told_in_cycle is_same is_new_cycle
settled-cycle o key s h low here =
    (eq_iff s.cycle (cycle_of o.cycles key)).0
      (ground (arith, (eq_iff s.kind "allowance_low").1 low))

-- The row that is assumed of a signalled incident that has none: no event and nothing told.
abbrev pub IsFirst : Poll → Rows → AlertState → Type 0
IsFirst o rows s =
    (s.event_id ≡ "")
    × (s.delivered_active ≡ false)
    × (is_signalled o.signals (key_of s.kind s.subject) ≡ true)
    × ((t : AlertState) → In t rows → key_of t.kind t.subject ≡ key_of s.kind s.subject → ⊥)

-- A row after an observation of the rows of before.
pub record IsObserved (o : Poll) (rows : Rows) (r : AlertState) : Type 0 where
  pub says :
      (r.active ≡ is_signalled o.signals (key_of r.kind r.subject))
      ⊎ ((is_signalled o.signals (key_of r.kind r.subject) ≡ false)
          × IsDoubtful o.unknown (key_of r.kind r.subject) r)
      ⊎ ((is_signalled o.signals (key_of r.kind r.subject) ≡ true)
          × (r.kind ≡ "allowance_low")
          × (r.event_id ≡ "" → ⊥))
  pub of_cycle :
      r.kind ≡ "allowance_low"
      → is_signalled o.signals (key_of r.kind r.subject) ≡ true
      → r.cycle ≡ cycle_of o.cycles (key_of r.kind r.subject)
  pub origin :
      In r rows
      ⊎ ((s : AlertState) × (In s rows ⊎ IsFirst o rows s)
          × IsChange o (key_of r.kind r.subject) s r)

entry-before :
    (o : Poll) (rows : Rows) (entry : Listed)
    → In entry (merge rows (seed o.signals []))
    → (entry.0 ≡ key_of entry.1.kind entry.1.subject) × (In entry.1 rows ⊎ IsFirst o rows entry.1)
entry-before o rows entry there =
    let seeded = seed o.signals [] in
    elim (merge-In rows seeded entry (seed-IsDistinct o.signals [] tt) there) [
      | inl (old, own) ↦ (own, inl old)
      | inr (new, others) ↦ elim (seed-In o.signals [] entry new) [
        | inl nothing ↦ elim nothing [ ]
        | inr (blank, untold, (x, told, kind, subject, own)) ↦
            let same : entry.0 ≡ key_of entry.1.kind entry.1.subject =
              own ∙ sym (rw (kind, subject) refl) in
            (
              same,
              inr (
                blank,
                untold,
                rw (kind, subject) (signalled o.signals x told),
                λ t member key. absurd (
                    ground (
                      arith,
                      others t member,
                      (eq_iff entry.0 (key_of t.kind t.subject)).1 (same ∙ sym key),
                    )),
              ),
            )
      ]
    ]

module _ (ids : ℕ → String) (named : (n : ℕ) → (ids n == "") ≡ false) where
  observe-settled :
      (o : Poll) (n : ℕ) (rows : Rows)
      → Separate rows
      → (r : AlertState) → In r (observe ids o n rows).0
      → is_settled o r ≡ true
  unfolding observe
  observe-settled o n rows apart =
      observe_rows-settled ids named o (merge rows (seed o.signals [])) n rows
        (Separate-Apart rows apart)
        (merge-Keyed rows _ (seed-Keyed o.signals [] (λ e nothing. elim nothing [ ])))
        (λ t old. inr (merge-has rows (seed o.signals []) t apart old))

  observe-origin :
      (o : Poll) (n : ℕ) (rows : Rows) (r : AlertState)
      → In r (observe ids o n rows).0
      → In r rows
        ⊎ ((s : AlertState) × (In s rows ⊎ IsFirst o rows s)
            × IsChange o (key_of r.kind r.subject) s r)
  unfolding observe
  observe-origin o n rows r member =
      elim (observe_rows-from ids o (merge rows (seed o.signals [])) n rows r member) [
        | inl old ↦ inl old
        | inr (entry, there, change) ↦
            let (own, before) = entry-before o rows entry there in
            let (kind, subject) = change.same in
            let key : entry.0 ≡ key_of r.kind r.subject = own ∙ sym (rw (kind, subject) refl) in
            inr (entry.1, before, subst (λ k. IsChange o k entry.1 r) key change)
      ]

  observe-IsObserved :
      (o : Poll) (n : ℕ) (rows : Rows) (r : AlertState)
      → Separate rows
      → In r (observe ids o n rows).0
      → IsObserved o rows r
  observe-IsObserved o n rows r apart member =
      let settled = observe-settled o n rows apart r member in
      let key = key_of r.kind r.subject in
      record {
        says = settled_says o key r settled;
        of_cycle = settled-cycle o key r settled;
        origin = observe-origin o n rows r member;
      }

  -- Nothing is saved where every row is settled and every signal has one.
  settled-passes :
      (o : Poll) (later : ℕ) (k : ℕ) (rows : Rows)
      → ((r : AlertState) → In r rows → is_settled o r ≡ true)
      → ((x : Signal) → In x o.signals → HasKey (key_of x.kind x.subject) rows)
      → observe ids (record o { now = later }) k rows ≡ (rows, k)
  unfolding observe
  settled-passes o later k rows settled has =
      let seeded = seed o.signals [] in
      observe_rows-passes ids (record o { now = later }) (merge rows seeded) k rows
        (λ entry there. elim (merge-In rows seeded entry (seed-IsDistinct o.signals [] tt) there) [
          | inl (old, own) ↦ rw (own) (
              observe_row-settled_none o later (key_of entry.1.kind entry.1.subject) (ids k) entry.1
                (settled entry.1 old))
          | inr (new, others) ↦ elim (seed-In o.signals [] entry new) [
            | inl nothing ↦ elim nothing [ ]
            | inr (blank, untold, (x, told, kind, subject, own)) ↦
                let (t, member, same) = has x told in
                absurd (
                  ground (
                    arith,
                    others t member,
                    (eq_iff entry.0 (key_of t.kind t.subject)).1 (own ∙ sym same),
                  ))
          ]
        ])

  -- Where the identifiers of events are not blank and no two rows have one key, after an observation:
  -- each row is active exactly if it is signalled, or it is not signalled and nothing is known of it,
  -- or it is a signalled allowance that drew an event; a signalled allowance is of the cycle of the
  -- observation; each row is one of before or the change of one of before, or the first of a signalled
  -- incident that had none, of which nothing is told; and a change is signalled or something is known
  -- of it, has nothing tried, and forgets what the destination knows in a new cycle only. Each signal has a row, and so has each row of before. The
  -- same observation at any later time changes no row and draws no event.
  pub observe-IsSettled :
      (o : Poll) (n : ℕ) (rows : Rows) (later k : ℕ)
      → Separate rows
      → let after = (observe ids o n rows).0 in
        ((r : AlertState) → In r after → IsObserved o rows r)
        × ((x : Signal) → In x o.signals → HasKey (key_of x.kind x.subject) after)
        × ((s : AlertState) → In s rows → HasKey (key_of s.kind s.subject) after)
        × (observe ids (record o { now = later }) k after ≡ (after, k))
  unfolding observe
  observe-IsSettled o n rows later k apart = (
    λ r member. observe-IsObserved o n rows r apart member,
    observe-HasKey ids o n rows,
    λ s old.
        observe_rows-HasKey ids o (merge rows (seed o.signals [])) n rows (key_of s.kind s.subject)
          (s, old, refl),
    settled-passes o later k (observe ids o n rows).0 (observe-settled o n rows apart)
        (observe-HasKey ids o n rows),
  )
