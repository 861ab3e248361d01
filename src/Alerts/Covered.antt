-- ===== src/Alerts/Covered.antt =====
-- That no incident loses its row and each signal has one: observe of internal/alerts/alerts.go.
use text.Mathlib.TextEquality.{eq_iff}
use sub_lane.Base.{
  In, In-any, Map, ℕ, suc, String, ◌≡◌, refl, sym, ap, ◌∙◌, subst, inl, inr, true, ◌&&◌, none, List,
  [], ◌∷◌, arith, Bool-cases, Option-cases, ◌==◌, string_eq, nat_eq, int_eq,
}
use sub_lane.Alerts.{
  Signal, AlertState, Rows, key_of, save_state, Poll, seed, merge, is_signalled, stays_unknown,
  is_told_in_cycle, is_same, observe_row, observe_rows, observe,
}
use sub_lane.Alerts.Observed.{observe_row-kept}
use sub_lane.Alerts.Entered.{Listed, merge-In, seed-In, seed-has, merge-HasEntry, seed-IsDistinct}

-- A row stands under a key.
abbrev pub HasKey : String → Rows → Type 0
HasKey k rows = (t : AlertState) × In t rows × (key_of t.kind t.subject ≡ k)

save_state_self : (s : AlertState) (rows : Rows) → In s (save_state s rows)
unfolding save_state
save_state_self s [] = inl refl
save_state_self s (r ∷ rows) = elim (Bool-cases (r.kind == s.kind && r.subject == s.subject)) [
  | inl found ↦ rw (found, save_state) (inl refl)
  | inr other ↦ rw (other, save_state) (inr (save_state_self s rows))
]

same_key :
    (r s : AlertState)
    → (r.kind == s.kind && r.subject == s.subject) ≡ true
    → key_of s.kind s.subject ≡ key_of r.kind r.subject
same_key r s h =
    let kind : r.kind ≡ s.kind = ground (arith, eq_iff r.kind s.kind) in
    let subject : r.subject ≡ s.subject = ground (arith, eq_iff r.subject s.subject) in
    rw (kind, subject) refl

save_state-HasKey :
    (s : AlertState) (rows : Rows) (k : String) → HasKey k rows → HasKey k (save_state s rows)
unfolding save_state
save_state-HasKey s [] k (t, member, key) = elim member [ ]
save_state-HasKey s (r ∷ rows) k (t, member, key) =
    elim (Bool-cases (r.kind == s.kind && r.subject == s.subject)) [
      | inl found ↦
          rw (found, save_state)
            (elim member [
              | inl same ↦ (
                s,
                inl refl,
                same_key r s found
                    ∙ sym (ap (λ (u : AlertState). key_of u.kind u.subject) same)
                    ∙ key,
              )
              | inr later ↦ (t, inr later, key)
            ])
      | inr other ↦
          rw (other, save_state)
            (elim member [
              | inl same ↦ (t, inl same, key)
              | inr later ↦
                  let (u, there, own) = save_state-HasKey s rows k (t, later, key) in
                  (u, inr there, own)
            ])
    ]

pub observe_rows-HasKey :
    (ids : ℕ → String) (o : Poll) (existing : Map String AlertState) (n : ℕ) (rows : Rows)
    (k : String)
    → HasKey k rows
    → HasKey k (observe_rows ids o existing n rows).0
unfolding observe_rows
observe_rows-HasKey ids o [] n rows k has = has
observe_rows-HasKey ids o ((key, s) ∷ rest) n rows k has =
    elim (Option-cases (observe_row o key (ids n) s)) [
      | inl passed ↦ rw (passed, observe_rows) (observe_rows-HasKey ids o rest n rows k has)
      | inr (r, saved) ↦
          rw (saved, observe_rows)
            (observe_rows-HasKey ids o rest (suc n) (save_state r rows) k
              (save_state-HasKey r rows k has))
    ]

observe_rows-covers :
    (ids : ℕ → String) (o : Poll) (existing : Map String AlertState) (n : ℕ) (rows : Rows)
    (entry : Listed)
    → In entry existing
    → entry.0 ≡ key_of entry.1.kind entry.1.subject
    → ((id : String) → observe_row o entry.0 id entry.1 ≡ none → ⊥)
    → HasKey entry.0 (observe_rows ids o existing n rows).0
unfolding observe_rows
observe_rows-covers ids o [] n rows entry member own saves = elim member [ ]
observe_rows-covers ids o ((key, s) ∷ rest) n rows entry member own saves =
    elim (Option-cases (observe_row o key (ids n) s)) [
      | inl passed ↦ elim member [
        | inl same ↦ absurd (
            saves (ids n)
              (subst (λ (e : Listed). observe_row o e.0 (ids n) e.1 ≡ none) (sym same) passed))
        | inr later ↦
            rw (passed, observe_rows) (observe_rows-covers ids o rest n rows entry later own saves)
      ]
      | inr (r, saved) ↦
          rw (saved, observe_rows)
            (elim member [
              | inl same ↦
                  let (_, kind, subject, _) = observe_row-kept o key (ids n) s r saved in
                  observe_rows-HasKey ids o rest (suc n) (save_state r rows) entry.0 (
                    r,
                    save_state_self r rows,
                    rw (kind, subject)
                        (ap (λ (e : Listed). key_of e.1.kind e.1.subject) (sym same) ∙ sym own),
                  )
              | inr later ↦
                  observe_rows-covers ids o rest (suc n) (save_state r rows) entry later own saves
            ])
    ]

-- A signalled incident that has drawn no event is saved.
observe_row-saves :
    (o : Poll) (key id : String) (s : AlertState)
    → is_signalled o.signals key ≡ true
    → s.event_id ≡ ""
    → observe_row o key id s ≡ none
    → ⊥
unfolding observe_row stays_unknown is_told_in_cycle is_same
observe_row-saves o key id s here blank passed = absurd (ground (arith, eq_iff s.event_id ""))

pub signalled :
    (signals : List Signal) (x : Signal)
    → In x signals
    → is_signalled signals (key_of x.kind x.subject) ≡ true
unfolding is_signalled
signalled signals x member =
    let key = key_of x.kind x.subject in
    In-any (λ y. key_of y.kind y.subject == key) signals x member ((eq_iff key key).1 refl)

pub observe-HasKey :
    (ids : ℕ → String) (o : Poll) (n : ℕ) (rows : Rows) (x : Signal)
    → In x o.signals
    → HasKey (key_of x.kind x.subject) (observe ids o n rows).0
unfolding observe
observe-HasKey ids o n rows x member =
    let seeded = seed o.signals [] in
    let existing = merge rows seeded in
    let key = key_of x.kind x.subject in
    let (v, there) = merge-HasEntry rows seeded key (seed-has o.signals [] x member) in
    elim (merge-In rows seeded (key, v) (seed-IsDistinct o.signals [] tt) there) [
      | inl (old, own) ↦ observe_rows-HasKey ids o existing n rows key (v, old, sym own)
      | inr (new, others) ↦ elim (seed-In o.signals [] (key, v) new) [
        | inl nothing ↦ elim nothing [ ]
        | inr (blank, untold, (y, told, kind, subject, own)) ↦
            observe_rows-covers ids o existing n rows (key, v) there (rw (kind, subject) own)
              (λ id. observe_row-saves o key id v (signalled o.signals x member) blank)
      ]
    ]

-- An observation that saves nothing.
pub observe_rows-passes :
    (ids : ℕ → String) (o : Poll) (existing : Map String AlertState) (n : ℕ) (rows : Rows)
    → ((entry : Listed) → In entry existing → observe_row o entry.0 (ids n) entry.1 ≡ none)
    → observe_rows ids o existing n rows ≡ (rows, n)
unfolding observe_rows
observe_rows-passes ids o [] n rows passes = refl
observe_rows-passes ids o ((key, s) ∷ rest) n rows passes =
    rw (passes (key, s) (inl refl), observe_rows)
      (observe_rows-passes ids o rest n rows (λ entry later. passes entry (inr later)))
