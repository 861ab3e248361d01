-- ===== src/Alerts/Observed.antt =====
-- The events that rows carry after an observation: observe of internal/alerts/alerts.go.
use sub_lane.Base.{
  In, insert, Map, ℕ, suc, String, ◌≡◌, refl, sym, ap, ◌∙◌, subst, ◌⊎◌, inl, inr, Bool, true, false,
  none, some, List, [], ◌∷◌, arith, if◌then◌else◌, Bool-cases, Option-cases, ◌==◌, string_eq,
  nat_eq, int_eq,
}
use sub_lane.Alerts.{
  Signal, AlertState, Rows, save_state, Poll, seed, merge, is_signalled, changed, is_new_cycle,
  stays_unknown, is_told_in_cycle, is_same, observe_row, observe_rows, observe, Event,
}
use sub_lane.Alerts.Saved.{save_state-In, Told, Kept, Kept-more}

-- A row is saved only past the three tests.
pub past_tests :
    (a b c : Bool) (x r : AlertState)
    → (if a then none else if b then none else if c then none else some x) ≡ some r
    → (a ≡ false) × (b ≡ false) × (c ≡ false) × (x ≡ r)
past_tests true b c x r h = absurd (ground arith)
past_tests false true c x r h = absurd (ground arith)
past_tests false false true x r h = absurd (ground arith)
past_tests false false false x r h = (refl, refl, refl, ground arith)

changed-kept :
    (o : Poll) (key id : String) (here new_cycle : Bool) (s : AlertState)
    → (changed o key id here new_cycle s).delivered_active ≡ true
    → s.delivered_active ≡ true
unfolding changed
changed-kept o key id here true s h = absurd (ground arith)
changed-kept o key id here false s h = h

-- What a row that is saved for a change keeps.
pub observe_row-kept :
    (o : Poll) (key id : String) (s r : AlertState)
    → observe_row o key id s ≡ some r
    → (r.event_id ≡ id)
      × (r.kind ≡ s.kind)
      × (r.subject ≡ s.subject)
      × (r.delivered_active ≡ true → s.delivered_active ≡ true)
unfolding observe_row
observe_row-kept o key id s r saved =
    let made =
      (past_tests (stays_unknown o key s) (is_told_in_cycle o key s) (is_same o key s)
        (changed o key id (is_signalled o.signals key) (is_new_cycle o key s) s) r saved).3 in
    subst
      (λ t.
        (t.event_id ≡ id)
        × (t.kind ≡ s.kind)
        × (t.subject ≡ s.subject)
        × (t.delivered_active ≡ true → s.delivered_active ≡ true))
      made
      (
        unfold changed in refl,
        unfold changed in refl,
        unfold changed in refl,
        changed-kept o key id (is_signalled o.signals key) (is_new_cycle o key s) s,
      )

pub insert-In :
    (k : String) (v : AlertState) (m : Map String AlertState) (entry : String × AlertState)
    → In entry (insert k v m)
    → In entry m ⊎ (entry ≡ (k, v))
unfolding insert
insert-In k v [] entry h = elim h [ inl same ↦ inr same | inr nothing ↦ inl nothing ]
insert-In k v ((j, w) ∷ m) entry h = elim (Bool-cases (j == k)) [
  | inl found ↦
      let new : (entry ≡ (k, v)) ⊎ In entry m = rw (found, insert) at h in
      elim new [ inl same ↦ inr same | inr later ↦ inl (inr later) ]
  | inr other ↦
      let kept : (entry ≡ (j, w)) ⊎ In entry (insert k v m) = rw (other, insert) at h in
      elim kept [
        | inl same ↦ inl (inl same)
        | inr later ↦ elim (insert-In k v m entry later) [
          | inl old ↦ inl (inr old)
          | inr new ↦ inr new
        ]
      ]
]

-- Every state of a map of existing incidents is told.
abbrev AllTold : List Event → Map String AlertState → Type 0
AllTold heard m = (entry : String × AlertState) → In entry m → Told heard entry.1

insert-AllTold :
    (heard : List Event) (k : String) (v : AlertState) (m : Map String AlertState)
    → AllTold heard m
    → Told heard v
    → AllTold heard (insert k v m)
insert-AllTold heard k v m all_told told entry member = elim (insert-In k v m entry member) [
  | inl old ↦ all_told entry old
  | inr new ↦ subst (Told heard) (sym (ap (λ (e : String × AlertState). e.1) new)) told
]

seed-AllTold :
    (heard : List Event) (signals : List Signal) (m : Map String AlertState)
    → AllTold heard m
    → AllTold heard (seed signals m)
unfolding seed
seed-AllTold heard [] m all_told = all_told
seed-AllTold heard (s ∷ signals) m all_told =
    seed-AllTold heard signals _
      (insert-AllTold heard _ _ m all_told (λ knows. absurd (ground arith)))

merge-AllTold :
    (heard : List Event) (rows : Rows) (m : Map String AlertState)
    → AllTold heard m
    → ((s : AlertState) → In s rows → Told heard s)
    → AllTold heard (merge rows m)
unfolding merge
merge-AllTold heard [] m all_told told = all_told
merge-AllTold heard (s ∷ rows) m all_told told =
    merge-AllTold heard rows _ (insert-AllTold heard _ _ m all_told (told s (inl refl)))
      (λ t later. told t (inr later))

module _ (ids : ℕ → String) (distinct : (j k : ℕ) → ids j ≡ ids k → j ≡ k) where
  observe_rows-Kept :
      (o : Poll) (existing : Map String AlertState) (n : ℕ) (heard : List Event) (rows : Rows)
      → AllTold heard existing
      → Kept ids n heard (λ s. In s rows)
      → Kept ids
          (observe_rows ids o existing n rows).1
          heard
          (λ s. In s (observe_rows ids o existing n rows).0)
  unfolding observe_rows
  observe_rows-Kept o [] n heard rows all_told known = known
  observe_rows-Kept o ((key, s) ∷ rest) n heard rows all_told known =
      elim (Option-cases (observe_row o key (ids n) s)) [
        | inl same ↦
            rw (same, observe_rows)
              (observe_rows-Kept o rest n heard rows (λ e later. all_told e (inr later)) known)
        | inr (r, saved) ↦
            let (drawn, kind, subject, tells) = observe_row-kept o key (ids n) s r saved in
            rw (saved, observe_rows)
              (observe_rows-Kept o rest (suc n) heard (save_state r rows)
                (λ e later. all_told e (inr later))
                (Kept-more ids distinct n heard r known drawn
                  (λ knows.
                    let (e, member, same_kind, same_subject, firing) =
                      all_told (key, s) (inl refl) (tells knows) in
                    (e, member, same_kind ∙ sym kind, same_subject ∙ sym subject, firing))
                  (λ t. save_state-In r t rows)))
      ]

  pub observe-Kept :
      (o : Poll) (n : ℕ) (heard : List Event) (rows : Rows)
      → Kept ids n heard (λ s. In s rows)
      → Kept ids (observe ids o n rows).1 heard (λ s. In s (observe ids o n rows).0)
  unfolding observe
  observe-Kept o n heard rows known =
      observe_rows-Kept o (merge rows (seed o.signals [])) n heard rows
        (merge-AllTold heard rows _
          (seed-AllTold heard o.signals [] (λ e none_yet. elim none_yet [ ])) known.told)
        known
