-- ===== src/Alerts/Passed.antt =====
-- Which rows the loop over existing passes over: observe of internal/alerts/alerts.go.
use text.Mathlib.TextEquality.{eq_iff}
use sub_lane.Base.{
  In, Map, ℕ, suc, String, ◌≡◌, refl, sym, ap, ◌∙◌, subst, ◌⊎◌, inl, inr, Bool, true, false, ◌||◌,
  none, some, [], ◌∷◌, arith, if◌then◌else◌, Option-cases, ◌==◌, string_eq, nat_eq, int_eq,
}
use sub_lane.Alerts.{
  AlertState, Rows, key_of, agree, save_state, Poll, is_signalled, cycle_of, changed, is_new_cycle,
  stays_unknown, is_told_in_cycle, is_same, observe_row, observe_rows,
}
use sub_lane.Alerts.Observed.{past_tests}
use sub_lane.Alerts.Merged.{Keyed}
use sub_lane.Alerts.Incidents.{Apart, twins_apart, save_state-others, save_state-Apart}

-- A row that the loop would pass over.
abbrev pub is_settled : Poll → AlertState → Bool
is_settled o s =
    let key = key_of s.kind s.subject in
    stays_unknown o key s || is_told_in_cycle o key s || is_same o key s

agree_self : (a : Bool) → agree a a ≡ true
agree_self true = refl
agree_self false = refl

-- A row that has just been saved is settled.
changed-new_cycle :
    (o : Poll) (key id : String) (s : AlertState) (renewed : Bool)
    → renewed ≡ is_new_cycle o key s
    → is_new_cycle o key (changed o key id (is_signalled o.signals key) renewed s) ≡ false
unfolding is_new_cycle changed
changed-new_cycle o key id s true now_new =
    ground (arith, eq_iff (cycle_of o.cycles key) (cycle_of o.cycles key))
changed-new_cycle o key id s false old = sym old

changed-same :
    (o : Poll) (key id : String) (s : AlertState)
    → (id == "") ≡ false
    → is_same o key (changed o key id (is_signalled o.signals key) (is_new_cycle o key s) s) ≡ true
unfolding is_same changed
changed-same o key id s named =
    rw
      (
        named,
        agree_self (is_signalled o.signals key),
        changed-new_cycle o key id s (is_new_cycle o key s) refl,
      )
      refl

or_last : (a b c : Bool) → c ≡ true → (a || b || c) ≡ true
or_last a b c h = ground arith

observe_row-settled :
    (o : Poll) (id : String) (s r : AlertState)
    → (id == "") ≡ false
    → observe_row o (key_of s.kind s.subject) id s ≡ some r
    → (is_settled o r ≡ true) × (r.kind ≡ s.kind) × (r.subject ≡ s.subject)
unfolding observe_row
observe_row-settled o id s r named saved =
    let key = key_of s.kind s.subject in
    let new = changed o key id (is_signalled o.signals key) (is_new_cycle o key s) s in
    let made =
      (past_tests (stays_unknown o key s) (is_told_in_cycle o key s) (is_same o key s) new r
        saved).3 in
    subst (λ t. (is_settled o t ≡ true) × (t.kind ≡ s.kind) × (t.subject ≡ s.subject)) made
      (
        unfold changed in
            or_last (stays_unknown o key new) (is_told_in_cycle o key new) (is_same o key new)
              (changed-same o key id s named),
        unfold changed in refl,
        unfold changed in refl,
      )

skipped :
    {A : Type 0} (a b c : Bool) (x : A)
    → (if a then none else if b then none else if c then none else some x) ≡ none
    → (a || b || c) ≡ true
skipped true b c x h = refl
skipped false true c x h = refl
skipped false false true x h = refl
skipped false false false x h = absurd (ground arith)

observe_row-none :
    (o : Poll) (id : String) (s : AlertState)
    → observe_row o (key_of s.kind s.subject) id s ≡ none
    → is_settled o s ≡ true
unfolding observe_row
observe_row-none o id s h =
    let key = key_of s.kind s.subject in
    skipped (stays_unknown o key s) (is_told_in_cycle o key s) (is_same o key s)
      (changed o key id (is_signalled o.signals key) (is_new_cycle o key s) s) h

module _ (ids : ℕ → String) (named : (n : ℕ) → (ids n == "") ≡ false) where
  pub observe_rows-settled :
      (o : Poll) (existing : Map String AlertState) (n : ℕ) (rows : Rows)
      → Apart rows
      → Keyed existing
      → ((r : AlertState)
          → In r rows
          → (is_settled o r ≡ true) ⊎ In (key_of r.kind r.subject, r) existing)
      → (r : AlertState) → In r (observe_rows ids o existing n rows).0
      → is_settled o r ≡ true
  unfolding observe_rows
  observe_rows-settled o [] n rows apart keyed ahead =
      λ r member. elim (ahead r member) [ inl done ↦ done | inr nothing ↦ elim nothing [ ] ]
  observe_rows-settled o ((key, s) ∷ rest) n rows apart keyed ahead =
      let own : key ≡ key_of s.kind s.subject = keyed (key, s) (inl refl) in
      let keyed_rest =
        λ (entry : String × AlertState) (member : In entry rest). keyed entry (inr member) in
      elim (Option-cases (observe_row o key (ids n) s)) [
        | inl passed ↦
            rw (passed, observe_rows)
              (observe_rows-settled o rest n rows apart keyed_rest (λ r member.
                elim (ahead r member) [
                  | inl done ↦ inl done
                  | inr (inl here) ↦ inl (
                      subst (λ u. is_settled o u ≡ true) (sym (ap (λ e. e.1) here))
                        (observe_row-none o (ids n) s (rw (← own) passed)))
                  | inr (inr later) ↦ inr later
                ]))
        | inr (r', saved) ↦
            let (done, kind, subject) =
              observe_row-settled o (ids n) s r' (named n) (rw (← own) saved) in
            rw (saved, observe_rows)
              (observe_rows-settled o rest (suc n) (save_state r' rows)
                (save_state-Apart r' rows apart) keyed_rest
                (λ r member. elim (save_state-others r' r rows apart member) [
                  | inl new ↦ inl (subst (λ u. is_settled o u ≡ true) (sym new) done)
                  | inr (old, differs) ↦ elim (ahead r old) [
                    | inl before ↦ inl before
                    | inr (inl here) ↦ absurd (
                        twins_apart r r' (ap (λ e. e.1.kind) here ∙ sym kind)
                          (ap (λ e. e.1.subject) here ∙ sym subject) differs)
                    | inr (inr later) ↦ inr later
                  ]
                ]))
      ]
