-- ===== src/Alerts/Doubted.antt =====
-- Which incidents an observation changes, and how: observe of internal/alerts/alerts.go.
use text.Mathlib.TextEquality.{eq_iff}
use Prim.Native.String.{◌++◌}
use sub_lane.Base.{
  In, In-any, any-In, any, Map, ℕ, suc, String, ◌≡◌, refl, sym, subst, ◌⊎◌, inl, inr, Bool, true,
  false, ◌&&◌, ◌||◌, not, some, List, [], ◌∷◌, arith, Bool-cases, Option-cases, ◌==◌, string_eq,
  nat_eq, int_eq,
}
use sub_lane.Alerts.{
  AlertState, Rows, save_state, Poll, before_colon, is_signalled, is_uncertain, cycle_of, changed,
  is_new_cycle, stays_unknown, is_told_in_cycle, is_same, observe_row, observe_rows,
}
use sub_lane.Alerts.Observed.{past_tests}
use sub_lane.Alerts.Saved.{save_state-In}
use sub_lane.Alerts.Entered.{Listed}

-- Nothing is known of the incident: its key is unknown, or the observer of its kind is.
abbrev pub IsDoubtful : List String → String → AlertState → Type 0
IsDoubtful unknown key s =
    ((s.kind ≡ "allowance_low") × In "allowance_unavailable" unknown)
    ⊎ In key unknown
    ⊎ ((s.kind ≡ "model_unavailable")
        × In ("model_unavailable:" ++ before_colon s.subject ++ ":*") unknown)
    ⊎ ((s.kind ≡ "quota_low") × In "quota_low:*" unknown)
    ⊎ (In "capacity_unavailable" unknown
        × ((s.kind ≡ "model_unavailable") ⊎ (s.kind ≡ "quota_low")))

has_In : (unknown : List String) (k : String) → any (λ u. u == k) unknown ≡ true → In k unknown
has_In unknown k h =
    let (u, member, same) = any-In (λ v. v == k) unknown h in
    subst (λ v. In v unknown) ((eq_iff u k).0 same) member

In_has : (unknown : List String) (k : String) → In k unknown → any (λ u. u == k) unknown ≡ true
In_has unknown k member = In-any (λ v. v == k) unknown k member ((eq_iff k k).1 refl)

four_cases :
    (c d e f g h : Bool)
    → (c || d && e || f && g || h && (d || f)) ≡ true
    → (c ≡ true)
      ⊎ ((d ≡ true) × (e ≡ true))
      ⊎ ((f ≡ true) × (g ≡ true))
      ⊎ ((h ≡ true) × ((d ≡ true) ⊎ (f ≡ true)))
four_cases true d e f g h t = inl refl
four_cases false true true f g h t = inr (inl (refl, refl))
four_cases false d e true true h t = inr (inr (inl (refl, refl)))
four_cases false true e f g true t = inr (inr (inr (refl, inl refl)))
four_cases false d e true g true t = inr (inr (inr (refl, inr refl)))
four_cases false d e f g h t = absurd (ground arith)

five_cases :
    (a b c d e f g h : Bool)
    → (a && b || c || d && e || f && g || h && (d || f)) ≡ true
    → ((a ≡ true) × (b ≡ true))
      ⊎ (c ≡ true)
      ⊎ ((d ≡ true) × (e ≡ true))
      ⊎ ((f ≡ true) × (g ≡ true))
      ⊎ ((h ≡ true) × ((d ≡ true) ⊎ (f ≡ true)))
five_cases true true c d e f g h t = inl (refl, refl)
five_cases true false c d e f g h t = inr (four_cases c d e f g h t)
five_cases false b c d e f g h t = inr (four_cases c d e f g h t)

pub uncertain-IsDoubtful :
    (unknown : List String) (key : String) (s : AlertState)
    → is_uncertain unknown key s ≡ true
    → IsDoubtful unknown key s
unfolding is_uncertain
uncertain-IsDoubtful unknown key s h =
    let has : String → Bool = λ k. any (λ u. u == k) unknown in
    elim (five_cases (s.kind == "allowance_low") (has "allowance_unavailable") (has key)
      (s.kind == "model_unavailable") (has ("model_unavailable:" ++ before_colon s.subject ++ ":*"))
      (s.kind == "quota_low") (has "quota_low:*") (has "capacity_unavailable") h) [
        | inl (kind, is_in) ↦ inl ((eq_iff s.kind "allowance_low").0 kind, has_In unknown _ is_in)
        | inr (inl is_in) ↦ inr (inl (has_In unknown key is_in))
        | inr (inr (inl (kind, is_in))) ↦
            inr (inr (inl ((eq_iff s.kind "model_unavailable").0 kind, has_In unknown _ is_in)))
        | inr (inr (inr (inl (kind, is_in)))) ↦
            inr (inr (inr (inl ((eq_iff s.kind "quota_low").0 kind, has_In unknown _ is_in))))
        | inr (inr (inr (inr (is_in, inl kind)))) ↦ inr (
            inr (
              inr (inr (has_In unknown _ is_in, inl ((eq_iff s.kind "model_unavailable").0 kind)))))
        | inr (inr (inr (inr (is_in, inr kind)))) ↦
            inr (inr (inr (inr (has_In unknown _ is_in, inr ((eq_iff s.kind "quota_low").0 kind)))))
      ]

pub IsDoubtful-uncertain :
    (unknown : List String) (key : String) (s : AlertState)
    → IsDoubtful unknown key s
    → is_uncertain unknown key s ≡ true
unfolding is_uncertain
IsDoubtful-uncertain unknown key s doubt = elim doubt [
  | inl (kind, is_in) ↦
      ground (arith, (eq_iff s.kind "allowance_low").1 kind, In_has unknown _ is_in)
  | inr (inl is_in) ↦ ground (arith, In_has unknown key is_in)
  | inr (inr (inl (kind, is_in))) ↦
      ground (arith, (eq_iff s.kind "model_unavailable").1 kind, In_has unknown _ is_in)
  | inr (inr (inr (inl (kind, is_in)))) ↦
      ground (arith, (eq_iff s.kind "quota_low").1 kind, In_has unknown _ is_in)
  | inr (inr (inr (inr (is_in, inl kind)))) ↦
      ground (arith, (eq_iff s.kind "model_unavailable").1 kind, In_has unknown _ is_in)
  | inr (inr (inr (inr (is_in, inr kind)))) ↦
      ground (arith, (eq_iff s.kind "quota_low").1 kind, In_has unknown _ is_in)
]

-- An allowance that is low in another cycle than the one that its row is of.
abbrev pub IsRenewed : Poll → String → AlertState → Type 0
IsRenewed o key s =
    (s.kind ≡ "allowance_low")
    × (is_signalled o.signals key ≡ true)
    × (s.cycle ≡ cycle_of o.cycles key → ⊥)

-- The row that a change of the incident leaves: a new event, which nothing has been tried for, and
-- in a new cycle what the destination knows is forgotten.
pub record IsChange (o : Poll) (key : String) (s r : AlertState) : Type 0 where
  pub certain : (is_signalled o.signals key ≡ true) ⊎ (IsDoubtful o.unknown key s → ⊥)
  pub same : (r.kind ≡ s.kind) × (r.subject ≡ s.subject)
  pub turned : (r.active ≡ is_signalled o.signals key) × (r.changed_at ≡ o.now)
  pub untried : (r.attempts ≡ 0) × (r.retry_at ≡ 0) × (r.delivery_failed ≡ false)
  pub known :
      (IsRenewed o key s × (r.delivered_active ≡ false) × (r.cycle ≡ cycle_of o.cycles key))
      ⊎ ((IsRenewed o key s → ⊥) × (r.delivered_active ≡ s.delivered_active) × (r.cycle ≡ s.cycle))

IsRenewed-cases :
    (o : Poll) (key : String) (s : AlertState)
    → ((is_new_cycle o key s ≡ true) × IsRenewed o key s)
      ⊎ ((is_new_cycle o key s ≡ false) × (IsRenewed o key s → ⊥))
unfolding is_new_cycle
IsRenewed-cases o key s =
    let low : Bool = s.kind == "allowance_low" in
    let cycles : Bool = s.cycle == cycle_of o.cycles key in
    elim (Bool-cases (low && is_signalled o.signals key && not cycles)) [
      | inl new ↦ inl (
        new,
        (
          (eq_iff s.kind "allowance_low").0 (ground arith),
          ground arith,
          λ same. absurd (ground (arith, (eq_iff s.cycle (cycle_of o.cycles key)).1 same)),
        ),
      )
      | inr old ↦ inr (
        old,
        λ renewed.
            let other : cycles ≡ true =
              ground (arith, (eq_iff s.kind "allowance_low").1 renewed.0, renewed.1) in
            renewed.2 ((eq_iff s.cycle (cycle_of o.cycles key)).0 other),
      )
    ]

changed-known :
    (o : Poll) (key id : String) (s : AlertState)
    → let r = changed o key id (is_signalled o.signals key) (is_new_cycle o key s) s in
      (IsRenewed o key s × (r.delivered_active ≡ false) × (r.cycle ≡ cycle_of o.cycles key))
      ⊎ ((IsRenewed o key s → ⊥) × (r.delivered_active ≡ s.delivered_active) × (r.cycle ≡ s.cycle))
unfolding changed
changed-known o key id s = elim (IsRenewed-cases o key s) [
  | inl (new, renewed) ↦ inl (renewed, rw (new) refl, rw (new) refl)
  | inr (old, kept) ↦ inr (kept, rw (old) refl, rw (old) refl)
]

certain_cases :
    (o : Poll) (key : String) (s : AlertState)
    → stays_unknown o key s ≡ false
    → (is_signalled o.signals key ≡ true) ⊎ (IsDoubtful o.unknown key s → ⊥)
unfolding stays_unknown
certain_cases o key s h = elim (Bool-cases (is_signalled o.signals key)) [
  | inl here ↦ inl here
  | inr absent ↦ inr (λ doubt. absurd (ground (arith, IsDoubtful-uncertain o.unknown key s doubt)))
]

observe_row-IsChange :
    (o : Poll) (key id : String) (s r : AlertState)
    → observe_row o key id s ≡ some r
    → IsChange o key s r
unfolding observe_row
observe_row-IsChange o key id s r saved =
    let new = changed o key id (is_signalled o.signals key) (is_new_cycle o key s) s in
    let (known, _, _, made) =
      past_tests (stays_unknown o key s) (is_told_in_cycle o key s) (is_same o key s) new r saved in
    subst (IsChange o key s) made (record {
      certain = certain_cases o key s known;
      same = unfold changed in (refl, refl);
      turned = unfold changed in (refl, refl);
      untried = unfold changed in (refl, refl, refl);
      known = changed-known o key id s;
    })

-- A row of the table after the loop: one of before, or the change of an entry.
pub observe_rows-from :
    (ids : ℕ → String) (o : Poll) (existing : Map String AlertState) (n : ℕ) (rows : Rows)
    (r : AlertState)
    → In r (observe_rows ids o existing n rows).0
    → In r rows ⊎ ((entry : Listed) × In entry existing × IsChange o entry.0 entry.1 r)
unfolding observe_rows
observe_rows-from ids o [] n rows r member = inl member
observe_rows-from ids o ((key, s) ∷ rest) n rows r member =
    elim (Option-cases (observe_row o key (ids n) s)) [
      | inl passed ↦
          elim (observe_rows-from ids o rest n rows r (rw (passed, observe_rows) at member)) [
            | inl old ↦ inl old
            | inr (entry, there, change) ↦ inr (entry, inr there, change)
          ]
      | inr (t, saved) ↦
          elim (observe_rows-from ids o rest (suc n) (save_state t rows) r
            (rw (saved, observe_rows) at member)) [
              | inl here ↦ elim (save_state-In t r rows here) [
                | inl old ↦ inl old
                | inr new ↦ inr (
                  (key, s),
                  inl refl,
                  subst (IsChange o key s) (sym new) (observe_row-IsChange o key (ids n) s t saved),
                )
              ]
              | inr (entry, there, change) ↦ inr (entry, inr there, change)
            ]
    ]
