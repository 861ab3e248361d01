-- ===== src/Alerts/Incidents.antt =====
-- One row for each incident: the saves of internal/alerts/alerts.go.
use text.Mathlib.TextEquality.{eq_iff}
use sub_lane.Base.{
  In, ◌≡◌, sym, subst, ◌⊎◌, inl, inr, Bool, true, false, ◌&&◌, [], ◌∷◌, arith, Bool-cases, ◌==◌,
  string_eq, nat_eq, int_eq,
}
use sub_lane.Alerts.{AlertState, Rows, key_of, save_state}
use sub_lane.Alerts.Merged.{Separate}
use sub_lane.Alerts.Merged.{Separate}

-- No two rows are of one incident.
abbrev pub twins : AlertState → AlertState → Bool
twins t s = t.kind == s.kind && t.subject == s.subject

abbrev pub Apart : Rows → Type 0
Apart [] = Unit
Apart (s ∷ rows) = ((t : AlertState) → In t rows → twins t s ≡ false) × Apart rows

pub twins_shift : (r s t : AlertState) → twins r s ≡ true → twins t r ≡ false → twins t s ≡ false
twins_shift r s t found apart = ground (
  arith,
  eq_iff r.kind s.kind,
  eq_iff r.subject s.subject,
  eq_iff t.kind s.kind,
  eq_iff t.subject s.subject,
  eq_iff t.kind r.kind,
  eq_iff t.subject r.subject,
)

pub twins_sym : (r s : AlertState) → twins r s ≡ false → twins s r ≡ false
twins_sym r s h = ground (
  arith,
  eq_iff r.kind s.kind,
  eq_iff r.subject s.subject,
  eq_iff s.kind r.kind,
  eq_iff s.subject r.subject,
)

pub twins-keys :
    (t s : AlertState)
    → (key_of t.kind t.subject == key_of s.kind s.subject) ≡ false
    → twins t s ≡ false
twins-keys t s h = ground (
  arith,
  eq_iff t.kind s.kind,
  eq_iff t.subject s.subject,
  eq_iff (key_of t.kind t.subject) (key_of s.kind s.subject),
)

pub twins_apart :
    (t s : AlertState) → t.kind ≡ s.kind → t.subject ≡ s.subject → twins t s ≡ false → ⊥
twins_apart t s kind subject differs =
    ground (arith, eq_iff t.kind s.kind, eq_iff t.subject s.subject)

pub Separate-Apart : (rows : Rows) → Separate rows → Apart rows
Separate-Apart [] apart = tt
Separate-Apart (s ∷ rows) apart =
    (λ t member. twins-keys t s (apart.0 t member), Separate-Apart rows apart.1)

-- A row of the table after a save: the row that was saved, or a row of before of another incident.
pub save_state-others :
    (s t : AlertState) (rows : Rows)
    → Apart rows
    → In t (save_state s rows)
    → (t ≡ s) ⊎ (In t rows × (twins t s ≡ false))
unfolding save_state
save_state-others s t [] apart h = elim h [ inl same ↦ inl same | inr nothing ↦ elim nothing [ ] ]
save_state-others s t (r ∷ rows) apart h = elim (Bool-cases (twins r s)) [
  | inl found ↦
      let new : (t ≡ s) ⊎ In t rows = rw (found, save_state) at h in
      elim new [
        | inl same ↦ inl same
        | inr later ↦ inr (inr later, twins_shift r s t found (apart.0 t later))
      ]
  | inr other ↦
      let kept : (t ≡ r) ⊎ In t (save_state s rows) = rw (other, save_state) at h in
      elim kept [
        | inl same ↦ inr (inl same, subst (λ u. twins u s ≡ false) (sym same) other)
        | inr later ↦ elim (save_state-others s t rows apart.1 later) [
          | inl new ↦ inl new
          | inr (old, differs) ↦ inr (inr old, differs)
        ]
      ]
]

pub save_state-Apart : (s : AlertState) (rows : Rows) → Apart rows → Apart (save_state s rows)
unfolding save_state
save_state-Apart s [] apart = (λ t nothing. elim nothing [ ], tt)
save_state-Apart s (r ∷ rows) apart = elim (Bool-cases (twins r s)) [
  | inl found ↦
      rw (found, save_state) (λ t later. twins_shift r s t found (apart.0 t later), apart.1)
  | inr other ↦
      rw (other, save_state)
        (
          λ t later. elim (save_state-others s t rows apart.1 later) [
            | inl new ↦ subst (λ u. twins u r ≡ false) (sym new) (twins_sym r s other)
            | inr (old, differs) ↦ apart.0 t old
          ],
          save_state-Apart s rows apart.1,
        )
]
