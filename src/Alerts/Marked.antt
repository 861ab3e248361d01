-- ===== src/Alerts/Marked.antt =====
-- The rows that the outcome of a delivery marks: FinishAlertDelivery and FailAlertDelivery of
-- internal/alerts/alerts.go.
use sub_lane.Base.{
  In, ℕ, String, ◌≡◌, refl, sym, ap, ◌∙◌, inl, inr, false, List, [], ◌∷◌, Bool-cases, ◌==◌,
  string_eq, nat_eq, int_eq,
}
use text.Mathlib.TextEquality.{eq_iff}
use sub_lane.Alerts.{
  AlertState, Rows, attempt, Event, event_of, mark_delivered, finish_delivery, mark_failed,
  fail_delivery,
}
use sub_lane.Alerts.Saved.{Told}

-- The rows after an acknowledgement: each row, or that row marked where it carries the event.
pub finish_delivery-In :
    (now : ℕ) (id : String) (rows : Rows) (s : AlertState)
    → In s (finish_delivery now id rows)
    → (t : AlertState) × In t rows × (s ≡ mark_delivered now id t)
unfolding finish_delivery
finish_delivery-In now id [] s h = elim h [ ]
finish_delivery-In now id (r ∷ rows) s h = elim h [
  | inl same ↦ (r, inl refl, same)
  | inr later ↦
      let (t, member, same) = finish_delivery-In now id rows s later in (t, inr member, same)
]

pub fail_delivery-In :
    (id : String) (rows : Rows) (s : AlertState)
    → In s (fail_delivery id rows)
    → (t : AlertState) × In t rows × (s ≡ mark_failed id t)
unfolding fail_delivery
fail_delivery-In id [] s h = elim h [ ]
fail_delivery-In id (r ∷ rows) s h = elim h [
  | inl same ↦ (r, inl refl, same)
  | inr later ↦ let (t, member, same) = fail_delivery-In id rows s later in (t, inr member, same)
]

pub mark_delivered-event :
    (now : ℕ) (id : String) (s : AlertState) → event_of (mark_delivered now id s) ≡ event_of s
unfolding event_of mark_delivered
mark_delivered-event now id s = elim (Bool-cases (s.event_id == id)) [
  | inl same ↦ rw (same, mark_delivered) refl
  | inr other ↦ rw (other, mark_delivered) refl
]

pub mark_delivered-other :
    (now : ℕ) (id : String) (s : AlertState)
    → (s.event_id == id) ≡ false
    → mark_delivered now id s ≡ s
unfolding mark_delivered
mark_delivered-other now id s other = rw (other, mark_delivered) refl

pub mark_failed-event :
    (id : String) (s : AlertState)
    → (event_of (mark_failed id s) ≡ event_of s)
      × ((mark_failed id s).delivered_active ≡ s.delivered_active)
unfolding event_of mark_failed
mark_failed-event id s = elim (Bool-cases (s.event_id == id)) [
  | inl same ↦ rw (same, mark_failed) (refl, refl)
  | inr other ↦ rw (other, mark_failed) (refl, refl)
]

pub attempt-event :
    (now : ℕ) (s : AlertState)
    → (event_of (attempt now s) ≡ event_of s)
      × ((attempt now s).delivered_active ≡ s.delivered_active)
unfolding event_of attempt
attempt-event now s = (refl, refl)

pub Told-more :
    (e : Event) (heard : List Event) (s : AlertState) → Told heard s → Told (e ∷ heard) s
Told-more e heard s told knows =
    let (e', member, kind, subject, firing) = told knows in (e', inr member, kind, subject, firing)

-- What an acknowledged event says of the row that it marks.
pub mark_delivered-Told :
    (now : ℕ) (heard : List Event) (s t : AlertState)
    → (t.event_id ≡ s.event_id → event_of t ≡ event_of s)
    → Told heard t
    → Told (event_of s ∷ heard) (mark_delivered now s.event_id t)
unfolding event_of mark_delivered
mark_delivered-Told now heard s t alike told = elim (Bool-cases (t.event_id == s.event_id)) [
  | inl same ↦
      let carried = alike ((eq_iff t.event_id s.event_id).0 same) in
      rw (same, mark_delivered)
        (λ knows. (
          event_of s,
          inl refl,
          sym (ap Event.kind carried),
          sym (ap Event.subject carried),
          sym (ap Event.firing carried) ∙ knows,
        ))
  | inr other ↦ rw (other, mark_delivered) (Told-more (event_of s) heard t told)
]
