-- ===== src/Alerts/Merged.antt =====
-- The map of existing incidents that observe of internal/alerts/alerts.go builds.
use text.Mathlib.TextEquality.{eq_iff}
use sub_lane.Base.{
  In, insert, Map, String, ◌≡◌, refl, sym, ap, subst, inl, inr, false, List, [], ◌∷◌, arith,
  Bool-cases, ◌==◌, string_eq, nat_eq, int_eq,
}
use sub_lane.Alerts.{Signal, AlertState, Rows, key_of, seed, merge}
use sub_lane.Alerts.Observed.{insert-In}

-- The primary key of the table, in the form in which observe writes it.
abbrev pub Separate : Rows → Type 0
Separate [] = Unit
Separate (s ∷ rows) =
    ((t : AlertState) → In t rows → (key_of t.kind t.subject == key_of s.kind s.subject) ≡ false)
    × Separate rows

-- Where each entry stands under its own key.
abbrev pub Keyed : Map String AlertState → Type 0
Keyed m = (entry : String × AlertState) → In entry m → entry.0 ≡ key_of entry.1.kind entry.1.subject

pub insert_self :
    (k : String) (v : AlertState) (m : Map String AlertState) → In (k, v) (insert k v m)
unfolding insert
insert_self k v [] = inl refl
insert_self k v ((j, w) ∷ m) = elim (Bool-cases (j == k)) [
  | inl found ↦ rw (found, insert) (inl refl)
  | inr other ↦ rw (other, insert) (inr (insert_self k v m))
]

pub insert-keeps :
    (k : String) (v : AlertState) (m : Map String AlertState) (entry : String × AlertState)
    → In entry m
    → (entry.0 == k) ≡ false
    → In entry (insert k v m)
unfolding insert
insert-keeps k v [] entry member other = elim member [ ]
insert-keeps k v ((j, w) ∷ m) entry member other = elim (Bool-cases (j == k)) [
  | inl found ↦
      rw (found, insert)
        (elim member [
          | inl same ↦
              absurd (ground (arith, other, found, ap (λ (e : String × AlertState). e.0) same))
          | inr later ↦ inr later
        ])
  | inr differs ↦
      rw (differs, insert)
        (elim member [
          | inl same ↦ inl same
          | inr later ↦ inr (insert-keeps k v m entry later other)
        ])
]

pub twins_key : (a b : String) → (a == b) ≡ false → (b == a) ≡ false
twins_key a b h = ground (arith, eq_iff a b, eq_iff b a)

pub merge-keeps :
    (rows : Rows) (m : Map String AlertState) (entry : String × AlertState)
    → In entry m
    → ((t : AlertState) → In t rows → (key_of t.kind t.subject == entry.0) ≡ false)
    → In entry (merge rows m)
unfolding merge
merge-keeps [] m entry member others = member
merge-keeps (s ∷ rows) m entry member others =
    merge-keeps rows (insert (key_of s.kind s.subject) s m) entry
      (insert-keeps (key_of s.kind s.subject) s m entry member
        (twins_key (key_of s.kind s.subject) entry.0 (others s (inl refl))))
      (λ t later. others t (inr later))

pub merge-has :
    (rows : Rows) (m : Map String AlertState) (r : AlertState)
    → Separate rows
    → In r rows
    → In (key_of r.kind r.subject, r) (merge rows m)
unfolding merge
merge-has [] m r apart member = elim member [ ]
merge-has (s ∷ rows) m r apart member = elim member [
  | inl same ↦
      subst
        (λ u. In (key_of u.kind u.subject, u) (merge rows (insert (key_of s.kind s.subject) s m)))
        (sym same)
        (merge-keeps rows (insert (key_of s.kind s.subject) s m) (key_of s.kind s.subject, s)
          (insert_self (key_of s.kind s.subject) s m) apart.0)
  | inr later ↦ merge-has rows (insert (key_of s.kind s.subject) s m) r apart.1 later
]

pub insert-Keyed :
    (s : AlertState) (m : Map String AlertState)
    → Keyed m
    → Keyed (insert (key_of s.kind s.subject) s m)
insert-Keyed s m keyed entry member = elim (insert-In (key_of s.kind s.subject) s m entry member) [
  | inl old ↦ keyed entry old
  | inr new ↦ subst (λ (e : String × AlertState). e.0 ≡ key_of e.1.kind e.1.subject) (sym new) refl
]

pub seed-Keyed :
    (signals : List Signal) (m : Map String AlertState) → Keyed m → Keyed (seed signals m)
unfolding seed
seed-Keyed [] m keyed = keyed
seed-Keyed (s ∷ signals) m keyed = seed-Keyed signals _ (insert-Keyed _ m keyed)

pub merge-Keyed : (rows : Rows) (m : Map String AlertState) → Keyed m → Keyed (merge rows m)
unfolding merge
merge-Keyed [] m keyed = keyed
merge-Keyed (s ∷ rows) m keyed = merge-Keyed rows _ (insert-Keyed s m keyed)
