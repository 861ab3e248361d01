-- ===== src/Alerts/Entered.antt =====
-- Where the entries of the map of existing incidents come from: observe of internal/alerts/alerts.go.
use text.Mathlib.TextEquality.{eq_iff}
use sub_lane.Base.{
  In, insert, Map, String, ◌≡◌, refl, sym, ap, ◌∙◌, subst, ◌⊎◌, inl, inr, false, List, [], ◌∷◌,
  Bool-cases, ◌==◌, string_eq, nat_eq, int_eq,
}
use sub_lane.Alerts.{Signal, AlertState, Rows, key_of, seed, merge}
use sub_lane.Alerts.Observed.{insert-In}
use sub_lane.Alerts.Merged.{insert_self, twins_key}

abbrev pub Listed : Type 0
Listed = String × AlertState

-- No key stands twice.
abbrev pub IsDistinct : Map String AlertState → Type 0
IsDistinct [] = Unit
IsDistinct ((j, w) ∷ m) = ((entry : Listed) → In entry m → (entry.0 == j) ≡ false) × IsDistinct m

-- An entry after an insertion: the new one, or one of another key.
insert-others :
    (k : String) (v : AlertState) (m : Map String AlertState) (entry : Listed)
    → IsDistinct m
    → In entry (insert k v m)
    → (entry ≡ (k, v)) ⊎ (In entry m × ((entry.0 == k) ≡ false))
unfolding insert
insert-others k v [] entry distinct h = elim h [
  | inl same ↦ inl same
  | inr nothing ↦ elim nothing [ ]
]
insert-others k v ((j, w) ∷ m) entry distinct h = elim (Bool-cases (j == k)) [
  | inl found ↦
      let new : (entry ≡ (k, v)) ⊎ In entry m = rw (found, insert) at h in
      elim new [
        | inl same ↦ inl same
        | inr later ↦ inr (
          inr later,
          subst (λ key. (entry.0 == key) ≡ false) ((eq_iff j k).0 found) (distinct.0 entry later),
        )
      ]
  | inr other ↦
      let kept : (entry ≡ (j, w)) ⊎ In entry (insert k v m) = rw (other, insert) at h in
      elim kept [
        | inl same ↦ inr (inl same, subst (λ (e : Listed). (e.0 == k) ≡ false) (sym same) other)
        | inr later ↦ elim (insert-others k v m entry distinct.1 later) [
          | inl new ↦ inl new
          | inr (old, differs) ↦ inr (inr old, differs)
        ]
      ]
]

insert-IsDistinct :
    (k : String) (v : AlertState) (m : Map String AlertState)
    → IsDistinct m
    → IsDistinct (insert k v m)
unfolding insert
insert-IsDistinct k v [] distinct = (λ entry nothing. elim nothing [ ], tt)
insert-IsDistinct k v ((j, w) ∷ m) distinct = elim (Bool-cases (j == k)) [
  | inl found ↦
      rw (found, insert)
        (
          λ entry later.
              subst (λ key. (entry.0 == key) ≡ false) ((eq_iff j k).0 found)
                (distinct.0 entry later),
          distinct.1,
        )
  | inr other ↦
      rw (other, insert)
        (
          λ entry later. elim (insert-others k v m entry distinct.1 later) [
            | inl new ↦ subst (λ (e : Listed). (e.0 == j) ≡ false) (sym new) (twins_key j k other)
            | inr (old, differs) ↦ distinct.0 entry old
          ],
          insert-IsDistinct k v m distinct.1,
        )
]

pub seed-IsDistinct :
    (signals : List Signal) (m : Map String AlertState) → IsDistinct m → IsDistinct (seed signals m)
unfolding seed
seed-IsDistinct [] m distinct = distinct
seed-IsDistinct (s ∷ signals) m distinct =
    seed-IsDistinct signals _ (insert-IsDistinct (key_of s.kind s.subject) _ m distinct)

-- A row of the table, or an entry of before whose key no row has.
pub merge-In :
    (rows : Rows) (m : Map String AlertState) (entry : Listed)
    → IsDistinct m
    → In entry (merge rows m)
    → (In entry.1 rows × (entry.0 ≡ key_of entry.1.kind entry.1.subject))
      ⊎ (In entry m × ((t : AlertState) → In t rows → (entry.0 == key_of t.kind t.subject) ≡ false))
unfolding merge
merge-In [] m entry distinct h = inr (h, λ t nothing. elim nothing [ ])
merge-In (s ∷ rows) m entry distinct h =
    let key = key_of s.kind s.subject in
    elim (merge-In rows (insert key s m) entry (insert-IsDistinct key s m distinct) h) [
      | inl (later, own) ↦ inl (inr later, own)
      | inr (here, others) ↦ elim (insert-others key s m entry distinct here) [
        | inl new ↦ inl (
            subst (λ (e : Listed). In e.1 (s ∷ rows) × (e.0 ≡ key_of e.1.kind e.1.subject))
              (sym new) (inl refl, refl))
        | inr (old, differs) ↦ inr (
          old,
          λ t member. elim member [
            | inl same ↦
                subst (λ u. (entry.0 == key_of u.kind u.subject) ≡ false) (sym same) differs
            | inr later ↦ others t later
          ],
        )
      ]
    ]

-- A row that a signal seeds has drawn no event yet.
abbrev pub IsSeeded : List Signal → Listed → Type 0
IsSeeded signals entry =
    (entry.1.event_id ≡ "")
    × (entry.1.delivered_active ≡ false)
    × ((x : Signal) × In x signals
        × (entry.1.kind ≡ x.kind)
        × (entry.1.subject ≡ x.subject)
        × (entry.0 ≡ key_of x.kind x.subject))

pub seed-In :
    (signals : List Signal) (m : Map String AlertState) (entry : Listed)
    → In entry (seed signals m)
    → In entry m ⊎ IsSeeded signals entry
unfolding seed
seed-In [] m entry h = inl h
seed-In (s ∷ signals) m entry h = elim (seed-In signals _ entry h) [
  | inr (blank, untold, (x, member, kind, subject, key)) ↦
      inr (blank, untold, (x, inr member, kind, subject, key))
  | inl here ↦ elim (insert-In (key_of s.kind s.subject) _ m entry here) [
    | inl old ↦ inl old
    | inr new ↦ inr (
      ap (λ (e : Listed). e.1.event_id) new,
      ap (λ (e : Listed). e.1.delivered_active) new,
      (
        s,
        inl refl,
        ap (λ (e : Listed). e.1.kind) new,
        ap (λ (e : Listed). e.1.subject) new,
        ap (λ (e : Listed). e.0) new,
      ),
    )
  ]
]

-- Every key that is entered stays.
abbrev pub HasEntry : String → Map String AlertState → Type 0
HasEntry k m = (v : AlertState) × In (k, v) m

insert-HasEntry :
    (j k : String) (w : AlertState) (m : Map String AlertState)
    → HasEntry k m
    → HasEntry k (insert j w m)
unfolding insert
insert-HasEntry j k w [] (v, h) = elim h [ ]
insert-HasEntry j k w ((i, u) ∷ m) (v, h) = elim (Bool-cases (i == j)) [
  | inl found ↦ elim h [
    | inl same ↦
        let key : k ≡ j = ap (λ (e : Listed). e.0) same ∙ (eq_iff i j).0 found in
        (w, rw (found, insert) (inl (ap (λ l. (l, w)) key)))
    | inr later ↦ (v, rw (found, insert) (inr later))
  ]
  | inr other ↦ elim h [
    | inl same ↦ (v, rw (other, insert) (inl same))
    | inr later ↦
        let (x, member) = insert-HasEntry j k w m (v, later) in (x, rw (other, insert) (inr member))
  ]
]

pub merge-HasEntry :
    (rows : Rows) (m : Map String AlertState) (k : String)
    → HasEntry k m
    → HasEntry k (merge rows m)
unfolding merge
merge-HasEntry [] m k has = has
merge-HasEntry (s ∷ rows) m k has =
    merge-HasEntry rows _ k (insert-HasEntry (key_of s.kind s.subject) k s m has)

pub seed-HasEntry :
    (signals : List Signal) (m : Map String AlertState) (k : String)
    → HasEntry k m
    → HasEntry k (seed signals m)
unfolding seed
seed-HasEntry [] m k has = has
seed-HasEntry (s ∷ signals) m k has =
    seed-HasEntry signals _ k (insert-HasEntry (key_of s.kind s.subject) k _ m has)

pub seed-has :
    (signals : List Signal) (m : Map String AlertState) (x : Signal)
    → In x signals
    → HasEntry (key_of x.kind x.subject) (seed signals m)
unfolding seed
seed-has [] m x member = elim member [ ]
seed-has (s ∷ signals) m x member = elim member [
  | inl same ↦
      subst (λ (y : Signal). HasEntry (key_of y.kind y.subject) (seed (s ∷ signals) m)) (sym same)
        (seed-HasEntry signals _ (key_of s.kind s.subject)
          (_, insert_self (key_of s.kind s.subject) _ m))
  | inr later ↦ seed-has signals _ x later
]
