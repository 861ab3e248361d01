-- ===== src/Alerts/Saved.antt =====
-- What the rows of alert_states are after the queries of internal/alerts/alerts.go, and which
-- events they carry.
use sub_lane.Base.{
  In, ℕ, suc, ◌<◌, String, ◌≡◌, sym, ap, ◌∙◌, subst, ◌⊎◌, inl, inr, true, ◌&&◌, List, [], ◌∷◌,
  arith, Bool-cases, ◌==◌, string_eq, nat_eq, int_eq,
}
use sub_lane.Alerts.{AlertState, Rows, save_state, Event, event_of}

pub save_state-In :
    (s r : AlertState) (rows : Rows) → In r (save_state s rows) → In r rows ⊎ (r ≡ s)
unfolding save_state
save_state-In s r [] h = elim h [ inl same ↦ inr same | inr nothing ↦ inl nothing ]
save_state-In s r (t ∷ rows) h = elim (Bool-cases (t.kind == s.kind && t.subject == s.subject)) [
  | inl found ↦
      let new : (r ≡ s) ⊎ In r rows = rw (found, save_state) at h in
      elim new [ inl same ↦ inr same | inr later ↦ inl (inr later) ]
  | inr other ↦
      let kept : (r ≡ t) ⊎ In r (save_state s rows) = rw (other, save_state) at h in
      elim kept [
        | inl same ↦ inl (inl same)
        | inr later ↦ elim (save_state-In s r rows later) [
          | inl old ↦ inl (inr old)
          | inr new ↦ inr new
        ]
      ]
]

-- A row that says that its destination knows of the incident stands beside an event that the
-- destination has acknowledged.
abbrev pub Told : List Event → AlertState → Type 0
Told heard s =
    s.delivered_active ≡ true
    → (e : Event) × In e heard × (e.kind ≡ s.kind) × (e.subject ≡ s.subject) × (e.firing ≡ true)

-- The states that are held somewhere: two of one event agree on it, each event was drawn, and each
-- state is told.
pub record Kept (ids : ℕ → String) (n : ℕ) (heard : List Event) (held : AlertState → Type 0)
    : Type 0 where
  pub alike :
      (s t : AlertState) → held s → held t → s.event_id ≡ t.event_id → event_of s ≡ event_of t
  pub issued : (s : AlertState) → held s → (k : ℕ) × (k < n) × (s.event_id ≡ ids k)
  pub told : (s : AlertState) → held s → Told heard s

module _ (ids : ℕ → String) (distinct : (j k : ℕ) → ids j ≡ ids k → j ≡ k) where
  -- An event that was drawn before is not the one that is drawn now.
  drawn_before :
      (n : ℕ) (heard : List Event) (s : AlertState) {held : AlertState → Type 0}
      → Kept ids n heard held
      → held s
      → s.event_id ≡ ids n
      → ⊥
  drawn_before n heard s known old same =
      let (k, below, drawn) = known.issued s old in
      absurd (omega (arith, distinct k n (sym drawn ∙ same)))

  pub Kept-more :
      (n : ℕ) (heard : List Event) (r : AlertState) {held held' : AlertState → Type 0}
      → Kept ids n heard held
      → r.event_id ≡ ids n
      → Told heard r
      → ((s : AlertState) → held' s → held s ⊎ (s ≡ r))
      → Kept ids (suc n) heard held'
  Kept-more n heard r known fresh told_r cases = record {
    alike = λ s t hs ht same. elim (cases s hs) [
      | inl old ↦ elim (cases t ht) [
        | inl old' ↦ known.alike s t old old' same
        | inr new' ↦
            absurd (drawn_before n heard s known old (same ∙ ap AlertState.event_id new' ∙ fresh))
      ]
      | inr new ↦ elim (cases t ht) [
        | inl old' ↦
            absurd
              (drawn_before n heard t known old' (sym same ∙ ap AlertState.event_id new ∙ fresh))
        | inr new' ↦ cc
      ]
    ];
    issued = λ s hs. elim (cases s hs) [
      | inl old ↦ let (k, below, drawn) = known.issued s old in (k, omega arith, drawn)
      | inr new ↦ (n, omega arith, rw (new) fresh)
    ];
    told = λ s hs. elim (cases s hs) [
      | inl old ↦ known.told s old
      | inr new ↦ subst (Told heard) (sym new) told_r
    ];
  }

  -- States that carry the events of states held before.
  pub Kept-carry :
      (n : ℕ) (heard heard' : List Event) {held held' : AlertState → Type 0}
      → Kept ids n heard held
      → ((s : AlertState) → held' s → (t : AlertState) × held t × (event_of s ≡ event_of t))
      → ((s : AlertState) → held' s → Told heard' s)
      → Kept ids n heard' held'
  unfolding event_of
  Kept-carry n heard heard' known from told = record {
    alike = λ s t hs ht same.
        let (s', old, same_s) = from s hs in
        let (t', old', same_t) = from t ht in
        same_s
        ∙ known.alike s' t' old old' (sym (ap Event.id same_s) ∙ same ∙ ap Event.id same_t)
        ∙ sym same_t;
    issued = λ s hs.
        let (s', old, same_s) = from s hs in
        let (k, below, drawn) = known.issued s' old in (k, below, ap Event.id same_s ∙ drawn);
    told = told;
  }

  -- States whose destination, moreover, knows no more.
  pub Kept-like :
      (n : ℕ) (heard : List Event) {held held' : AlertState → Type 0}
      → Kept ids n heard held
      → ((s : AlertState)
          → held' s
          → (t : AlertState) × held t
            × (event_of s ≡ event_of t)
            × (s.delivered_active ≡ true → t.delivered_active ≡ true))
      → Kept ids n heard held'
  unfolding event_of
  Kept-like n heard known from =
      Kept-carry n heard heard known (λ s hs. let (t, old, same, _) = from s hs in (t, old, same))
        (λ s hs knows.
          let (t, old, same, tells) = from s hs in
          let (e, member, kind, subject, firing) = known.told t old (tells knows) in
          (
            e,
            member,
            kind ∙ sym (ap Event.kind same),
            subject ∙ sym (ap Event.subject same),
            firing,
          ))
