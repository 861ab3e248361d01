-- ===== src/Gateway/Availability/Summed.antt =====
-- The sums of `modelAvailability` (internal/gateway/availability.go) against its rows.
use sub_lane.Base.{
  Map, ℕ, ◌+◌, ◌≤◌, ◌<◌, String, ◌≡◌, ◌⊎◌, refl, sym, subst, ◌∙◌, inl, inr, Bool, true, false, ◌&&◌,
  ◌||◌, none, some, List, [], ◌∷◌, ◌++◌, map, ap, In, count, arith, if◌then◌else◌, Bool-cases,
  Option-cases, ltb, ◌==◌, nat_eq,
}
use sub_lane.Failure.{Failure}
use sub_lane.Groups.{ModelPolicy, allows}
use sub_lane.Gateway.State.{unix}
use sub_lane.Gateway.Availability.{
  Seen, Outlook, AccountView, Capacity, is_available, is_unknown, is_unavailable, no_capacity,
  reason_of, view, note_view, note_views, conclude, model_availability, is_catalog_unavailable,
}

append-nil {ℓ} : {A : Type ℓ} (xs : List A) → xs ++ [] ≡ xs
append-nil [] = refl
append-nil (x ∷ xs) = ap (◌∷◌ x) (append-nil xs)

append_assoc {ℓ} : {A : Type ℓ} (xs ys zs : List A) → (xs ++ ys) ++ zs ≡ xs ++ (ys ++ zs)
append_assoc [] ys zs = refl
append_assoc (x ∷ xs) ys zs = ap (◌∷◌ x) (append_assoc xs ys zs)

counted :
    (p : Seen → Bool) (x : Seen) (rows : List Seen) (n : ℕ) (b : Bool)
    → p x ≡ b
    → (if b then n + 1 else n) + count p rows ≡ n + count p (x ∷ rows)
unfolding count
counted p x rows n true h = rw (count, h) (omega arith)
counted p x rows n false h = rw (count, h) refl

note_view-accounts :
    (now : ℕ) (v : AccountView) (c : Capacity) → (note_view now v c).accounts ≡ c.accounts ++ v ∷ []
unfolding note_view
note_view-accounts now v c = elim (Option-cases v.reason) [
  | inl free ↦ simp (free, note_view) refl
  | inr (e, refused) ↦ simp (refused, note_view) refl
]

-- What one row does to the earliest end of a wait.
abbrev IsSooner : ℕ → ℕ → ℕ → ℕ → Type 0
IsSooner now t before after =
    ((after ≡ before) × ((t ≤ now) ⊎ ((0 < before) × (before ≤ t))))
    ⊎ ((after ≡ t) × (now < t) × ((before ≡ 0) ⊎ (t ≤ before)))

sooner :
    (now t retry : ℕ)
    → IsSooner now t retry (if ltb now t && (retry == 0 || ltb t retry) then t else retry)
sooner now t retry = ground arith

sooner-kept :
    (now t c d r : ℕ)
    → IsSooner now t c d
    → (d ≡ 0) ⊎ ((0 < r) × (r ≤ d))
    → (c ≡ 0) ⊎ ((0 < r) × (r ≤ c))
sooner-kept now t c d r step kept = ground arith

sooner-ends :
    (now t c d r : ℕ)
    → IsSooner now t c d
    → (d ≡ 0) ⊎ ((0 < r) × (r ≤ d))
    → (t ≤ now) ⊎ ((0 < r) × (r ≤ t))
sooner-ends now t c d r step kept = ground arith

module _ (o : Outlook) (policy : ModelPolicy) (model : String) where
  -- The rows with no reason, and those whose catalog is out of date.
  abbrev pub is_open : Seen → Bool
  is_open x = elim (reason_of o policy model x) [ none ↦ true | some e ↦ false ]

  abbrev pub is_doubtful : Seen → Bool
  is_doubtful x = elim (reason_of o policy model x) [
    | none ↦ false
    | some e ↦ is_catalog_unavailable e
  ]

  abbrev ends : Seen → ℕ
  ends x = (view o policy model x).retry_at

  -- The first second after `now` at which a row's wait ends, or 0.
  abbrev pub IsEarliest : ℕ → List Seen → Type 0
  IsEarliest retry rows =
      ((x : Seen) → In x rows → (ends x ≤ unix o.now) ⊎ ((0 < retry) × (retry ≤ ends x)))
      × ((retry ≡ 0) ⊎ ((x : Seen) × In x rows × (ends x ≡ retry) × (unix o.now < retry)))

  -- What the sums of a capacity are to the rows.
  pub record IsTold (rows : List Seen) (c : Capacity) : Type 0 where
    pub available_counted : c.available ≡ count is_open rows
    pub unknown_counted : c.unknown ≡ count is_doubtful rows
    pub accounts_shown : c.accounts ≡ map (view o policy model) rows
    pub when_open : 0 < count is_open rows → (c.state ≡ is_available) × (c.retry_at ≡ 0)
    pub when_doubtful :
        count is_open rows ≡ 0
        → 0 < count is_doubtful rows
        → (c.state ≡ is_unknown) × (c.retry_at ≡ 0)
    pub when_closed :
        count is_open rows ≡ 0
        → count is_doubtful rows ≡ 0
        → (c.state ≡ is_unavailable) × IsEarliest c.retry_at rows

  open_lem :
      (x : Seen) → reason_of o policy model x ≡ none → (is_open x ≡ true) × (is_doubtful x ≡ false)
  open_lem x free = rw (is_open, is_doubtful, free) (refl, refl)

  refused_lem :
      (x : Seen) (e : Failure)
      → reason_of o policy model x ≡ some e
      → (is_open x ≡ false) × (is_doubtful x ≡ is_catalog_unavailable e)
  refused_lem x e refused = rw (is_open, is_doubtful, refused) (refl, refl)

  note_view-counts :
      (x : Seen) (rows : List Seen) (c : Capacity)
      → ((note_view (unix o.now) (view o policy model x) c).available + count is_open rows
          ≡ c.available + count is_open (x ∷ rows))
        × ((note_view (unix o.now) (view o policy model x) c).unknown + count is_doubtful rows
            ≡ c.unknown + count is_doubtful (x ∷ rows))
        × ((note_view (unix o.now) (view o policy model x) c).state ≡ c.state)
  unfolding note_view view count
  note_view-counts x rows c = elim (Option-cases (reason_of o policy model x)) [
    | inl free ↦
        let (opens, settled) = open_lem x free in
        rw (free, note_view, view)
          (
            counted is_open x rows c.available true opens,
            counted is_doubtful x rows c.unknown false settled,
            refl,
          )
    | inr (e, refused) ↦
        let (opens, doubt) = refused_lem x e refused in
        rw (refused, note_view, view)
          (
            counted is_open x rows c.available false opens,
            counted is_doubtful x rows c.unknown (is_catalog_unavailable e) doubt,
            refl,
          )
  ]

  ends-free : (x : Seen) → reason_of o policy model x ≡ none → ends x ≡ 0
  unfolding view
  ends-free x free = rw (ends, view, free) refl

  note_view-retry :
      (x : Seen) (c : Capacity)
      → IsSooner
          (unix o.now)
          (ends x)
          c.retry_at
          (note_view (unix o.now) (view o policy model x) c).retry_at
  unfolding note_view view
  note_view-retry x c = elim (Option-cases (reason_of o policy model x)) [
    | inl free ↦ rw (free, note_view, view) (inl (refl, inl (omega (arith, ends-free x free))))
    | inr (e, refused) ↦ rw (refused, note_view, view) (sooner (unix o.now) (ends x) c.retry_at)
  ]

  note_views-told :
      (rows : List Seen) (c : Capacity)
      → ((note_views o policy model rows c).available ≡ c.available + count is_open rows)
        × ((note_views o policy model rows c).unknown ≡ c.unknown + count is_doubtful rows)
        × ((note_views o policy model rows c).accounts
            ≡ c.accounts ++ map (view o policy model) rows)
        × ((note_views o policy model rows c).state ≡ c.state)
  unfolding note_views count
  note_views-told [] c = (omega arith, omega arith, sym (append-nil c.accounts), refl)
  note_views-told (x ∷ rows) c =
      let d = note_view (unix o.now) (view o policy model x) c in
      let (a, u, s) = note_view-counts x rows c in
      let (a', u', l', s') = note_views-told rows d in
      (
        omega (arith, a, a'),
        omega (arith, u, u'),
        l'
            ∙ ap (λ shown. shown ++ map (view o policy model) rows)
                (note_view-accounts (unix o.now) (view o policy model x) c)
            ∙ append_assoc c.accounts (view o policy model x ∷ []) (map (view o policy model) rows),
        s' ∙ s,
      )

  note_views-retry :
      (rows : List Seen) (c : Capacity)
      → ((x : Seen)
          → In x rows
          → (ends x ≤ unix o.now)
            ⊎ ((0 < (note_views o policy model rows c).retry_at)
                × ((note_views o policy model rows c).retry_at ≤ ends x)))
        × (((note_views o policy model rows c).retry_at ≡ c.retry_at)
            ⊎ ((x : Seen) × In x rows
                × (ends x ≡ (note_views o policy model rows c).retry_at)
                × (unix o.now < (note_views o policy model rows c).retry_at)))
        × ((c.retry_at ≡ 0)
            ⊎ ((0 < (note_views o policy model rows c).retry_at)
                × ((note_views o policy model rows c).retry_at ≤ c.retry_at)))
  unfolding note_views
  note_views-retry [] c = (λ x m. absurd m, inl refl, ground arith)
  note_views-retry (x ∷ rows) c =
      let d = note_view (unix o.now) (view o policy model x) c in
      let (below, found, kept) = note_views-retry rows d in
      let step = note_view-retry x c in
      (
        λ y m. elim m [
          | inl same ↦
              subst
                (λ z.
                  (ends z ≤ unix o.now)
                  ⊎ ((0 < (note_views o policy model rows d).retry_at)
                      × ((note_views o policy model rows d).retry_at ≤ ends z)))
                (sym same)
                (sooner-ends (unix o.now) (ends x) c.retry_at d.retry_at
                  (note_views o policy model rows d).retry_at step kept)
          | inr other ↦ below y other
        ],
        elim found [
          | inl unchanged ↦ elim step [
            | inl (later, why) ↦ inl (unchanged ∙ later)
            | inr (first, ahead, why) ↦
                inr (x, inl refl, sym (unchanged ∙ first), omega (arith, unchanged, first, ahead))
          ]
          | inr (y, m, e, ahead) ↦ inr (y, inr m, e, ahead)
        ],
        sooner-kept (unix o.now) (ends x) c.retry_at d.retry_at
            (note_views o policy model rows d).retry_at step kept,
      )

  earliest :
      (rows : List Seen) → IsEarliest (note_views o policy model rows no_capacity).retry_at rows
  earliest rows = let (below, found, kept) = note_views-retry rows no_capacity in (below, found)

  conclude-IsTold :
      (rows : List Seen) (c : Capacity)
      → c.available ≡ count is_open rows
      → c.unknown ≡ count is_doubtful rows
      → c.accounts ≡ map (view o policy model) rows
      → c.state ≡ is_unavailable
      → IsEarliest c.retry_at rows
      → IsTold rows (conclude c)
  unfolding conclude
  conclude-IsTold rows c a u l s first = elim (Bool-cases (ltb 0 c.available)) [
    | inl some' ↦
        rw (some', conclude)
          (record {
            available_counted = a;
            unknown_counted = u;
            accounts_shown = l;
            when_open = λ h. (refl, refl);
            when_doubtful = λ h k. absurd (ground (arith, some', a, h));
            when_closed = λ h k. absurd (ground (arith, some', a, h));
          })
    | inr none' ↦ elim (Bool-cases (ltb 0 c.unknown)) [
      | inl some' ↦
          rw (none', some', conclude)
            (record {
              available_counted = a;
              unknown_counted = u;
              accounts_shown = l;
              when_open = λ h. absurd (ground (arith, none', a, h));
              when_doubtful = λ h k. (refl, refl);
              when_closed = λ h k. absurd (ground (arith, some', u, k));
            })
      | inr known ↦
          rw (none', known, conclude)
            (record {
              available_counted = a;
              unknown_counted = u;
              accounts_shown = l;
              when_open = λ h. absurd (ground (arith, none', a, h));
              when_doubtful = λ h k. absurd (ground (arith, known, u, k));
              when_closed = λ h k. (s, first);
            })
    ]
  ]

  recounted :
      (rows : List Seen) (c : Capacity) (counts : Map ℕ ℕ)
      → IsTold rows c
      → IsTold rows (record c { counts = counts })
  recounted rows c counts told = record {
    available_counted = told.available_counted;
    unknown_counted = told.unknown_counted;
    accounts_shown = told.accounts_shown;
    when_open = told.when_open;
    when_doubtful = told.when_doubtful;
    when_closed = told.when_closed;
  }

  closing : (rows : List Seen) → IsTold rows (conclude (note_views o policy model rows no_capacity))
  closing rows =
      let (a, u, l, s) = note_views-told rows no_capacity in
      conclude-IsTold rows (note_views o policy model rows no_capacity) (omega (arith, a))
        (omega (arith, u)) l s (earliest rows)

  -- For a model that the pool allows: the console shows the view of every account, in the order of
  -- the rows, counts as available exactly the rows that give no reason and as unknown those whose
  -- reason is a catalog out of date; the model is available when a row is open, unknown when none
  -- is but a catalog is out of date, and else unavailable until the earliest end of a row's wait that
  -- is to come.
  pub model_availability-IsTold :
      (rows : List Seen)
      → allows policy model ≡ true
      → IsTold rows (model_availability o policy model rows)
  unfolding model_availability
  model_availability-IsTold [] allowed =
      rw (allowed, model_availability) (recounted [] _ _ (closing []))
  model_availability-IsTold (x ∷ rows) allowed =
      rw (allowed, model_availability) (closing (x ∷ rows))
