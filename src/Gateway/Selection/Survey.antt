-- ===== src/Gateway/Selection/Survey.antt =====
-- What the loop over the pool finds: candidates of the best rank only, and no fit account missed.
use sub_lane.Base.{
  In-append, append-In, In, ℕ, ◌≤◌, ◌<◌, min, ◌≡◌, refl, sym, ap, ◌⊎◌, inl, inr, Bool, true, false,
  none, List, [], ◌∷◌, arith, ltb, if◌then◌else◌, Bool-cases, Option-cases,
}
use sub_lane.Failure.{
  Failure, is, account_busy, plain, cooling, quota, member_rate_limited, rejected, store,
}
use sub_lane.Gateway.Route.{Exclusions}
use sub_lane.Gateway.Selection.{Row}
use sub_lane.Gateway.Selection.Candidates.{
  Look, Gate, look_at, Tally, new_tally, note_cooling, count_rejected, admit_rank, note_look,
  survey, not_available, off_policy, broken_catalog, not_known, not_supported, account_refused,
  quota_refused, model_refused, allowance_refused, fit,
}

note_cooling_keeps :
    (e : Failure) (t : Tally)
    → ((note_cooling e t).candidates ≡ t.candidates) × ((note_cooling e t).best_rank ≡ t.best_rank)
unfolding note_cooling
note_cooling_keeps (cooling wait model) t = ground arith
note_cooling_keeps (plain s) t = (refl, refl)
note_cooling_keeps (quota wait) t = (refl, refl)
note_cooling_keeps (member_rate_limited wait) t = (refl, refl)
note_cooling_keeps (rejected status wait model) t = (refl, refl)
note_cooling_keeps store t = (refl, refl)

abbrev pub is_fit : Look → Bool
is_fit (fit r) = true
is_fit _ = false

-- A look that is no fit leaves the candidates.
note_look_keeps :
    (l : Look) (row : Row) (t : Tally)
    → is_fit l ≡ false
    → let u = (note_look l row t).0 in (u.candidates ≡ t.candidates) × (u.best_rank ≡ t.best_rank)
unfolding note_look
note_look_keeps not_available row t h = (refl, refl)
note_look_keeps off_policy row t h = (refl, refl)
note_look_keeps (broken_catalog e) row t h = (refl, refl)
note_look_keeps not_known row t h = (refl, refl)
note_look_keeps not_supported row t h = (refl, refl)
note_look_keeps (account_refused e) row t h =
    let u = count_rejected e (record t { eligible = true }) in
    ground (arith, note_cooling_keeps e (if is e account_busy then record u { busy = true } else u))
note_look_keeps (quota_refused wait) row t h = ground arith
note_look_keeps (model_refused e) row t h =
    ground (arith, note_cooling_keeps e (count_rejected e (record t { eligible = true })))
note_look_keeps (allowance_refused e) row t h = ground arith
note_look_keeps (fit r) row t h = absurd (ground arith)

fit_cases : (l : Look) → (is_fit l ≡ false) ⊎ ((r : ℕ) × (l ≡ fit r))
fit_cases (fit r) = inr (r, refl)
fit_cases not_available = inl refl
fit_cases off_policy = inl refl
fit_cases (broken_catalog e) = inl refl
fit_cases not_known = inl refl
fit_cases not_supported = inl refl
fit_cases (account_refused e) = inl refl
fit_cases (quota_refused wait) = inl refl
fit_cases (model_refused e) = inl refl
fit_cases (allowance_refused e) = inl refl

-- A fit account's effect on the candidates.
admit_rank_lem :
    (r : ℕ) (row x : Row) (t : Tally)
    → let u = admit_rank r row t in
      (u.best_rank ≡ min r t.best_rank)
      × (In x u.candidates
          → (In x t.candidates × (u.best_rank ≡ t.best_rank)) ⊎ ((x ≡ row) × (r ≡ u.best_rank)))
      × (In x t.candidates → u.best_rank ≡ t.best_rank → In x u.candidates)
      × (r ≡ u.best_rank → In row u.candidates)
unfolding admit_rank
admit_rank_lem r row x t = (
  ground arith,
  λ m. ground (arith, In-append t.candidates (row ∷ []) x),
  λ m same. ground (arith, append-In t.candidates (row ∷ []) x),
  λ same. ground (arith, append-In t.candidates (row ∷ []) row),
)

note_fit :
    (r : ℕ) (row : Row) (t : Tally)
    → note_look (fit r) row t ≡ (admit_rank r row (record t { eligible = true }), none)
unfolding note_look
note_fit r row t = refl

-- One turn of the loop.
note_look_lem :
    (l : Look) (row x : Row) (t : Tally)
    → let u = (note_look l row t).0 in
      (u.best_rank ≤ t.best_rank)
      × (In x u.candidates
          → (In x t.candidates × (u.best_rank ≡ t.best_rank)) ⊎ ((x ≡ row) × (l ≡ fit u.best_rank)))
      × (In x t.candidates → u.best_rank ≡ t.best_rank → In x u.candidates)
note_look_lem l row x t = elim (fit_cases l) [
  | inl no' ↦ ground (arith, note_look_keeps l row t no')
  | inr (r, e) ↦
      let taken = admit_rank_lem r row x (record t { eligible = true }) in
      ground (arith, note_fit r row t, taken.0, taken.1, taken.2)
]

note_look-fit :
    (l : Look) (r : ℕ) (row x : Row) (t : Tally)
    → l ≡ fit r
    → x ≡ row
    → let u = (note_look l row t).0 in (u.best_rank ≤ r) × (r ≡ u.best_rank → In x u.candidates)
note_look-fit l r row x t looked here =
    let taken = admit_rank_lem r row row (record t { eligible = true }) in
    (
      ground (arith, note_fit r row t, taken.0),
      λ same.
          rw (here, looked, note_fit r row t) (taken.3 (ground (arith, note_fit r row t, same))),
    )

-- After the loop with no error: every candidate was fit, with the best rank.
pub survey-candidates :
    (g : Gate) (rows : List Row) (x : Row) (t u : Tally)
    → survey g rows t ≡ (u, none)
    → (u.best_rank ≤ t.best_rank)
      × (In x u.candidates
          → (In x t.candidates × (u.best_rank ≡ t.best_rank))
            ⊎ (In x rows × (look_at g x ≡ fit u.best_rank)))
unfolding survey
survey-candidates g [] x t u h = (ground arith, λ m. ground arith)
survey-candidates g (row ∷ rows) x t u h =
    let step = note_look (look_at g row) row t in
    let lem = note_look_lem (look_at g row) row x t in
    elim (Option-cases step.1) [
      | inr (e, failed) ↦ absurd (ground arith)
      | inl on ↦
          let rest = survey-candidates g rows x step.0 u (ground arith) in
          (
            ground (arith, rest.0, lem.0),
            λ m. elim (rest.1 m) [
              | inr later ↦ inr (inr later.0, later.1)
              | inl (before, same) ↦ elim (lem.1 before) [
                | inl kept ↦ inl (kept.0, ground (arith, kept.1, same))
                | inr here ↦ inr (inl here.0, ground (arith, ap (look_at g) here.0, here.1, same))
              ]
            ],
          )
    ]

survey-keeps :
    (g : Gate) (rows : List Row) (x : Row) (t u : Tally)
    → survey g rows t ≡ (u, none)
    → In x t.candidates
    → u.best_rank ≡ t.best_rank
    → In x u.candidates
unfolding survey
survey-keeps g [] x t u h m same = ground arith
survey-keeps g (row ∷ rows) x t u h m same =
    let step = note_look (look_at g row) row t in
    let lem = note_look_lem (look_at g row) row x t in
    elim (Option-cases step.1) [
      | inr (e, failed) ↦ absurd (ground arith)
      | inl on ↦
          let next : survey g rows step.0 ≡ (u, none) = ground arith in
          let below = (survey-candidates g rows x step.0 u next).0 in
          survey-keeps g rows x step.0 u next (lem.2 m (ground (arith, lem.0, below)))
            (ground (arith, lem.0, below))
    ]

-- No fit account is missed: its rank is no better than the best one, and with that rank it is
-- among the candidates.
pub survey-fit :
    (g : Gate) (rows : List Row) (x : Row) (r : ℕ) (t u : Tally)
    → survey g rows t ≡ (u, none)
    → In x rows
    → look_at g x ≡ fit r
    → (u.best_rank ≤ r) × (r ≡ u.best_rank → In x u.candidates)
unfolding survey
survey-fit g [] x r t u h m f = absurd m
survey-fit g (row ∷ rows) x r t u h m f =
    let step = note_look (look_at g row) row t in
    elim (Option-cases step.1) [
      | inr (e, failed) ↦ absurd (ground arith)
      | inl on ↦
          let next : survey g rows step.0 ≡ (u, none) = ground arith in
          elim m [
            | inr later ↦ survey-fit g rows x r step.0 u next later f
            | inl here ↦
                let below = (survey-candidates g rows x step.0 u next).0 in
                let looked : look_at g row ≡ fit r = ground (arith, ap (look_at g) here, f) in
                let lem = note_look-fit (look_at g row) r row x t looked here in
                (
                  ground (arith, lem.0, below),
                  λ same.
                      survey-keeps g rows x step.0 u next
                        (lem.1 (ground (arith, lem.0, below, same)))
                        (ground (arith, lem.0, below, same)),
                )
          ]
    ]

-- The loop from its start: the candidates are accounts of the pool, all fit with the best rank.
pub survey_sound :
    (g : Gate) (rows : List Row) (x : Row) (counted : Exclusions) (u : Tally)
    → survey g rows (record new_tally { exclusions = counted }) ≡ (u, none)
    → In x u.candidates
    → In x rows × (look_at g x ≡ fit u.best_rank)
survey_sound g rows x counted u h m =
    elim ((survey-candidates g rows x (record new_tally { exclusions = counted }) u h).1 m) [
      | inl (nowhere, same) ↦ absurd nowhere
      | inr found ↦ found
    ]

-- The loop from its start, where no account ends it with an error: an account that is fit is a
-- candidate, unless the candidates have a better rank.
pub survey_complete :
    (g : Gate) (rows : List Row) (x : Row) (r : ℕ) (counted : Exclusions) (u : Tally)
    → survey g rows (record new_tally { exclusions = counted }) ≡ (u, none)
    → In x rows
    → look_at g x ≡ fit r
    → (u.best_rank < r) ⊎ ((u.best_rank ≡ r) × In x u.candidates)
survey_complete g rows x r counted u h m f =
    let (below, among) =
      survey-fit g rows x r (record new_tally { exclusions = counted }) u h m f in
    elim (Bool-cases (ltb u.best_rank r)) [
      | inl better ↦ inl (ground arith)
      | inr no' ↦ let same : u.best_rank ≡ r = ground (arith, below) in inr (same, among (sym same))
    ]
