-- ===== src/Auth/Budget.antt =====
-- How often a member may try a second factor: internal/auth/security.go.
use sub_lane.Base.{
  keep, length, lookup, lookup-insert, lookup-insert_self, ℕ, ◌+◌, ◌≤◌, ◌<◌, ◌≡◌, refl, sym, ◌∙◌,
  subst, ◌⊎◌, inl, inr, false, Option, none, some, List, [], ◌∷◌, arith, leb, if◌then◌else◌,
  nat_beq_iff, Bool-cases, Option-cases, if_either, ◌==◌, string_eq, nat_eq, int_eq,
}
use sub_lane.Auth.{
  Refusal, FactorWindow, Failures, minute, sweep, count_try, factor_attempt, auth_busy,
}

abbrev pub accepts : Option Refusal → ℕ
accepts none = 1
accepts (some e) = 0

-- The attempts of one member that are let through in a run of attempts of anyone, each with its
-- instant.
unfoldable pub admitted : ℕ → List (ℕ × ℕ) → Failures → ℕ
admitted user [] table = 0
admitted user ((now, who) ∷ rest) table =
    let (left, refused) = factor_attempt now who table in
    (if who == user then accepts refused else 0) + admitted user rest left

abbrev pub Until : ℕ → List (ℕ × ℕ) → Type 0
Until stop [] = Unit
Until stop (a ∷ rest) = (a.0 < stop) × Until stop rest

-- Every attempt is in the minute that starts with the instant.
abbrev pub InMinute : ℕ → List (ℕ × ℕ) → Type 0
InMinute start [] = Unit
InMinute start (a ∷ rest) = (start ≤ a.0) × (a.0 < start + minute) × InMinute start rest

InMinute-Until :
    (start now : ℕ) (run : List (ℕ × ℕ))
    → start ≤ now
    → InMinute start run
    → Until (now + minute) run
InMinute-Until start now [] h i = tt
InMinute-Until start now (a ∷ rest) h i = (omega arith, InMinute-Until start now rest h i.2)

sweep-none :
    (user now : ℕ) (table : Failures)
    → lookup user table ≡ none
    → lookup user (sweep now table) ≡ none
unfolding sweep lookup keep
sweep-none user now [] h = refl
sweep-none user now ((at, v) ∷ rest) h = ground (arith, sweep-none user now rest)

lookup-sweep :
    (user now : ℕ) (w : FactorWindow) (table : Failures)
    → lookup user table ≡ some w
    → now < w.reset
    → lookup user (sweep now table) ≡ some w
unfolding sweep lookup keep
lookup-sweep user now w [] h live = absurd (ground arith)
lookup-sweep user now w ((at, v) ∷ rest) h live = ground (arith, lookup-sweep user now w rest)

-- The member's window, after an attempt of its own.
abbrev Tracked : ℕ → FactorWindow → Failures × Option Refusal → Type 0
Tracked user w out =
    (v : FactorWindow) × (lookup user out.0 ≡ some v)
    × (v.reset ≡ w.reset)
    × (v.tries ≡ w.tries + accepts out.1)
    × (v.tries ≤ 5)

count_try-own :
    (now user : ℕ) (w : FactorWindow) (table : Failures)
    → lookup user table ≡ some w
    → w.tries ≤ 5
    → Tracked user w (count_try now user w table)
unfolding count_try
count_try-own now user w table found few = elim (Bool-cases (leb 5 w.tries)) [
  | inl full ↦ rw full (w, found, refl, omega arith, few)
  | inr room ↦ rw room (
      let next = record w { tries = w.tries + 1 } in
      (next, lookup-insert_self user next table, refl, refl, ground arith))
]

count_try-other :
    (now who user : ℕ) (w : FactorWindow) (table : Failures)
    → (who == user) ≡ false
    → lookup user (count_try now who w table).0 ≡ lookup user table
unfolding count_try
count_try-other now who user w table differs = elim (Bool-cases (leb 5 w.tries)) [
  | inl full ↦ rw full
  | inr room ↦
      rw room (lookup-insert who user (record w { tries = w.tries + 1 }) table ∙ rw differs)
]

attempt-known :
    (now user : ℕ) (w : FactorWindow) (table : Failures)
    → lookup user (sweep now table) ≡ some w
    → factor_attempt now user table ≡ count_try now user w (sweep now table)
unfolding factor_attempt
attempt-known now user w table found = rw (found, factor_attempt)

attempt-unknown :
    (now user : ℕ) (table : Failures)
    → lookup user (sweep now table) ≡ none
    → factor_attempt now user table ≡ (
        if leb 1024 (length (sweep now table))
        then (sweep now table, some auth_busy)
        else count_try now user (record { tries = 0; reset = now + minute }) (sweep now table))
unfolding factor_attempt
attempt-unknown now user table missing = rw (missing, factor_attempt)

attempt-other :
    (now who user : ℕ) (table : Failures)
    → (who == user) ≡ false
    → lookup user (factor_attempt now who table).0 ≡ lookup user (sweep now table)
attempt-other now who user table differs = elim (Option-cases (lookup who (sweep now table))) [
  | inr (v, known) ↦
      rw (attempt-known now who v table known)
        (count_try-other now who user v (sweep now table) differs)
  | inl missing ↦ rw (attempt-unknown now who table missing) (
      if_either {A = Failures × Option Refusal}
        (λ out. lookup user out.0 ≡ lookup user (sweep now table))
        (leb 1024 (length (sweep now table))) (sweep now table, some auth_busy)
        (count_try now who (record { tries = 0; reset = now + minute }) (sweep now table))
        (λ full. refl)
        (λ room.
          count_try-other now who user (record { tries = 0; reset = now + minute })
            (sweep now table) differs))
]

-- In what is left of a window, the member's tries and those that are let through are five at most.
rest_within :
    (user : ℕ) (w : FactorWindow) (run : List (ℕ × ℕ)) (table : Failures)
    → lookup user table ≡ some w
    → w.tries ≤ 5
    → Until w.reset run
    → w.tries + admitted user run table ≤ 5
unfolding admitted
rest_within user w [] table found few live = omega arith
rest_within user w ((now, who) ∷ rest) table found few live =
    let kept = lookup-sweep user now w table found live.0 in
    elim (Bool-cases (who == user)) [
      | inr other ↦
          let later =
            rest_within user w rest (factor_attempt now who table).0
              (attempt-other now who user table other ∙ kept) few live.1 in
          rw other (omega (arith, later))
      | inl own ↦
          let tracked : Tracked user w (factor_attempt now who table) =
            rw ((nat_beq_iff who user).0 own, attempt-known now user w table kept)
              (count_try-own now user w (sweep now table) kept few) in
          let (v, known, until, tries, few') = tracked in
          let later =
            rest_within user v rest (factor_attempt now who table).0 known few'
              (subst (λ stop. Until stop rest) (sym until) live.1) in
          rw own (omega (arith, later, tries))
    ]

-- The first attempt of a member opens its window, unless the table is full.
abbrev Opened : ℕ → ℕ → Failures → Failures × Option Refusal → Type 0
Opened now user swept out =
    (out ≡ (swept, some auth_busy))
    ⊎ ((out.1 ≡ none) × (lookup user out.0 ≡ some (record { tries = 1; reset = now + minute })))

count_try-opens :
    (now user : ℕ) (table : Failures)
    → Opened now user table (count_try now user (record { tries = 0; reset = now + minute }) table)
unfolding count_try
count_try-opens now user table =
    inr (refl, lookup-insert_self user (record { tries = 1; reset = now + minute }) table)

first_attempt :
    (now user : ℕ) (table : Failures)
    → lookup user (sweep now table) ≡ none
    → Opened now user (sweep now table) (factor_attempt now user table)
first_attempt now user table missing = rw (attempt-unknown now user table missing) (
    if_either {A = Failures × Option Refusal} (Opened now user (sweep now table))
      (leb 1024 (length (sweep now table))) (sweep now table, some auth_busy)
      (count_try now user (record { tries = 0; reset = now + minute }) (sweep now table))
      (λ full. inl refl) (λ room. count_try-opens now user (sweep now table)))

-- Of a member with no window of failures on record at an instant: in the minute from that instant on,
-- whatever anyone tries in it, at most five of the member's attempts are let through, as long as none
-- of anyone's succeeds. It bounds no minute that starts within a window.
pub minute_within :
    (user start : ℕ) (run : List (ℕ × ℕ)) (table : Failures)
    → lookup user table ≡ none
    → InMinute start run
    → admitted user run table ≤ 5
unfolding admitted
minute_within user start [] table fresh live = omega arith
minute_within user start ((now, who) ∷ rest) table fresh live =
    let missing = sweep-none user now table fresh in
    elim (Bool-cases (who == user)) [
      | inr other ↦
          let later =
            minute_within user start rest (factor_attempt now who table).0
              (attempt-other now who user table other ∙ missing) live.2 in
          rw other (omega (arith, later))
      | inl own ↦
          let opened : Opened now user (sweep now table) (factor_attempt now who table) =
            rw ((nat_beq_iff who user).0 own) (first_attempt now user table missing) in
          elim opened [
            | inl busy ↦
                let later = minute_within user start rest (sweep now table) missing live.2 in
                rw (own, busy) (omega (arith, later))
            | inr (accepted, known) ↦
                let later =
                  rest_within user (record { tries = 1; reset = now + minute }) rest
                    (factor_attempt now who table).0 known (omega arith)
                    (InMinute-Until start now rest live.0 live.2) in
                rw (own, accepted) (omega (arith, later))
          ]
    ]
