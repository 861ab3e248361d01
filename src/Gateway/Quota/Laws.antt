-- ===== src/Gateway/Quota/Laws.antt =====
-- Laws of quota snapshots: how long one is believed, and what a routing weight can be.
use sub_lane.Base.{
  ℕ, ◌+◌, ◌≤◌, ◌<◌, min, ◌≡◌, refl, ◌⊎◌, inl, inr, Bool, true, false, Option, none, some, List, [],
  ◌∷◌, arith, Bool-cases, Option-cases, ◌==◌, string_eq, nat_eq,
}
use sub_lane.Gateway.Quota.{
  UsageWindow, UsageLimit, Usage, QuotaState, Decision, decided, usage_ttl, lowered, sooner,
  sooner_of, expires_at, is_stale, remaining, limit_weight, Round, judge, read_limit, read_limits,
  quota_status, unknown, stale, available, exhausted, returns, goes_on,
}
use sub_lane.Gateway.Quota.Percent.{Float, is_left, ceil_left, ceil_left_bounds}

lowered_bounds :
    (updated expires : ℕ) (reset : Option ℕ)
    → updated < expires
    → (updated < lowered updated expires reset) × (lowered updated expires reset ≤ expires)
unfolding lowered
lowered_bounds updated expires none h = omega arith
lowered_bounds updated expires (some at) h = ground arith

sooner_bounds :
    (updated expires : ℕ) (ws : List UsageWindow)
    → updated < expires
    → (updated < sooner updated expires ws) × (sooner updated expires ws ≤ expires)
unfolding sooner
sooner_bounds updated expires [] h = omega arith
sooner_bounds updated expires (w ∷ ws) h =
    let b = lowered_bounds updated expires w.reset_at h in
    let c = sooner_bounds updated (lowered updated expires w.reset_at) ws b.0 in omega arith

sooner_of_bounds :
    (updated expires : ℕ) (ls : List UsageLimit)
    → updated < expires
    → (updated < sooner_of updated expires ls) × (sooner_of updated expires ls ≤ expires)
unfolding sooner_of
sooner_of_bounds updated expires [] h = omega arith
sooner_of_bounds updated expires (l ∷ ls) h =
    let b = sooner_bounds updated expires l.windows h in
    let c = sooner_of_bounds updated (sooner updated expires l.windows) ls b.0 in omega arith

-- A snapshot lives for at most two minutes from its observation.
pub expires_at_bounds :
    (u : Usage) → (u.updated_at < expires_at u) × (expires_at u ≤ u.updated_at + 120)
unfolding expires_at
expires_at_bounds u =
    sooner_of_bounds u.updated_at (u.updated_at + usage_ttl) u.limits (omega arith)

remaining-le : (ws : List UsageWindow) (left : ℕ) → remaining ws left ≤ left
unfolding remaining
remaining-le [] left = omega arith
remaining-le (w ∷ ws) left = elim (Option-cases w.used_percent) [
  | inl e ↦ rw (e, remaining) (omega arith)
  | inr (p, e) ↦ rw (e, remaining) (ground (arith, remaining-le ws (min left (ceil_left p))))
]

-- Every window of the list reports a percentage in 0 .. 100, short of 100.
abbrev pub AllLeft : List UsageWindow → Type 0
AllLeft [] = Unit
AllLeft (w ∷ ws) = ((p : Float) × (w.used_percent ≡ some p) × (is_left p ≡ true)) × AllLeft ws

remaining-pos : (ws : List UsageWindow) (left : ℕ) → 1 ≤ left → AllLeft ws → 1 ≤ remaining ws left
unfolding remaining
remaining-pos [] left h a = h
remaining-pos (w ∷ ws) left h ((p, e, k), a) =
    rw (e, remaining)
      (rw k (remaining-pos ws (min left (ceil_left p)) (omega (arith, ceil_left_bounds p k)) a))

abbrev pub is_exhausted : QuotaState → Bool
is_exhausted exhausted = true
is_exhausted _ = false

-- What a decision can be: a weight of 1 .. 100 belongs to an available account only, and an
-- exhausted one is retried after now and within the snapshot's life.
pub record IsSound (now : ℕ) (expires : ℕ) (d : Decision) : Type 0 where
  pub weight_bounded : d.weight ≤ 100
  pub weight_available : (d.weight ≡ 0) ⊎ (d.state ≡ available)
  pub retried : (is_exhausted d.state ≡ false) ⊎ ((now < d.retry_at) × (d.retry_at ≤ expires))

abbrev RoundIsSound : ℕ → ℕ → Round → Type 0
RoundIsSound now expires (returns d) = IsSound now expires d
RoundIsSound now expires (goes_on d) = IsSound now expires d × (is_exhausted d.state ≡ false)

limit_weight-le : (ws : List UsageWindow) (w : ℕ) → w ≤ 100 → limit_weight ws w ≤ 100
unfolding limit_weight
limit_weight-le [] w h = h
limit_weight-le (x ∷ ws) w h = remaining-le (x ∷ ws) 100

judge-IsSound :
    (now expires : ℕ) (l : UsageLimit) (d : Decision) (r : Option (Bool × Bool))
    → now < expires
    → IsSound now expires d
    → is_exhausted d.state ≡ false
    → RoundIsSound now expires (judge expires l d r)
unfolding judge
judge-IsSound now expires l d none live s k = ground arith
judge-IsSound now expires l d (some (known, true)) live s k = ground arith
judge-IsSound now expires l d (some (true, false)) live s k =
    (ground (arith, limit_weight-le l.windows d.weight), refl)
judge-IsSound now expires l d (some (false, false)) live s k = (s, k)

round-IsSound :
    (now expires : ℕ) (ls : List UsageLimit) (main : ℕ) (r : Round)
    → ((d : Decision)
        → IsSound now expires d
        → is_exhausted d.state ≡ false
        → IsSound now expires (read_limits now expires ls d main))
    → RoundIsSound now expires r
    → IsSound now expires
        (elim r [ returns d ↦ d | goes_on next ↦ read_limits now expires ls next main ])
round-IsSound now expires ls main (returns d) ih s = s
round-IsSound now expires ls main (goes_on d) ih s = ih d s.0 s.1

read_limits-IsSound :
    (now expires : ℕ) (ls : List UsageLimit) (d : Decision) (main : ℕ)
    → now < expires
    → IsSound now expires d
    → is_exhausted d.state ≡ false
    → IsSound now expires (read_limits now expires ls d main)
unfolding read_limits read_limit
read_limits-IsSound now expires [] d main live s k = elim (Bool-cases (main == 1)) [
  | inl one ↦ rw one s
  | inr other ↦ rw other (ground arith)
]
read_limits-IsSound now expires (l ∷ ls) d main live s k = elim (Bool-cases (l.name == "")) [
  | inr named ↦ rw named (read_limits-IsSound now expires ls d main live s k)
  | inl bare ↦ rw bare (
      round-IsSound now expires ls (main + 1) _
        (λ d' s' k'. read_limits-IsSound now expires ls d' (main + 1) live s' k')
        (judge-IsSound now expires l d _ live s k))
]

decided-IsSound :
    (now expires : ℕ) (q : QuotaState) → is_exhausted q ≡ false → IsSound now expires (decided q)
decided-IsSound now expires q h = ground arith

fresh_lives : (u : Usage) (now : ℕ) → is_stale u now ≡ false → now < expires_at u
unfolding is_stale
fresh_lives u now h = ground arith

IsSound-mono : (now e e' : ℕ) (d : Decision) → e ≤ e' → IsSound now e d → IsSound now e' d
IsSound-mono now e e' d h s = record {
  weight_bounded = s.weight_bounded;
  weight_available = s.weight_available;
  retried = ground (arith, s.retried);
}

-- Whatever a snapshot holds, a weight lies in 0 .. 100 and only an available account has one, and
-- an exhausted account is to be retried after the present second and at most two minutes after
-- the observation.
pub quota_status-IsSound :
    (u : Usage) (now : ℕ) → IsSound now (u.updated_at + 120) (quota_status u now)
unfolding quota_status
quota_status-IsSound u now = elim (Bool-cases (u.updated_at == 0)) [
  | inl none' ↦ rw none' (decided-IsSound now _ unknown (refl))
  | inr seen ↦ elim (Bool-cases (is_stale u now)) [
    | inl old ↦ rw (seen, old) (decided-IsSound now _ stale (refl))
    | inr fresh ↦
        rw (seen, fresh)
          (IsSound-mono now (expires_at u) (u.updated_at + 120) _ (expires_at_bounds u).1 (
            read_limits-IsSound now (expires_at u) u.limits (decided unknown) 0
              (fresh_lives u now fresh) (decided-IsSound now _ unknown (refl)) (refl)))
  ]
]
