-- ===== src/Groups/Laws.antt =====
-- Laws of the pool policy: names survive the split, the two gates agree, ranks are bounded.
use Prim.Native.Char.{Char}
use text.Mathlib.TextEquality.{eq_iff, Char-path}
use sub_lane.Base.{
  ◌≤◌, ◌<◌, code, String, ◌≡◌, refl, ap, ◌⊎◌, inl, inr, Bool, true, some, arith, nat_beq,
  nat_beq_iff, Bool-cases, Option-cases, ◌==◌, string_eq, nat_eq, int_eq,
}
use sub_lane.Groups.{
  subscription_provider, cut_slash, qualify, split_model, Routing, demotion, rank,
}

pub text_beq_sym : (s t : String) → (s == t) ≡ (t == s)
text_beq_sym s t = ground (arith, eq_iff s t, eq_iff t s)

demotion-le : (r : Routing) (provider : String) → demotion r provider ≤ 2
unfolding demotion
demotion-le r provider = ground arith

pub rank-lt : (r : Routing) (provider preferred : String) → rank r provider preferred < 4
unfolding rank
rank-lt r provider preferred = ground (arith, demotion-le r provider)

-- A subscription provider is one of four names.
pub subscription_cases {ℓ} :
    (P : String → Type ℓ)
    → P "codex"
    → P "claude"
    → P "antigravity"
    → P "xai"
    → (p : String) → subscription_provider p ≡ true
    → P p
unfolding subscription_provider
subscription_cases P a b c d p h = elim (Bool-cases (p == "codex")) [
  | inl e ↦ rw ((eq_iff p "codex").0 e) a
  | inr n ↦ elim (Bool-cases (p == "claude")) [
    | inl e ↦ rw ((eq_iff p "claude").0 e) b
    | inr n' ↦ elim (Bool-cases (p == "antigravity")) [
      | inl e ↦ rw ((eq_iff p "antigravity").0 e) c
      | inr n'' ↦ rw ((eq_iff p "xai").0 (ground arith)) d
    ]
  ]
]

abbrev pub routing : String → Bool → Routing
routing preference fallback = record { preference = preference; allow_api_fallback = fallback }

-- Under `subscription_first` every subscription is ranked before an API channel, and under
-- `api_first` every channel before a subscription, whichever protocol the request speaks.
pub rank_order :
    (fallback : Bool) (provider preferred : String)
    → subscription_provider provider ≡ true
    → (rank (routing "subscription_first" fallback) provider preferred
        < rank (routing "subscription_first" fallback) "openai" preferred)
      × (rank (routing "api_first" fallback) "openai" preferred
          < rank (routing "api_first" fallback) provider preferred)
unfolding rank
rank_order f provider preferred s =
    subscription_cases
      (λ p.
        (rank (routing "subscription_first" f) p preferred
          < rank (routing "subscription_first" f) "openai" preferred)
        × (rank (routing "api_first" f) "openai" preferred
            < rank (routing "api_first" f) p preferred))
      (ground arith) (ground arith) (ground arith) (ground arith) provider s

-- A name joined from a subscription provider and any model's name splits into the two again.
pub split_qualified :
    (provider native : String)
    → subscription_provider provider ≡ true
    → split_model (qualify provider native) ≡ (provider, native)
unfolding split_model
split_qualified provider native s =
    subscription_cases (λ p. split_model (qualify p native) ≡ (p, native)) refl refl refl refl
      provider s

join_here :
    (c : Char) (s p n : String)
    → nat_beq (code c) b'/' ≡ true
    → p ≡ ""
    → n ≡ s
    → String.◌∷◌ c s ≡ qualify p n
join_here c s p n slash e f =
    rw (e, f) (ap (λ d. String.◌∷◌ d s) (Char-path c _ ((nat_beq_iff _ _).0 slash)))

join_later :
    (c : Char) (s p n p' n' : String)
    → s ≡ qualify p' n'
    → p ≡ String.◌∷◌ c p'
    → n ≡ n'
    → String.◌∷◌ c s ≡ qualify p n
join_later c s p n p' n' ih e f = rw (e, f) (ap (String.◌∷◌ c) ih)

cut_slash_join : (s p n : String) → cut_slash s ≡ some (p, n) → s ≡ qualify p n
unfolding cut_slash
cut_slash_join String.[] p n h = cc
cut_slash_join (String.◌∷◌ c s) p n h = elim (Bool-cases (nat_beq (code c) b'/')) [
  | inl slash ↦ join_here c s p n slash (ground arith) (ground arith)
  | inr other ↦ elim (Option-cases (cut_slash s)) [
    | inl e ↦ absurd (ground arith)
    | inr (q, e) ↦
        join_later c s p n q.0 q.1 (cut_slash_join s q.0 q.1 e) (ground arith) (ground arith)
  ]
]

-- The split loses nothing: with a prefix the parts rejoin to the name asked for, and the prefix is
-- a subscription provider; without one the name is kept whole. A qualified name splits into the
-- parts it was joined from.
abbrev pub IsSplit : String → String × String → Type 0
IsSplit model (provider, native) =
    ((provider ≡ "") × (native ≡ model))
    ⊎ ((subscription_provider provider ≡ true) × (model ≡ qualify provider native))

-- Whatever the name, it splits into no provider and the whole name, or into a subscription provider
-- and a rest that join to the name again.
split_model-IsSplit : (model : String) → IsSplit model (split_model model)
unfolding split_model
split_model-IsSplit model = elim (Option-cases (cut_slash model)) [
  | inl e ↦ rw (e, split_model) (inl (refl, refl))
  | inr (q, e) ↦ elim (Bool-cases (subscription_provider q.0)) [
    | inl s ↦ rw (e, split_model) (rw s (inr (s, cut_slash_join model q.0 q.1 e)))
    | inr n ↦ rw (e, split_model) (rw n (inl (refl, refl)))
  ]
]
