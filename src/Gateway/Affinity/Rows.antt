-- ===== src/Gateway/Affinity/Rows.antt =====
-- The rows of the table of bindings: which row a conversation finds, and what the writes leave.
use text.Mathlib.TextEquality.{eq_iff}
use sub_lane.Base.{
  keep, any, find, In, In-any, ℕ, ◌≤◌, ◌<◌, String, ◌≡◌, refl, sym, ap, ◌∙◌, inl, inr, Bool, true,
  false, not, ◌&&◌, ◌||◌, Option, some, List, [], ◌∷◌, arith, ltb, if◌then◌else◌, lt→ltb,
  Bool-cases, ◌==◌, string_eq, nat_eq,
}
use sub_lane.Failure.{ok}
use sub_lane.Gateway.Affinity.{
  Affinity, Conversation, is_of, is_keyed, list_session, pick_binding, session_binding, prune,
  create, remember, touch_row, touch, replace_row, replace,
}

-- Whether a conversation's binding under the scope leads to the account.
pub record IsBound (v : Conversation) (at : ℕ) (t : List Affinity) (scope : String) (id : String)
    : Type 0 where
  pub binding : Affinity
  pub found : session_binding v at t scope ≡ ok (some binding)
  pub account : binding.account_id ≡ id

-- A row under the scope, live at the instant, that comes first.
abbrev pub first_row : Conversation → ℕ → List Affinity → String → Option Affinity
first_row v at t scope = find (λ a. a.provider == scope) (list_session v at t)

pub first-IsBound :
    (v : Conversation) (at : ℕ) (t : List Affinity) (scope id : String) (a : Affinity)
    → first_row v at t scope ≡ some a
    → a.account_id ≡ id
    → IsBound v at t scope id
unfolding session_binding pick_binding
first-IsBound v at t scope id a h e = record { binding = a; found = ground (arith, h); account = e }

find_kept :
    (f : Affinity → Bool) (b : Bool) (a : Affinity) (xs : List Affinity)
    → find f (if b then a ∷ xs else xs)
      ≡ (if b then (if f a then some a else find f xs) else find f xs)
unfolding find
find_kept f true a xs = refl
find_kept f false a xs = refl

reorder :
    (o p l : Bool) (a : Affinity) (r : Option Affinity)
    → (if o && l then (if p then some a else r) else r) ≡ (if o && p && l then some a else r)
reorder true true true a r = refl
reorder true true false a r = refl
reorder true false true a r = refl
reorder true false false a r = refl
reorder false true true a r = refl
reorder false true false a r = refl
reorder false false true a r = refl
reorder false false false a r = refl

-- The first row is this one, if it has the key and lives, or else the first of the rest.
first-step :
    (v : Conversation) (at : ℕ) (a : Affinity) (t : List Affinity) (scope : String)
    → first_row v at (a ∷ t) scope
      ≡ (if is_keyed v scope a && ltb at a.expires_at then some a else first_row v at t scope)
unfolding list_session keep
first-step v at a t scope =
    find_kept (λ x. x.provider == scope) (is_of v a && ltb at a.expires_at) a (list_session v at t)
    ∙ reorder (is_of v a) (a.provider == scope) (ltb at a.expires_at) a (first_row v at t scope)

pub here-IsBound :
    (v : Conversation) (at : ℕ) (a : Affinity) (t : List Affinity) (scope : String)
    → is_keyed v scope a ≡ true
    → at < a.expires_at
    → first_row v at (a ∷ t) scope ≡ some a
here-IsBound v at a t scope k live =
    rw (first-step v at a t scope, k, lt→ltb at a.expires_at live) refl

pub skip-row :
    (v : Conversation) (at : ℕ) (a : Affinity) (t : List Affinity) (scope : String)
    → is_keyed v scope a ≡ false
    → first_row v at (a ∷ t) scope ≡ first_row v at t scope
skip-row v at a t scope k = rw (first-step v at a t scope, k) refl

replace_row-keyed :
    (v : Conversation) (scope id model : String) (expires : ℕ) (a : Affinity)
    → is_keyed v scope a ≡ true
    → let r = replace_row v scope id model expires a in
      (is_keyed v scope r ≡ true) × (r.account_id ≡ id) × (r.expires_at ≡ expires)
replace_row-keyed v scope id model expires a k = rw k (k, refl, refl)

replace_row-other :
    (v : Conversation) (scope id model : String) (expires : ℕ) (a : Affinity)
    → is_keyed v scope a ≡ false
    → replace_row v scope id model expires a ≡ a
replace_row-other v scope id model expires a k = rw k refl

-- After the replacement every row with the key leads to the new account.
pub replace-first :
    (v : Conversation) (scope id model : String) (expires at : ℕ) (t : List Affinity) (b : Affinity)
    → at < expires
    → In b t
    → is_keyed v scope b ≡ true
    → (a : Affinity) × (first_row v at (replace v scope id model expires t) scope ≡ some a)
      × (a.account_id ≡ id)
unfolding replace
replace-first v scope id model expires at [] b live m k = absurd m
replace-first v scope id model expires at (c ∷ t) b live m k =
    elim (Bool-cases (is_keyed v scope c)) [
      | inl its ↦
          let r = replace_row v scope id model expires c in
          let (keyed, account, until) = replace_row-keyed v scope id model expires c its in
          (
            r,
            here-IsBound v at r (replace v scope id model expires t) scope keyed
                (omega (arith, until)),
            account,
          )
      | inr other ↦ elim m [
        | inl here ↦ absurd (ground (arith, ap (is_keyed v scope) here, k, other))
        | inr later ↦
            let (a, first, account) = replace-first v scope id model expires at t b live later k in
            (
              a,
              rw (replace_row-other v scope id model expires c other)
                  (skip-row v at c (replace v scope id model expires t) scope other ∙ first),
              account,
            )
      ]
    ]

-- A table with at most one row for a key.
abbrev pub HasKeys : List Affinity → Type 0
HasKeys [] = Unit {0}
HasKeys (a ∷ t) =
    (any
        (is_keyed (record { user_id = a.user_id; group_id = a.group_id; digest = a.digest })
          a.provider)
        t
      ≡ false)
    × HasKeys t

touch_row-keyed :
    (v : Conversation) (scope model : String) (expires threshold at : ℕ) (a : Affinity)
    → at < threshold
    → threshold ≤ expires
    → is_keyed v scope a ≡ true
    → let r = touch_row v scope model expires threshold a in
      (is_keyed v scope r ≡ true) × (r.account_id ≡ a.account_id) × (at < r.expires_at)
touch_row-keyed v scope model expires threshold at a early wide k =
    elim (Bool-cases (ltb a.expires_at threshold || not (a.model == model))) [
      | inl moved ↦ rw (k, moved) (k, refl, omega arith)
      | inr stays' ↦ rw (k, stays') (k, refl, ground arith)
    ]

pub touch_row-other :
    (v : Conversation) (scope model : String) (expires threshold : ℕ) (a : Affinity)
    → is_keyed v scope a ≡ false
    → touch_row v scope model expires threshold a ≡ a
touch_row-other v scope model expires threshold a k = rw k refl

-- Two rows with one key are one row.
keyed_rest :
    (v : Conversation) (scope : String) (c b : Affinity) (t : List Affinity)
    → HasKeys (c ∷ t)
    → is_keyed v scope c ≡ true
    → is_keyed v scope b ≡ true
    → In b t
    → ⊥
keyed_rest v scope c b t keys kc kb m =
    let same : is_keyed (record { user_id = c.user_id; group_id = c.group_id; digest = c.digest })
          c.provider b
        ≡ true =
      ground (
        arith,
        eq_iff c.digest v.digest,
        eq_iff b.digest v.digest,
        eq_iff b.digest c.digest,
        eq_iff c.provider scope,
        eq_iff b.provider scope,
        eq_iff b.provider c.provider,
        kc,
        kb,
      ) in
    let one =
      In-any
        (is_keyed (record { user_id = c.user_id; group_id = c.group_id; digest = c.digest })
          c.provider)
        t b m same in
    absurd (ground (arith, keys.0, one))

pub touch-first :
    (v : Conversation) (scope model : String) (expires threshold at : ℕ) (t : List Affinity)
    (b : Affinity)
    → at < threshold
    → threshold ≤ expires
    → HasKeys t
    → In b t
    → is_keyed v scope b ≡ true
    → (a : Affinity) × (first_row v at (touch v scope model expires threshold t) scope ≡ some a)
      × (a.account_id ≡ b.account_id)
unfolding touch
touch-first v scope model expires threshold at [] b early wide keys m k = absurd m
touch-first v scope model expires threshold at (c ∷ t) b early wide keys m k =
    elim (Bool-cases (is_keyed v scope c)) [
      | inl its ↦
          let r = touch_row v scope model expires threshold c in
          let (keyed, account, until) =
            touch_row-keyed v scope model expires threshold at c early wide its in
          elim m [
            | inl here ↦ (
              r,
              here-IsBound v at r (touch v scope model expires threshold t) scope keyed until,
              account ∙ ap (λ (x : Affinity). x.account_id) (sym here),
            )
            | inr later ↦ absurd (keyed_rest v scope c b t keys its k later)
          ]
      | inr other ↦ elim m [
        | inl here ↦ absurd (ground (arith, ap (is_keyed v scope) here, k, other))
        | inr later ↦
            let (a, first, account) =
              touch-first v scope model expires threshold at t b early wide keys.1 later k in
            (
              a,
              rw (touch_row-other v scope model expires threshold c other)
                  (skip-row v at c (touch v scope model expires threshold t) scope other ∙ first),
              account,
            )
      ]
    ]

pub remember-head :
    (row : Affinity) (now : ℕ) (t u : List Affinity)
    → remember row now t ≡ ok u
    → u ≡ row ∷ prune now t
unfolding remember create
remember-head row now t u h = ground arith
