-- ===== src/Gateway/Catalog.antt =====
-- What an account's model catalog says of a model: `CatalogModelID` of internal/upstream/models.go,
-- and `catalogUsable`, `catalogContains`, `catalogSupports` of internal/gateway/catalog.go.
use sub_lane.Base.{
  any, ℕ, ◌-◌, code, String, ◌≡◌, ◌⊎◌, Bool, true, false, not, ◌&&◌, ◌||◌, Option, none, some, List,
  arith, ltb, leb, nat_beq, if◌then◌else◌, ◌==◌, string_eq, nat_eq,
}
use sub_lane.Gateway.State.{unix}

-- What stands before the last "(", if there is one.
unfoldable pub before_paren : String → Option String
before_paren String.[] = none
before_paren (String.◌∷◌ c s) = elim (before_paren s) [
  | some p ↦ some (String.◌∷◌ c p)
  | none ↦ if nat_beq (code c) b'(' then some "" else none
]

unfoldable pub ends_with_paren : String → Bool
ends_with_paren String.[] = false
ends_with_paren (String.◌∷◌ c s) = if s == "" then nat_beq (code c) b')' else ends_with_paren s

-- CatalogModelID: a thinking suffix "(...)" is taken off a name that has more than the suffix.
unfoldable pub catalog_model_id : String → String
unfolding before_paren ends_with_paren
catalog_model_id model = elim (before_paren model) [
  | none ↦ model
  | some p ↦ if not (p == "") && ends_with_paren model then p else model
]

-- accounts.Catalog, as routing reads it.
pub record Catalog : Type 0 where
  pub models : List String
  pub source : String
  pub updated_at : ℕ

-- catalogMaxAge, in seconds.
abbrev pub catalog_max_age : ℕ
catalog_max_age = 86400

unfoldable pub catalog_usable : Catalog → ℕ → Bool
catalog_usable c now =
    ltb 0 c.updated_at
    && leb c.updated_at (unix now)
    && ltb (unix now - c.updated_at) catalog_max_age

unfoldable pub catalog_contains : List String → String → Bool
unfolding any catalog_model_id
catalog_contains models model =
    any (λ m. m == model) models || any (λ m. m == catalog_model_id model) models

-- catalogSupports: whether the answer is known, and the answer; `current` is the provider's
-- catalog source today.
unfoldable pub catalog_supports : Catalog → ℕ → String → String → Bool × Bool
unfolding catalog_usable catalog_contains
catalog_supports c now model current =
    let known = catalog_usable c now in
    let supported = known && catalog_contains c.models model in
    if not supported && not (c.source == current) then (false, false) else (known, supported)

-- An answer that a model is supported is a known one, from a catalog that is fresh; an answer that
-- it is not supported is given by a catalog of the provider's present source only.
pub catalog_supports_lem :
    (c : Catalog) (now : ℕ) (model current : String)
    → let (known, supported) = catalog_supports c now model current in
      ((supported ≡ false)
        ⊎ ((known ≡ true)
            × (catalog_usable c now ≡ true)
            × (catalog_contains c.models model ≡ true)))
      × ((known ≡ false) ⊎ (supported ≡ true) ⊎ ((c.source == current) ≡ true))
unfolding catalog_supports
catalog_supports_lem c now model current = ground arith
