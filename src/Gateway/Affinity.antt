-- ===== src/Gateway/Affinity.antt =====
-- The bindings of conversations to accounts: the table `account_affinity` with the queries of
-- internal/storage/queries/gateway.sql, `sessionBinding` of internal/gateway/affinity.go and
-- `rememberAffinity` of selection.go. A digest is the result of `sessionDigest`.
pub mod Rows
use sub_lane.Base.{
  keep, any, find, length, get_elem?, ℕ, String, Bool, not, ◌&&◌, ◌||◌, Option, none, some, List,
  [], ◌∷◌, ltb, leb, if◌then◌else◌, ◌==◌, string_eq, nat_eq,
}
use sub_lane.Failure.{Result, affinity_unavailable, affinity_limit, plain, store, err, ok}

pub record Affinity : Type 0 where
  pub user_id : ℕ
  pub group_id : ℕ
  pub digest : String
  pub provider : String
  pub account_id : String
  pub model : String
  pub expires_at : ℕ
  pub rebound : Bool

-- A conversation of a member in a pool.
pub record Conversation : Type 0 where
  pub user_id : ℕ
  pub group_id : ℕ
  pub digest : String

abbrev pub is_of : Conversation → Affinity → Bool
is_of v a = a.user_id == v.user_id && a.group_id == v.group_id && a.digest == v.digest

-- The primary key.
abbrev pub is_keyed : Conversation → String → Affinity → Bool
is_keyed v scope a = is_of v a && a.provider == scope

-- ListSessionAffinities; its order does not matter to `sessionBinding`.
unfoldable pub list_session : Conversation → ℕ → List Affinity → List Affinity
unfolding keep
list_session v now t = keep (λ a. is_of v a && ltb now a.expires_at) t

-- sessionBinding
unfoldable pub pick_binding : List Affinity → String → Result (Option Affinity)
unfolding find
pick_binding bindings scope = elim (find (λ a. a.provider == scope) bindings) [
  | some a ↦ ok (some a)
  | none ↦
      if scope == "auto" && ltb 0 (length bindings)
      then if length bindings == 1
        then ok (get_elem? bindings 0)
        else err (plain affinity_unavailable)
      else ok none
]

unfoldable pub session_binding :
    Conversation → ℕ → List Affinity → String → Result (Option Affinity)
unfolding list_session pick_binding
session_binding v now t scope = pick_binding (list_session v now t) scope

unfoldable pub prune : ℕ → List Affinity → List Affinity
unfolding keep
prune now t = keep (λ a. ltb now a.expires_at) t

-- CreateAccountAffinity: a second row with the key of a first is an error of the database.
unfoldable pub create : Affinity → List Affinity → Result (List Affinity)
unfolding any
create row t =
    if any
      (is_keyed (record { user_id = row.user_id; group_id = row.group_id; digest = row.digest })
        row.provider)
      t
    then err store
    else ok (row ∷ t)

-- rememberAffinity
unfoldable pub remember : Affinity → ℕ → List Affinity → Result (List Affinity)
unfolding prune create
remember row now t =
    let kept = prune now t in
    if leb 4096 (length kept) then err (plain affinity_limit) else create row kept

-- TouchAccountAffinity at one row.
abbrev pub touch_row : Conversation → String → String → ℕ → ℕ → Affinity → Affinity
touch_row v scope model expires threshold a =
    if is_keyed v scope a && (ltb a.expires_at threshold || not (a.model == model))
    then record a { expires_at = expires; model = model }
    else a

unfoldable pub touch : Conversation → String → String → ℕ → ℕ → List Affinity → List Affinity
touch v scope model expires threshold [] = []
touch v scope model expires threshold (a ∷ t) =
    touch_row v scope model expires threshold a ∷ touch v scope model expires threshold t

-- ReplaceAccountAffinity
abbrev pub replace_row : Conversation → String → String → String → ℕ → Affinity → Affinity
replace_row v scope id model expires a =
    if is_keyed v scope a
    then record a {
      account_id = id;
      model = model;
      expires_at = expires;
      rebound = a.rebound || not (a.account_id == id);
    }
    else a

unfoldable pub replace : Conversation → String → String → String → ℕ → List Affinity → List Affinity
replace v scope id model expires [] = []
replace v scope id model expires (a ∷ t) =
    replace_row v scope id model expires a ∷ replace v scope id model expires t
