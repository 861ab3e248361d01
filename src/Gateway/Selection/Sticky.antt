-- ===== src/Gateway/Selection/Sticky.antt =====
-- A conversation stays with its account: the binding that a request finds or makes is found again.
use text.Mathlib.TextEquality.{eq_iff}
use sub_lane.Base.{
  In, ℕ, ◌<◌, String, ◌≡◌, refl, sym, ap, ◌∙◌, inl, inr, Bool, true, false, Option, none, some,
  List, ◌∷◌, arith, if◌then◌else◌, Bool-cases, string_eq, text_beq_refl, ◌==◌, nat_eq,
}
use sub_lane.Failure.{◌>>=◌, bind_ok, ok}
use sub_lane.Gateway.State.{unix}
use sub_lane.Gateway.Affinity.Rows.{
  IsBound, first-IsBound, here-IsBound, replace-first, HasKeys, touch_row-other, touch-first,
  remember-head,
}
use sub_lane.Gateway.Affinity.{
  Affinity, Conversation, is_of, is_keyed, prune, remember, touch, replace,
}
use sub_lane.Gateway.Catalog.{catalog_model_id}
use sub_lane.Gateway.Selection.{Ask}
use sub_lane.Gateway.Selection.Choose.{bind}
use sub_lane.Gateway.Selection.Bound.{
  expiry, threshold, conversation, new_affinity, scope_of, extend,
}

new_affinity-keyed :
    (ask : Ask) (now : ℕ) (scope id model : String) (rebound : Bool)
    → is_keyed (conversation ask ask.digest) scope (new_affinity ask now scope id model rebound)
      ≡ true
new_affinity-keyed ask now scope id model rebound =
    ground (arith, text_beq_refl ask.digest, text_beq_refl scope)

ok_path : {t u : List Affinity} → ok t ≡ ok u → t ≡ u
ok_path h = ground arith

touch-head :
    (v : Conversation) (scope model : String) (expires threshold : ℕ) (a : Affinity)
    (t : List Affinity)
    → is_keyed v scope a ≡ false
    → touch v scope model expires threshold (a ∷ t) ≡ a ∷ touch v scope model expires threshold t
unfolding touch
touch-head v scope model expires threshold a t k =
    ap (λ r. r ∷ touch v scope model expires threshold t)
      (touch_row-other v scope model expires threshold a k)

head-IsBound :
    (ask : Ask) (now later : ℕ) (scope id model : String) (rebound : Bool) (t : List Affinity)
    → later < expiry now
    → IsBound
        (conversation ask ask.digest)
        later
        (new_affinity ask now scope id model rebound ∷ t)
        scope
        id
head-IsBound ask now later scope id model rebound t live =
    let row = new_affinity ask now scope id model rebound in
    let v = conversation ask ask.digest in
    first-IsBound v later (row ∷ t) scope id row
      (here-IsBound v later row t scope (new_affinity-keyed ask now scope id model rebound) live)
      refl

-- A conversation that stays: for the next 23 hours and a half the member's requests in it find a
-- binding to the same account under the scope that they ask with, in a table with one row
-- for a key that holds the binding that was found.
pub extend-IsBound :
    (ask : Ask) (now later : ℕ) (b : Affinity) (t u : List Affinity)
    → extend ask now b t ≡ ok u
    → HasKeys t
    → In b t
    → is_of (conversation ask ask.digest) b ≡ true
    → later < threshold now
    → IsBound (conversation ask ask.digest) later u (scope_of ask) b.account_id
unfolding extend
extend-IsBound ask now later b t u h keys m mine early =
    let v = conversation ask ask.digest in
    let name = catalog_model_id ask.model in
    let model = if name == "" then b.model else name in
    let touched = touch v b.provider model (expiry now) (threshold now) in
    elim (Bool-cases (b.provider == scope_of ask)) [
      | inl same ↦
          let (a, first, account) =
            touch-first v b.provider model (expiry now) (threshold now) later t b early
              (omega arith) keys m (ground (arith, mine, text_beq_refl b.provider)) in
          let on : u ≡ touched t = ground (arith, same, h) in
          rw (on, sym ((string_eq.beq_iff b.provider (scope_of ask)).0 same))
            (first-IsBound v later (touched t) b.provider b.account_id a first account)
      | inr other ↦
          let row = new_affinity ask now (scope_of ask) b.account_id model b.rebound in
          let named : (remember row (unix now) t >>= λ kept. ok (touched kept)) ≡ ok u =
            ground (arith, other, h) in
          let (kept, written, on) =
            bind_ok (remember row (unix now) t) (λ kept. ok (touched kept)) u named in
          let apart : is_keyed v b.provider row ≡ false =
            ground
              (arith, eq_iff b.provider (scope_of ask), eq_iff (scope_of ask) b.provider, other) in
          let rest = touched (prune (unix now) t) in
          let shape : u ≡ row ∷ rest =
            sym (ok_path on)
            ∙ ap touched (remember-head row (unix now) t kept written)
            ∙ touch-head v b.provider model (expiry now) (threshold now) row (prune (unix now) t)
                apart in
          rw shape (
            head-IsBound ask now later (scope_of ask) b.account_id model b.rebound rest
              (omega arith))
    ]

-- A binding of the conversation that the table holds, where there is one to replace.
abbrev pub IsHeld : Ask → Option Affinity → List Affinity → Type 0
IsHeld ask none t = Unit {0}
IsHeld ask (some b) t = In b t × (is_of (conversation ask ask.digest) b ≡ true)

-- A conversation that was scheduled: for the next day the member's requests in it find a binding
-- to the account that was chosen, under the scope that they ask with, whether the binding is
-- new or replaces one of the table.
pub bind-IsBound :
    (ask : Ask) (now later : ℕ) (replacement : Option Affinity) (id : String) (t u : List Affinity)
    → bind ask now replacement id t ≡ ok u
    → (ask.session == "") ≡ false
    → IsHeld ask replacement t
    → later < expiry now
    → IsBound (conversation ask ask.digest) later u (scope_of ask) id
unfolding bind
bind-IsBound ask now later none id t u h named held live =
    let model = catalog_model_id ask.model in
    let written : remember (new_affinity ask now (scope_of ask) id model false) (unix now) t
        ≡ ok u =
      ground (arith, named, h) in
    rw (remember-head (new_affinity ask now (scope_of ask) id model false) (unix now) t u written)
      (head-IsBound ask now later (scope_of ask) id model false (prune (unix now) t) live)
bind-IsBound ask now later (some b) id t u h named held live =
    let v = conversation ask ask.digest in
    let model = catalog_model_id ask.model in
    elim (Bool-cases (b.provider == scope_of ask)) [
      | inl same ↦
          let (a, first, account) =
            replace-first v (scope_of ask) id model (expiry now) later t b live held.0
              (ground (arith, held.1, same)) in
          let on : u ≡ replace v (scope_of ask) id model (expiry now) t =
            ground (arith, named, same, h) in
          rw on (
            first-IsBound v later (replace v (scope_of ask) id model (expiry now) t) (scope_of ask)
              id a first account)
      | inr other ↦
          let written : remember (new_affinity ask now (scope_of ask) id model true) (unix now) t
              ≡ ok u =
            ground (arith, named, other, h) in
          rw
            (remember-head (new_affinity ask now (scope_of ask) id model true) (unix now) t u
              written)
            (head-IsBound ask now later (scope_of ask) id model true (prune (unix now) t) live)
    ]
