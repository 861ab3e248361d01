-- ===== src/Gateway/Selection/Rotation.antt =====
-- The turn of a candidate: the cursor and the quota weights at the end of
-- `selectAllocationAccount`, internal/gateway/selection.go.
use text.Mathlib.TextEquality.{eq_iff}
use sub_lane.Base.{
  length, lookup, Map, ℕ, ◌+◌, ◌-◌, ◌%◌, String, ◌≡◌, ◌↔◌, Bool, true, not, ◌&&◌, ◌||◌, Option,
  none, some, List, [], ◌∷◌, arith, ltb, if◌then◌else◌, Eq, ◌==◌, string_eq, nat_eq,
}
use sub_lane.Gateway.State.{Tuning}
use sub_lane.Gateway.Selection.{Row, quota_decision}

-- The parts of the text that a cursor's name is printed from.
pub record Cursor : Type 0 where
  pub group_id : ℕ
  pub scope : String
  pub preference : String
  pub preferred : String
  pub best_rank : ℕ

pub cursor_beq : Cursor → Cursor → Bool
cursor_beq a b =
    a.group_id == b.group_id
    && a.scope == b.scope
    && a.preference == b.preference
    && a.preferred == b.preferred
    && a.best_rank == b.best_rank

pub cursor_beq_iff : (a b : Cursor) → (cursor_beq a b ≡ true) ↔ (a ≡ b)
unfolding cursor_beq
cursor_beq_iff a b = ground (
  arith,
  eq_iff a.scope b.scope,
  eq_iff a.preference b.preference,
  eq_iff a.preferred b.preferred,
)

instance abbrev pub cursor_eq : Eq Cursor
cursor_eq = record { beq = cursor_beq; beq_iff = cursor_beq_iff }

-- s.next[cursor]
abbrev pub next_at : Map Cursor ℕ → Cursor → ℕ
next_at m c = elim (lookup c m) [ none ↦ 0 | some n ↦ n ]

-- The loop that reads the weights: `none` where it stops with a total of 0.
unfoldable pub weights_of : String → String → ℕ → List Row → Option (List ℕ)
unfolding quota_decision
weights_of provider model now [] = some []
weights_of provider model now (row ∷ rows) =
    let w = (quota_decision row model now).weight in
    let rest = weights_of provider model now rows in
    if not (row.account.provider == provider) || w == 0
    then none
    else elim rest [ none ↦ none | some ws ↦ some (w ∷ ws) ]

unfoldable pub sum : List ℕ → ℕ
sum [] = 0
sum (w ∷ ws) = w + sum ws

-- The loop that spends the ticket on the weights: the place that it stops at.
unfoldable pub spend : ℕ → List ℕ → ℕ
spend ticket [] = 0
spend ticket (w ∷ ws) = let rest = spend (ticket - w) ws in if ltb ticket w then 0 else rest + 1

-- n % m, where Go would panic on 0: it is not reached, for there is a candidate.
pub data Plan : Type 0 where
  even : ℕ → Plan
  weighted : List ℕ → Plan

unfoldable pub plan_of : Tuning → String → ℕ → Row → List Row → Plan
unfolding weights_of sum
plan_of t model now first rest =
    if t.quota_weighted && ltb 0 (length rest)
    then elim (weights_of first.account.provider model now (first ∷ rest)) [
      | none ↦ even (length rest + 1)
      | some ws ↦ if ltb 0 (sum ws) then weighted ws else even (length rest + 1)
    ]
    else even (length rest + 1)

unfoldable pub period : Plan → ℕ
unfolding sum
period (even n) = n
period (weighted ws) = sum ws

unfoldable pub place : Plan → ℕ → ℕ
unfolding spend sum
place (even n) at = at % n
place (weighted ws) at = spend (at % sum ws) ws

-- s.next[cursor] = (s.next[cursor] + 1) % period
abbrev pub advance : Plan → ℕ → ℕ
advance p at = (at + 1) % period p
