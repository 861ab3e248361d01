-- ===== src/Scenarios/Factors.antt =====
-- A member that signs in with a second factor.
use sub_lane.Base.{
  lookup, insert, ℕ, ◌≤◌, String, ◌≡◌, refl, true, Option, none, some, List, [], ◌∷◌, arith,
  if◌then◌else◌, pos, ◌==◌, string_eq, nat_eq, int_eq,
}
use sub_lane.Auth.{
  FactorWindow, factor_attempt, Member, Check, normalized, verify_factor, invalid_factor,
}
use sub_lane.Auth.Budget.{admitted, minute_within}
use sub_lane.Auth.Replay.{Decided, verify_factor-Decided}

abbrev at_3000 : ℕ
at_3000 = 3000000000000

-- The secret's codes: "000101" for step 101, and nothing else.
abbrev codes_of : ℕ → Option String
codes_of step = if step == 101 then some "000101" else some "999999"

abbrev signs_in : Check
signs_in = record {
  has_cipher = true;
  secret = some codes_of;
  upper = λ c. c;
  advanced = true;
  consumed = true;
}

abbrev member : Member
member = record {
  id = 7;
  has_secret = true;
  step = pos 100;
  recovery = "AAAABBBBCCCCDDDD" ∷ [];
  failures = [];
}

accepts_next_step :
    verify_factor signs_in at_3000 "000101" member ≡ (record member { step = pos 101 }, none)
unfolding verify_factor
accepts_next_step = refl

as_stored : normalized signs_in " AAAA-BBBB-CCCC-DDDD " ≡ "AAAABBBBCCCCDDDD"
unfolding normalized
as_stored = refl

-- The same code again is refused, and the attempt counts.
refuses_replay :
    (verify_factor signs_in at_3000 "000101" (record member { step = pos 101 })).1
    ≡ some invalid_factor
unfolding verify_factor
refuses_replay = refl

verify_factor-Decided_example :
    Decided signs_in at_3000 "000101"
      (pos 100)
      ("AAAABBBBCCCCDDDD" ∷ [])
      (verify_factor signs_in at_3000 "000101" member)
verify_factor-Decided_example = verify_factor-Decided signs_in at_3000 "000101" member refl

abbrev six_tries : List (ℕ × ℕ)
six_tries = (10, 7) ∷ (11, 7) ∷ (12, 8) ∷ (13, 7) ∷ (14, 7) ∷ (15, 7) ∷ (16, 7) ∷ []

lets_five_through : admitted 7 six_tries [] ≡ 5
unfolding admitted factor_attempt insert
lets_five_through = refl

no_failures : lookup {K = ℕ} {V = FactorWindow} 7 [] ≡ none
unfolding lookup
no_failures = refl

minute_within_example : admitted 7 six_tries [] ≤ 5
minute_within_example = minute_within 7 10 six_tries [] no_failures (omega arith)
