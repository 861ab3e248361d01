-- ===== src/Scenarios/Shown.antt =====
-- What the console shows of the pool of two accounts.
use sub_lane.Base.{◌≡◌, ◌↔◌, refl, true, none, [], ◌∷◌, arith, any, lookup, some, string_eq}
use sub_lane.Groups.{allows, allows_provider}
use sub_lane.Gateway.State.{Runtime}
use sub_lane.Gateway.Selection.Candidates.{rank_of, look_at, fit}
use sub_lane.Gateway.Availability.{Seen, reason_of, model_availability}
use sub_lane.Gateway.Availability.Limits.{outlook_of, seen_of}
use sub_lane.Gateway.Availability.Agrees.{reason_of-look_at}
use sub_lane.Gateway.Availability.Summed.{IsTold, model_availability-IsTold}
use sub_lane.Scenarios.Leases.{gpt_row}
use sub_lane.Scenarios.Selecting.{models, acct_row, channel_row, gate}

abbrev seen : Seen
seen = seen_of gate acct_row models true gpt_row

open_pool : allows gate.policy "gpt" ≡ true
unfolding allows
open_pool = refl

-- Neither account is running, and the channel has the model as well.
model_availability-IsTold_example :
    IsTold
      (outlook_of gate)
      gate.policy
      "gpt"
      (seen ∷ seen_of gate channel_row models true gpt_row ∷ [])
      (model_availability
        (outlook_of gate)
        gate.policy
        "gpt"
        (seen ∷ seen_of gate channel_row models true gpt_row ∷ []))
model_availability-IsTold_example =
    model_availability-IsTold (outlook_of gate) gate.policy "gpt"
      (seen ∷ seen_of gate channel_row models true gpt_row ∷ []) open_pool

runs_at : (r : Runtime) → lookup acct_row.account.id gate.service.health ≡ some r → r.revision ≡ 4
unfolding lookup
runs_at r h = ground (arith, h)

reason_of-look_at_example :
    (reason_of (outlook_of gate) gate.policy gate.ask.model seen ≡ none)
    ↔ (look_at gate acct_row ≡ fit (rank_of gate acct_row.account))
unfolding allows_provider any
reason_of-look_at_example =
    reason_of-look_at gate acct_row models true gpt_row refl refl runs_at (λ h. refl) refl refl refl
