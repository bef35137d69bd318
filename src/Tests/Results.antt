-- ===== src/Tests/Results.antt =====
-- The results of near-fetch/src/result.rs in the small world.
use near_fetch.Prelude.{◌^◌, ◌%◌, [], ◌∷◌, ◌++◌, ◌≡◌, refl, filter}
use near_fetch.Client.Errors.{outcome_errs, push_final}
use near_fetch.Execution.{from_view, total_gas_burnt, outcomes, failures, is_failed}
use near_fetch.Execution.Gas.{gas_of, total_gas_burnt-eq-gas_of}
use near_fetch.Execution.Conversion.{Decodes, from_view-Decodes}
use near_fetch.Execution.Outcomes.{errors_of, outcome_errs-failures, failures-eq-filter}
use near_fetch.Tests.World.{small, small_net, executed_outcome}

total_gas_burnt-eq-gas_of_example :
    total_gas_burnt (from_view executed_outcome)
    ≡ gas_of (outcomes (from_view executed_outcome).details) % 2 ^ 64
total_gas_burnt-eq-gas_of_example =
    total_gas_burnt-eq-gas_of (λ n h. refl) (from_view executed_outcome)

from_view-Decodes_example : Decodes (from_view executed_outcome) (1 ∷ 2 ∷ [])
from_view-Decodes_example = from_view-Decodes executed_outcome (1 ∷ 2 ∷ []) refl refl

outcome_errs-failures_example :
    outcome_errs executed_outcome
    ≡ push_final executed_outcome.status
      ++ errors_of (failures (from_view executed_outcome).details)
outcome_errs-failures_example = outcome_errs-failures executed_outcome

failures-eq-filter_example :
    failures (from_view executed_outcome).details
    ≡ filter is_failed (outcomes (from_view executed_outcome).details)
failures-eq-filter_example = failures-eq-filter (from_view executed_outcome).details
