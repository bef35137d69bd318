-- ===== src/Execution/Outcomes.antt =====
-- near-fetch/src/result.rs: the lists of outcomes, failures and logs, and how the failures relate
-- to the errors that near-fetch/src/lib.rs looks at.
use near_fetch.Prelude.{List, [], ◌∷◌, ◌++◌, ◌≡◌, refl, arith, filter}
use near_fetch.Near.{Near}
use near_fetch.Near.Errors.{TxExecutionError}
use near_fetch.Near.Views.{ExecutionOutcomeWithIdView, FinalExecutionOutcomeView}
use near_fetch.Client.Errors.{push_final, push_status, receipt_errs, outcome_errs}
use near_fetch.Execution.{ExecutionDetails, from_view, is_failed, outcomes, failures}

module _ ⦃near : Near⦄ where
  -- The failures are the outcomes that failed, in their order.
  pub failures-eq-filter : (d : ExecutionDetails) → failures d ≡ filter is_failed (outcomes d)
  unfolding failures outcomes
  failures-eq-filter d = ground arith

  -- the errors of a list of outcomes
  abbrev pub errors_of : List ExecutionOutcomeWithIdView → List TxExecutionError
  errors_of [] = []
  errors_of (o ∷ os) = push_status o.outcome.status ++ errors_of os

  receipt_errs-eq-errors_of :
      (os : List ExecutionOutcomeWithIdView) → receipt_errs os ≡ errors_of (filter is_failed os)
  unfolding receipt_errs
  receipt_errs-eq-errors_of [] = refl
  receipt_errs-eq-errors_of (o ∷ os) = ground (arith, receipt_errs-eq-errors_of os)

  -- The errors for which `check_and_invalidate_cache` looks through an answer are the error of its
  -- final status and the errors of the failures that `ExecutionFinalResult::failures` reports.
  pub outcome_errs-failures :
      (view : FinalExecutionOutcomeView)
      → outcome_errs view ≡ push_final view.status ++ errors_of (failures (from_view view).details)
  unfolding outcome_errs from_view failures
  outcome_errs-failures view = ground (arith, receipt_errs-eq-errors_of view.receipts_outcome)
