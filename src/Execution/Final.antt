-- ===== src/Execution/Final.antt =====
-- near-fetch/src/result.rs: the methods of `ExecutionFinalResult` that read its details, and how
-- they relate to those of the `ExecutionSuccess` that it becomes.
use near_fetch.Prelude.{String, List, ◌≡◌, refl, arith}
use near_fetch.Near.{Near}
use near_fetch.Near.Views.{ExecutionOutcomeWithIdView, FinalExecutionStatus}
use near_fetch.Error.{ok}
use near_fetch.Execution as Execution
use near_fetch.Execution.{ExecutionFinalResult}
use near_fetch.Execution.Success.{
  ExecutionSuccess, into_result, result_outcome, result_outcomes, result_receipt_outcomes,
  result_failures, result_receipt_failures, result_logs,
}

module _ ⦃near : Near⦄ where
  unfoldable pub outcome : ExecutionFinalResult → ExecutionOutcomeWithIdView
  unfolding Execution.outcome
  outcome r = Execution.outcome r.details

  unfoldable pub outcomes : ExecutionFinalResult → List ExecutionOutcomeWithIdView
  unfolding Execution.outcomes
  outcomes r = Execution.outcomes r.details

  unfoldable pub receipt_outcomes : ExecutionFinalResult → List ExecutionOutcomeWithIdView
  unfolding Execution.receipt_outcomes
  receipt_outcomes r = Execution.receipt_outcomes r.details

  unfoldable pub failures : ExecutionFinalResult → List ExecutionOutcomeWithIdView
  unfolding Execution.failures
  failures r = Execution.failures r.details

  unfoldable pub receipt_failures : ExecutionFinalResult → List ExecutionOutcomeWithIdView
  unfolding Execution.receipt_failures
  receipt_failures r = Execution.receipt_failures r.details

  unfoldable pub logs : ExecutionFinalResult → List String
  unfolding Execution.logs
  logs r = Execution.logs r.details

  unfoldable pub status : ExecutionFinalResult → FinalExecutionStatus
  status r = r.status

  -- What the two show of a transaction is the same.
  pub record Agrees (r : ExecutionFinalResult) (s : ExecutionSuccess) : Type 0 where
    pub same_outcome : result_outcome s ≡ outcome r
    pub same_outcomes : result_outcomes s ≡ outcomes r
    pub same_receipt_outcomes : result_receipt_outcomes s ≡ receipt_outcomes r
    pub same_failures : result_failures s ≡ failures r
    pub same_receipt_failures : result_receipt_failures s ≡ receipt_failures r
    pub same_logs : result_logs s ≡ logs r

  into_result-details :
      (r : ExecutionFinalResult) (s : ExecutionSuccess)
      → into_result r ≡ ok s
      → s.details ≡ r.details
  unfolding into_result
  into_result-details r s e = ground arith

  -- `into_result` loses no outcome, failure or log: the methods of `ExecutionSuccess`, which have
  -- bodies of their own, return what those of the `ExecutionFinalResult` return.
  pub into_result-Agrees :
      (r : ExecutionFinalResult) (s : ExecutionSuccess) → into_result r ≡ ok s → Agrees r s
  unfolding outcome outcomes receipt_outcomes failures receipt_failures logs result_outcome
      result_outcomes result_receipt_outcomes result_failures result_receipt_failures result_logs
  into_result-Agrees r s e =
      let same = into_result-details r s e in
      record {
        same_outcome = rw same refl;
        same_outcomes = rw same refl;
        same_receipt_outcomes = rw same refl;
        same_failures = rw same refl;
        same_receipt_failures = rw same refl;
        same_logs = rw same refl;
      }
