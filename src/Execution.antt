-- ===== src/Execution.antt =====
-- near-fetch/src/result.rs: what is returned of an executed transaction. Gas amounts are `u64`,
-- and their sums wrap, as they do in a release build.
pub mod Success
pub mod Outcomes
pub mod Gas
pub mod Conversion
pub mod Final
use near_fetch.Prelude.{
  ℕ, ◌+◌, ◌%◌, ◌^◌, String, List, [], ◌∷◌, ◌++◌, Bool, true, false, filter, if◌then◌else◌,
}
use near_fetch.Near.{Near}
use near_fetch.Near.Views.{
  ExecutionStatusView, ExecutionOutcomeWithIdView, FinalExecutionStatus, FinalExecutionOutcomeView,
}

module _ ⦃near : Near⦄ where
  open near use {Gas}

  pub record ExecutionDetails : Type 0 where
    pub transaction : near.SignedTransactionView
    pub transaction_outcome : ExecutionOutcomeWithIdView
    pub receipts_outcome : List ExecutionOutcomeWithIdView

  pub record ExecutionResult (T : Type 0) : Type 0 where
    pub total_gas_burnt : Gas
    pub value : T
    pub details : ExecutionDetails

  pub record ExecutionFinalResult : Type 0 where
    pub status : FinalExecutionStatus
    pub details : ExecutionDetails

  -- `matches!(.., ExecutionStatusView::Failure(_))`
  abbrev pub is_failed : ExecutionOutcomeWithIdView → Bool
  is_failed o = elim o.outcome.status [ ExecutionStatusView.failure _ ↦ true | _ ↦ false ]

  -- `flat_map(|outcome| &outcome.outcome.logs)`
  abbrev pub flatten_logs : List ExecutionOutcomeWithIdView → List String
  flatten_logs [] = []
  flatten_logs (o ∷ os) = o.outcome.logs ++ flatten_logs os

  -- `impl ExecutionDetails`
  unfoldable pub outcome : ExecutionDetails → ExecutionOutcomeWithIdView
  outcome d = d.transaction_outcome

  unfoldable pub receipt_outcomes : ExecutionDetails → List ExecutionOutcomeWithIdView
  receipt_outcomes d = d.receipts_outcome

  unfoldable pub outcomes : ExecutionDetails → List ExecutionOutcomeWithIdView
  unfolding outcome receipt_outcomes
  outcomes d = (outcome d ∷ []) ++ receipt_outcomes d

  unfoldable pub receipt_failures : ExecutionDetails → List ExecutionOutcomeWithIdView
  unfolding receipt_outcomes
  receipt_failures d = filter is_failed (receipt_outcomes d)

  unfoldable pub failures : ExecutionDetails → List ExecutionOutcomeWithIdView
  unfolding receipt_failures
  failures d =
      (if is_failed d.transaction_outcome then d.transaction_outcome ∷ [] else [])
      ++ receipt_failures d

  unfoldable pub logs : ExecutionDetails → List String
  unfolding outcomes
  logs d = flatten_logs (outcomes d)

  -- `ExecutionFinalResult::from_view`
  unfoldable pub from_view : FinalExecutionOutcomeView → ExecutionFinalResult
  from_view view = record {
    status = view.status;
    details = record {
      transaction = view.transaction;
      transaction_outcome = view.transaction_outcome;
      receipts_outcome = view.receipts_outcome;
    };
  }

  -- `a + b` on `u64`
  abbrev pub add_u64 : ℕ → ℕ → ℕ
  add_u64 a b = (a + b) % 2 ^ 64

  -- `.map(|t| t.outcome.gas_burnt.as_gas()).sum()`, with the sum so far
  unfoldable pub sum_gas : ℕ → List ExecutionOutcomeWithIdView → ℕ
  sum_gas acc [] = acc
  sum_gas acc (t ∷ ts) = sum_gas (add_u64 acc (near.as_gas t.outcome.gas_burnt)) ts

  unfoldable pub total_gas_burnt : ExecutionFinalResult → Gas
  unfolding sum_gas
  total_gas_burnt r =
      let tx_gas = near.as_gas r.details.transaction_outcome.outcome.gas_burnt in
      let receipts_gas = sum_gas 0 r.details.receipts_outcome in
      near.gas_from_gas (add_u64 tx_gas receipts_gas)

  unfoldable pub is_success : ExecutionFinalResult → Bool
  is_success r = elim r.status [ FinalExecutionStatus.success_value _ ↦ true | _ ↦ false ]

  unfoldable pub is_failure : ExecutionFinalResult → Bool
  is_failure r = elim r.status [ FinalExecutionStatus.failure _ ↦ true | _ ↦ false ]
