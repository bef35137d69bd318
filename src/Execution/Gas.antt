-- ===== src/Execution/Gas.antt =====
-- near-fetch/src/result.rs: the sum of the gas of an execution.
use near_fetch.Prelude.{ℕ, ◌+◌, ◌%◌, ◌^◌, ◌<◌, List, [], ◌∷◌, ◌≡◌, ◌∙◌, arith}
use near_fetch.Near.{Near}
use near_fetch.Near.Views.{ExecutionOutcomeWithIdView}
use near_fetch.Execution.{
  ExecutionFinalResult, add_u64, sum_gas, total_gas_burnt, outcomes, outcome, receipt_outcomes,
}

module _ ⦃near : Near⦄ where
  -- the sum over the outcomes, as a number without bound
  abbrev pub gas_of : List ExecutionOutcomeWithIdView → ℕ
  gas_of [] = 0
  gas_of (o ∷ os) = near.as_gas o.outcome.gas_burnt + gas_of os

  sum_gas_lem :
      (acc : ℕ) (os : List ExecutionOutcomeWithIdView)
      → acc < 2 ^ 64
      → sum_gas acc os ≡ (acc + gas_of os) % 2 ^ 64
  unfolding sum_gas
  sum_gas_lem acc [] h = omega arith
  sum_gas_lem acc (o ∷ os) h =
      omega (arith, sum_gas_lem (add_u64 acc (near.as_gas o.outcome.gas_burnt)) os (omega arith))

  -- The total is the sum of the gas of all outcomes, of the transaction and of every receipt,
  -- modulo 2^64, if a `Gas` gives back the `u64` that it was made of.
  pub total_gas_burnt-eq-gas_of :
      ((n : ℕ) → n < 2 ^ 64 → near.as_gas (near.gas_from_gas n) ≡ n)
      → (r : ExecutionFinalResult)
      → near.as_gas (total_gas_burnt r) ≡ gas_of (outcomes r.details) % 2 ^ 64
  unfolding total_gas_burnt outcomes outcome receipt_outcomes
  total_gas_burnt-eq-gas_of back r =
      let receipts = r.details.receipts_outcome in
      let tx_gas = near.as_gas r.details.transaction_outcome.outcome.gas_burnt in
      back (add_u64 tx_gas (sum_gas 0 receipts)) (omega arith)
      ∙ omega (arith, sum_gas_lem 0 receipts (omega arith))
