-- ===== src/Execution/Success.antt =====
-- near-fetch/src/result.rs: `Value`, `ExecutionSuccess`, and the conversions of an
-- `ExecutionFinalResult` into a value.
use near_fetch.Prelude.{ℕ, String, List, [], ◌∷◌, ◌++◌, filter, if◌then◌else◌}
use near_fetch.Near.{Near, Except}
use near_fetch.Near.Views.{ExecutionOutcomeWithIdView, FinalExecutionStatus}
use near_fetch.Error.{
  Result, ok, err, panic, ◌>>=◌, map_err, tx_execution, tx_status, base64, serialization, io,
}
use near_fetch.Execution.{
  ExecutionResult, ExecutionFinalResult, total_gas_burnt, is_failed, flatten_logs,
}

module _ ⦃near : Near⦄ where
  open near use {SerdeError, IoError}

  pub record Value : Type 0 where
    pub repr : String

  abbrev pub ExecutionSuccess : Type 0
  ExecutionSuccess = ExecutionResult Value

  unfoldable pub from_string : String → Value
  from_string value = record { repr = value }

  -- `Value::raw_bytes`, `json` and `borsh`, which those of `ExecutionSuccess` call
  unfoldable pub value_raw_bytes : Value → Result (List ℕ)
  value_raw_bytes v = map_err base64 (near.decode v.repr)

  unfoldable pub into_result : ExecutionFinalResult → Result ExecutionSuccess
  unfolding total_gas_burnt from_string
  into_result r = elim r.status [
    | FinalExecutionStatus.success_value value ↦ ok (record {
      total_gas_burnt = total_gas_burnt r;
      value = from_string (near.encode value);
      details = r.details;
    })
    | FinalExecutionStatus.failure tx_error ↦ err (tx_execution tx_error)
    | FinalExecutionStatus.not_started ↦ err (tx_status "NotStarted")
    | FinalExecutionStatus.started ↦ err (tx_status "Started")
  ]

  unfoldable pub unwrap : ExecutionFinalResult → Result ExecutionSuccess
  unfolding into_result
  unwrap r = elim (into_result r) [ ok s ↦ ok s | _ ↦ panic ]

  unfoldable pub success_raw_bytes : ExecutionSuccess → Result (List ℕ)
  unfolding value_raw_bytes
  success_raw_bytes s = value_raw_bytes s.value

  unfoldable pub raw_bytes : ExecutionFinalResult → Result (List ℕ)
  unfolding into_result success_raw_bytes
  raw_bytes r = into_result r >>= success_raw_bytes

  module _ {T : Type 0} where
    unfoldable pub value_json : (List ℕ → Except SerdeError T) → Value → Result T
    unfolding value_raw_bytes
    value_json from_slice v = do buf ← value_raw_bytes v; map_err serialization (from_slice buf)

    unfoldable pub value_borsh : (List ℕ → Except IoError T) → Value → Result T
    unfolding value_raw_bytes
    value_borsh try_from_slice v = do buf ← value_raw_bytes v; map_err io (try_from_slice buf)

    unfoldable pub success_json : (List ℕ → Except SerdeError T) → ExecutionSuccess → Result T
    unfolding value_json
    success_json from_slice s = value_json from_slice s.value

    unfoldable pub success_borsh : (List ℕ → Except IoError T) → ExecutionSuccess → Result T
    unfolding value_borsh
    success_borsh try_from_slice s = value_borsh try_from_slice s.value

    unfoldable pub json : (List ℕ → Except SerdeError T) → ExecutionFinalResult → Result T
    unfolding into_result success_json
    json from_slice r = into_result r >>= success_json from_slice

    unfoldable pub borsh : (List ℕ → Except IoError T) → ExecutionFinalResult → Result T
    unfolding into_result success_borsh
    borsh try_from_slice r = into_result r >>= success_borsh try_from_slice

  -- The methods of `ExecutionResult<T>`, which repeat those of `ExecutionDetails`.
  module _ {T : Type 0} where
    unfoldable pub result_outcome : ExecutionResult T → ExecutionOutcomeWithIdView
    result_outcome r = r.details.transaction_outcome

    unfoldable pub result_receipt_outcomes : ExecutionResult T → List ExecutionOutcomeWithIdView
    result_receipt_outcomes r = r.details.receipts_outcome

    unfoldable pub result_outcomes : ExecutionResult T → List ExecutionOutcomeWithIdView
    unfolding result_outcome result_receipt_outcomes
    result_outcomes r = (result_outcome r ∷ []) ++ result_receipt_outcomes r

    unfoldable pub result_receipt_failures : ExecutionResult T → List ExecutionOutcomeWithIdView
    unfolding result_receipt_outcomes
    result_receipt_failures r = filter is_failed (result_receipt_outcomes r)

    unfoldable pub result_failures : ExecutionResult T → List ExecutionOutcomeWithIdView
    unfolding result_receipt_failures
    result_failures r =
        (if is_failed r.details.transaction_outcome then r.details.transaction_outcome ∷ [] else [])
        ++ result_receipt_failures r

    unfoldable pub result_logs : ExecutionResult T → List String
    unfolding result_outcomes
    result_logs r = flatten_logs (result_outcomes r)
