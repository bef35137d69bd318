-- ===== src/Client/Rejection.antt =====
-- near-fetch/src/lib.rs: which answers to a transaction say that its nonce was wrong, read off the
-- answer itself and not off the errors that `fetch_tx_errs` collects.
use near_fetch.Prelude.{
  List, [], ◌∷◌, ◌++◌, Option, none, some, ◌≡◌, refl, ◌∙◌, Bool, true, false, ◌||◌, arith,
}
use mathlib.Core.Path.{ap₂}
use near_fetch.Near.{Near, Except, value, error}
use near_fetch.Near.Errors.{
  JsonRpcError, JsonRpcServerError, server_error, transport_error, handler_error, InvalidTxError,
  ActionErrorKind, delegate_action_invalid_nonce, TxExecutionError, action_error, invalid_tx_error,
  RpcTransactionError, invalid_transaction, unknown_transaction, timeout_error,
}
use near_fetch.Near.Views.{
  ExecutionStatusView, FinalExecutionStatus, ExecutionOutcomeWithIdView, FinalExecutionOutcomeView,
  FinalExecutionOutcomeViewEnum, final_execution_outcome, final_execution_outcome_with_receipt,
  RpcTransactionResponse,
}
use near_fetch.Client.Errors.{
  push_final, push_status, receipt_errs, outcome_errs, fetch_tx_errs, is_nonce_error,
  is_invalid_nonce,
}

module _ ⦃near : Near⦄ where
  abbrev pub Answer : Type 0
  Answer = Except (JsonRpcError RpcTransactionError) RpcTransactionResponse

  -- the nonce of a transaction
  abbrev invalid_blames : InvalidTxError → Bool
  invalid_blames (InvalidTxError.invalid_nonce _) = true
  invalid_blames (InvalidTxError.other _) = false

  -- the nonce of a delegated action
  abbrev kind_blames : ActionErrorKind → Bool
  kind_blames (delegate_action_invalid_nonce _) = true
  kind_blames (ActionErrorKind.other _) = false

  abbrev error_blames : TxExecutionError → Bool
  error_blames (action_error kind _) = kind_blames kind
  error_blames (invalid_tx_error e) = invalid_blames e
  error_blames (TxExecutionError.other _) = false

  -- The transaction, or one of its receipts, has failed for the nonce.
  abbrev final_blames : FinalExecutionStatus → Bool
  final_blames FinalExecutionStatus.not_started = false
  final_blames FinalExecutionStatus.started = false
  final_blames (FinalExecutionStatus.failure e) = error_blames e
  final_blames (FinalExecutionStatus.success_value _) = false

  abbrev status_blames : ExecutionStatusView → Bool
  status_blames (ExecutionStatusView.failure e) = error_blames e
  status_blames (ExecutionStatusView.other _) = false

  abbrev receipts_blame : List ExecutionOutcomeWithIdView → Bool
  receipts_blame [] = false
  receipts_blame (o ∷ os) = status_blames o.outcome.status || receipts_blame os

  abbrev outcome_blames : FinalExecutionOutcomeView → Bool
  outcome_blames o =
      final_blames o.status
      || (status_blames o.transaction_outcome.outcome.status || receipts_blame o.receipts_outcome)

  abbrev response_blames : RpcTransactionResponse → Bool
  response_blames response = elim response.final_execution_outcome [
    | none ↦ false
    | some (final_execution_outcome o) ↦ outcome_blames o
    | some (final_execution_outcome_with_receipt o _) ↦ outcome_blames o
  ]

  -- The answer says that the nonce was wrong: the node refused the transaction for it, or the
  -- execution of the transaction or of a receipt failed for it.
  abbrev pub nonce_rejected : Answer → Bool
  nonce_rejected (value response) = response_blames response
  nonce_rejected (error (server_error (handler_error (invalid_transaction e _)))) = invalid_blames e
  nonce_rejected (error (server_error (handler_error (unknown_transaction _)))) = false
  nonce_rejected (error (server_error (handler_error timeout_error))) = false
  nonce_rejected (error (server_error (handler_error (RpcTransactionError.other _)))) = false
  nonce_rejected (error (server_error (JsonRpcServerError.other _))) = false
  nonce_rejected (error (transport_error _)) = false

  -- what the loop over the errors looks for
  abbrev pub any_nonce_error : List TxExecutionError → Bool
  any_nonce_error [] = false
  any_nonce_error (e ∷ es) = is_nonce_error e || any_nonce_error es

  any_nonce_error-++ :
      (xs ys : List TxExecutionError)
      → any_nonce_error (xs ++ ys) ≡ any_nonce_error xs || any_nonce_error ys
  any_nonce_error-++ [] ys = refl
  any_nonce_error-++ (x ∷ xs) ys = ground (arith, any_nonce_error-++ xs ys)

  error_lem : (e : TxExecutionError) → any_nonce_error (e ∷ []) ≡ error_blames e
  error_lem (action_error (delegate_action_invalid_nonce _) _) = refl
  error_lem (action_error (ActionErrorKind.other _) _) = refl
  error_lem (invalid_tx_error (InvalidTxError.invalid_nonce _)) = refl
  error_lem (invalid_tx_error (InvalidTxError.other _)) = refl
  error_lem (TxExecutionError.other _) = refl

  final_lem : (st : FinalExecutionStatus) → any_nonce_error (push_final st) ≡ final_blames st
  final_lem FinalExecutionStatus.not_started = refl
  final_lem FinalExecutionStatus.started = refl
  final_lem (FinalExecutionStatus.failure e) = error_lem e
  final_lem (FinalExecutionStatus.success_value _) = refl

  status_lem : (st : ExecutionStatusView) → any_nonce_error (push_status st) ≡ status_blames st
  status_lem (ExecutionStatusView.failure e) = error_lem e
  status_lem (ExecutionStatusView.other _) = refl

  receipts_lem :
      (os : List ExecutionOutcomeWithIdView) → any_nonce_error (receipt_errs os) ≡ receipts_blame os
  unfolding receipt_errs
  receipts_lem [] = refl
  receipts_lem (o ∷ os) =
      any_nonce_error-++ (push_status o.outcome.status) (receipt_errs os)
      ∙ ap₂ (λ a b. a || b) (status_lem o.outcome.status) (receipts_lem os)

  outcome_lem :
      (o : FinalExecutionOutcomeView) → any_nonce_error (outcome_errs o) ≡ outcome_blames o
  unfolding outcome_errs
  outcome_lem o =
      let st = o.transaction_outcome.outcome.status in
      any_nonce_error-++ (push_final o.status) (push_status st ++ receipt_errs o.receipts_outcome)
      ∙ ap₂ (λ a b. a || b) (final_lem o.status)
          (any_nonce_error-++ (push_status st) (receipt_errs o.receipts_outcome)
            ∙ ap₂ (λ a b. a || b) (status_lem st) (receipts_lem o.receipts_outcome))

  -- The errors of an answer contain one for the nonce exactly if the answer says so.
  pub fetch_tx_errs_lem :
      (response : RpcTransactionResponse)
      → any_nonce_error (fetch_tx_errs response) ≡ nonce_rejected (value response)
  unfolding fetch_tx_errs
  fetch_tx_errs_lem response = from response.final_execution_outcome
    where
      from :
          (outcome : Option FinalExecutionOutcomeViewEnum)
          → any_nonce_error (fetch_tx_errs (record response { final_execution_outcome = outcome }))
            ≡ nonce_rejected (value (record response { final_execution_outcome = outcome }))
      from none = refl
      from (some (final_execution_outcome o)) = outcome_lem o
      from (some (final_execution_outcome_with_receipt o _)) = outcome_lem o

  pub is_invalid_nonce_lem :
      (e : JsonRpcError RpcTransactionError) → is_invalid_nonce e ≡ nonce_rejected (error e)
  is_invalid_nonce_lem
        (server_error (handler_error (invalid_transaction (InvalidTxError.invalid_nonce _) _))) =
      refl
  is_invalid_nonce_lem
        (server_error (handler_error (invalid_transaction (InvalidTxError.other _) _))) =
      refl
  is_invalid_nonce_lem (server_error (handler_error (unknown_transaction _))) = refl
  is_invalid_nonce_lem (server_error (handler_error timeout_error)) = refl
  is_invalid_nonce_lem (server_error (handler_error (RpcTransactionError.other _))) = refl
  is_invalid_nonce_lem (server_error (JsonRpcServerError.other _)) = refl
  is_invalid_nonce_lem (transport_error _) = refl
