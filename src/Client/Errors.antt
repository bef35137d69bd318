-- ===== src/Client/Errors.antt =====
-- near-fetch/src/lib.rs: `fetch_tx_errs`, and which answers make `check_and_invalidate_cache`
-- forget a cached nonce.
use near_fetch.Prelude.{List, [], ◌∷◌, ◌++◌, none, some, Bool, true, false, if◌then◌else◌, remove}
use near_fetch.Near.{Near, Except, value, error}
use near_fetch.Near.Errors.{
  JsonRpcError, server_error, handler_error, InvalidTxError, delegate_action_invalid_nonce,
  TxExecutionError, action_error, invalid_tx_error, RpcTransactionError, invalid_transaction,
}
use near_fetch.Near.Views.{
  ExecutionStatusView, FinalExecutionStatus, ExecutionOutcomeWithIdView, FinalExecutionOutcomeView,
  FinalExecutionOutcomeViewEnum, final_execution_outcome, final_execution_outcome_with_receipt,
  RpcTransactionResponse,
}
use near_fetch.Error.{ok}
use near_fetch.Effects.{CacheKey, cache_key_eq, Net, M, pure, update, ◌>>◌}
use near_fetch.Client.{Client}

module _ ⦃near : Near⦄ where
  abbrev pub push_final : FinalExecutionStatus → List TxExecutionError
  push_final (FinalExecutionStatus.failure tx_err) = tx_err ∷ []
  push_final _ = []

  abbrev pub push_status : ExecutionStatusView → List TxExecutionError
  push_status (ExecutionStatusView.failure tx_err) = tx_err ∷ []
  push_status _ = []

  -- the loop over `receipts_outcome`
  unfoldable pub receipt_errs : List ExecutionOutcomeWithIdView → List TxExecutionError
  receipt_errs [] = []
  receipt_errs (receipt ∷ receipts) = push_status receipt.outcome.status ++ receipt_errs receipts

  unfoldable pub outcome_errs : FinalExecutionOutcomeView → List TxExecutionError
  unfolding receipt_errs
  outcome_errs outcome =
      push_final outcome.status
      ++ (push_status outcome.transaction_outcome.outcome.status
          ++ receipt_errs outcome.receipts_outcome)

  abbrev pub final_outcome : FinalExecutionOutcomeViewEnum → FinalExecutionOutcomeView
  final_outcome (final_execution_outcome outcome) = outcome
  final_outcome (final_execution_outcome_with_receipt outcome _) = outcome

  unfoldable pub fetch_tx_errs : RpcTransactionResponse → List TxExecutionError
  unfolding outcome_errs
  fetch_tx_errs result = elim result.final_execution_outcome [
    | none ↦ []
    | some outcome ↦ outcome_errs (final_outcome outcome)
  ]

  -- the `matches!` in the loop of `check_and_invalidate_cache`
  abbrev pub is_nonce_error : TxExecutionError → Bool
  is_nonce_error (action_error (delegate_action_invalid_nonce _) _) = true
  is_nonce_error (invalid_tx_error (InvalidTxError.invalid_nonce _)) = true
  is_nonce_error _ = false

  -- the pattern of its `if let Err(..)`
  abbrev pub is_invalid_nonce : JsonRpcError RpcTransactionError → Bool
  is_invalid_nonce
        (server_error (handler_error (invalid_transaction (InvalidTxError.invalid_nonce _) _))) =
      true
  is_invalid_nonce _ = false

  module _ ⦃net : Net⦄ where
    unfoldable pub invalidate_cache : Client → CacheKey → M (Unit {0})
    invalidate_cache c k s =
        let cell = c.access_key_nonces in
        (ok tt, record s { nonces = update s.nonces cell (remove cache_key_eq k (s.nonces cell)) })

    unfoldable pub invalidate_on : Client → CacheKey → List TxExecutionError → M (Unit {0})
    unfolding invalidate_cache
    invalidate_on c k [] = pure tt
    invalidate_on c k (tx_err ∷ tx_errs) =
        (if is_nonce_error tx_err then invalidate_cache c k else pure tt)
        >> invalidate_on c k tx_errs

    unfoldable pub check_and_invalidate_cache :
        Client
        → CacheKey
        → Except (JsonRpcError RpcTransactionError) RpcTransactionResponse
        → M (Unit {0})
    unfolding invalidate_cache invalidate_on fetch_tx_errs
    check_and_invalidate_cache c k (error e) =
        if is_invalid_nonce e then invalidate_cache c k else pure tt
    check_and_invalidate_cache c k (value outcome) = invalidate_on c k (fetch_tx_errs outcome)
