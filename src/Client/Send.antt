-- ===== src/Client/Send.antt =====
-- near-fetch/src/lib.rs: signing a transaction, sending it once, sending it without waiting for
-- it, and asking for its status.
use near_fetch.Prelude.{List, none, some, Bool, true, false, if◌then◌else◌}
use near_fetch.Near.{Near, Except, error}
use near_fetch.Near.Errors.{JsonRpcError, server_error, handler_error, RpcTransactionError}
use near_fetch.Near.Views.{TxExecutionStatus, FinalExecutionOutcomeView, RpcTransactionResponse}
use near_fetch.Near.Requests.{Method, Action, TransactionV0, SignedTransaction}
use near_fetch.Error.{
  Result, ok, err, map_err, from_transaction_error, rpc_returned_invalid_data,
  rpc_transaction_pending,
}
use near_fetch.Effects.{Net, M, pure, lift, call, ◌>>=◌, ◌>>◌}
use near_fetch.Signer.{SignerExt}
use near_fetch.Client.{Client}
use near_fetch.Client.Nonce.{fetch_nonce}
use near_fetch.Client.Errors.{invalidate_cache, check_and_invalidate_cache}

module _ ⦃near : Near⦄ ⦃net : Net⦄ where
  open near use {AccountId, CryptoHash}

  unfoldable pub sign_tx : Client → SignerExt → AccountId → List Action → M SignedTransaction
  unfolding fetch_nonce
  sign_tx c signer receiver_id actions = do
    pk ← signer.public_key
    account ← signer.account_id
    (nonce, block_hash, _) ← fetch_nonce c account pk
    signer_id ← signer.account_id
    let tx : TransactionV0 = record {
      nonce = nonce;
      signer_id = signer_id;
      public_key = pk;
      receiver_id = receiver_id;
      block_hash = block_hash;
      actions = actions;
    }
    signature ← signer.sign (net.hash_bytes tx)
    pure (record { signature = signature; transaction = tx })

  -- `final_execution_outcome.ok_or_else(..)?.into_outcome()`
  unfoldable pub outcome_of : RpcTransactionResponse → Result FinalExecutionOutcomeView
  outcome_of response = elim response.final_execution_outcome [
    | none ↦ err (rpc_returned_invalid_data "Missing final execution outcome")
    | some outcome ↦ ok (net.into_outcome outcome)
  ]

  unfoldable pub send_tx_once :
      Client → SignerExt → AccountId → List Action → TxExecutionStatus → M FinalExecutionOutcomeView
  unfolding sign_tx call check_and_invalidate_cache outcome_of from_transaction_error
  send_tx_once c signer receiver_id actions wait_until = do
    account ← signer.account_id
    pk ← signer.public_key
    signed ← sign_tx c signer receiver_id actions
    result ←
        call Method.send_tx c.rpc_client
          (record { signed_transaction = signed; wait_until = wait_until })
    check_and_invalidate_cache c (account, pk) result
    rpc_response ← lift (map_err from_transaction_error result)
    lift (outcome_of rpc_response)

  -- the pattern `Err(JsonRpcError::ServerError(JsonRpcServerError::HandlerError(_)))`
  abbrev pub is_handler_error :
      Except (JsonRpcError RpcTransactionError) RpcTransactionResponse → Bool
  is_handler_error (error (server_error (handler_error _))) = true
  is_handler_error _ = false

  unfoldable pub send_tx_async : Client → SignerExt → AccountId → List Action → M CryptoHash
  unfolding sign_tx call invalidate_cache from_transaction_error
  send_tx_async c signer receiver_id actions = do
    account ← signer.account_id
    pk ← signer.public_key
    signed ← sign_tx c signer receiver_id actions
    let tx_hash = net.get_hash signed
    result ←
        call Method.send_tx c.rpc_client
          (record { signed_transaction = signed; wait_until = TxExecutionStatus.none })
    (if is_handler_error result then invalidate_cache c (account, pk) else pure tt)
    _ ← lift (map_err from_transaction_error result)
    pure tx_hash

  -- `matches!(.., TxExecutionStatus::None | TxExecutionStatus::Included)`
  abbrev pub is_pending : TxExecutionStatus → Bool
  is_pending TxExecutionStatus.none = true
  is_pending TxExecutionStatus.included = true
  is_pending _ = false

  unfoldable pub status_tx_async :
      Client → AccountId → CryptoHash → TxExecutionStatus → M FinalExecutionOutcomeView
  unfolding call outcome_of from_transaction_error
  status_tx_async c sender_id tx_hash wait_until = do
    answer ←
        call Method.tx c.rpc_client
          (record { sender_account_id = sender_id; tx_hash = tx_hash; wait_until = wait_until })
    response ← lift (map_err from_transaction_error answer)
    lift (
        if is_pending response.final_execution_status
        then err rpc_transaction_pending
        else outcome_of response)
