-- ===== src/Ops/Status.antt =====
-- near-fetch/src/ops.rs: `AsyncTransactionStatus`, and waiting for a transaction by polling.
use near_fetch.Prelude.{ℕ, zero, suc, Option, none, some}
use near_fetch.Near.{Near}
use near_fetch.Near.Errors.{
  JsonRpcError, server_error, handler_error, RpcTransactionError, unknown_transaction,
  timeout_error,
}
use near_fetch.Near.Views.{TxExecutionStatus}
use near_fetch.Error.{
  rpc_transaction_error, rpc_transaction_pending, Result, ok, err, panic, map_ok,
}
use near_fetch.Effects.{Net, State, M, sleep}
use near_fetch.Client.{Client}
use near_fetch.Client.Send.{status_tx_async}
use near_fetch.Execution.{ExecutionFinalResult, from_view}

-- `std::task::Poll`
pub data Poll (A : Type 0) : Type 0 where
  ready : A → Poll A
  pending : Poll A

module _ ⦃near : Near⦄ where
  open near use {AccountId, CryptoHash, Duration}

  pub record AsyncTransactionStatus : Type 0 where
    pub client : Client
    pub sender_id : AccountId
    pub hash : CryptoHash

  unfoldable pub new : Client → AccountId → CryptoHash → AsyncTransactionStatus
  new client sender_id hash = record { client = client; sender_id = sender_id; hash = hash }

  unfoldable pub sender_id : AsyncTransactionStatus → AccountId
  sender_id t = t.sender_id

  unfoldable pub hash : AsyncTransactionStatus → CryptoHash
  hash t = t.hash

  -- the inner match of `status`, on an `Error::RpcTransactionError`
  abbrev pub poll_rpc_error : JsonRpcError RpcTransactionError → Result (Poll ExecutionFinalResult)
  poll_rpc_error (server_error (handler_error (unknown_transaction _))) = ok pending
  poll_rpc_error (server_error (handler_error timeout_error)) = ok pending
  poll_rpc_error e = err (rpc_transaction_error e)

  -- the match of `status` on the answer
  abbrev pub poll_of : Result ExecutionFinalResult → Result (Poll ExecutionFinalResult)
  poll_of (ok result) = ok (ready result)
  poll_of (err (rpc_transaction_error e)) = poll_rpc_error e
  poll_of (err rpc_transaction_pending) = ok pending
  poll_of (err e) = err e
  poll_of panic = panic

  module _ ⦃net : Net⦄ where
    unfoldable pub status : AsyncTransactionStatus → M (Poll ExecutionFinalResult)
    unfolding status_tx_async from_view
    status t s =
        let (r, s') = status_tx_async t.client t.sender_id t.hash TxExecutionStatus.included s in
        (poll_of (map_ok from_view r), s')

    -- The loop of `wait`, for at most `fuel` rounds: `none` means that it would go on.
    unfoldable pub wait :
        ℕ → Duration → AsyncTransactionStatus → State → Option (Result ExecutionFinalResult × State)
    unfolding status sleep
    wait zero interval t s = none
    wait (suc fuel) interval t s =
        let (r, s') = status t s in
        elim r [
          | ok polled ↦ elim polled [
            | ready val ↦ some (ok val, s')
            | pending ↦ wait fuel interval t (sleep interval s').1
          ]
          | err e ↦ some (err e, s')
          | panic ↦ some (panic, s')
        ]

    unfoldable pub wait_default :
        ℕ → AsyncTransactionStatus → State → Option (Result ExecutionFinalResult × State)
    unfolding wait
    wait_default fuel t = wait fuel (near.from_millis 300) t

    -- `impl IntoFuture for AsyncTransactionStatus`
    unfoldable pub into_future :
        ℕ → AsyncTransactionStatus → State → Option (Result ExecutionFinalResult × State)
    unfolding wait_default
    into_future fuel t = wait_default fuel t

    unfoldable pub wait_until : TxExecutionStatus → AsyncTransactionStatus → M ExecutionFinalResult
    unfolding status_tx_async from_view
    wait_until status t s =
        let (r, s') = status_tx_async t.client t.sender_id t.hash status s in
        (map_ok from_view r, s')
