-- ===== src/Ops/Polling.antt =====
-- near-fetch/src/ops.rs: `AsyncTransactionStatus::status` and `wait_until`.
use near_fetch.Prelude.{◌∷◌, Bool, true, false, ◌≡◌, refl, ap, ◌∙◌, arith, if◌then◌else◌}
use mathlib.Core.Path.{ap₂}
use near_fetch.Near.{Near, value, error}
use near_fetch.Near.Errors.{
  server_error, handler_error, RpcTransactionError, unknown_transaction, timeout_error,
  invalid_transaction, JsonRpcServerError, transport_error,
}
use near_fetch.Near.Views.{TxExecutionStatus}
use near_fetch.Near.Requests.{Method, RpcTransactionStatusRequest}
use near_fetch.Error.{
  rpc_transaction_error, rpc_transaction_pending, Result, ok, err, map_ok, from_transaction_error,
}
use near_fetch.Effects.{Net, State, called, call}
use near_fetch.Client.Rejection.{Answer}
use near_fetch.Client.Replies.{outcome_in}
use near_fetch.Client.Send.{status_tx_async, outcome_of, is_pending}
use near_fetch.Execution.{ExecutionFinalResult, from_view}
use near_fetch.Ops.Status.{
  Poll, ready, pending, AsyncTransactionStatus, poll_of, status, wait_until,
}

module _ ⦃near : Near⦄ ⦃net : Net⦄ where
  -- The request about a transaction, the answer to it from a state, and the state after it.
  abbrev pub request : AsyncTransactionStatus → TxExecutionStatus → RpcTransactionStatusRequest
  request t st = record { sender_account_id = t.sender_id; tx_hash = t.hash; wait_until = st }

  abbrev pub answer : AsyncTransactionStatus → TxExecutionStatus → State → Answer
  answer t st s = (net.call Method.tx t.client.rpc_client (request t st) s.world).0

  abbrev pub asked : AsyncTransactionStatus → TxExecutionStatus → State → State
  asked t st s = record s {
    trace = called Method.tx t.client.rpc_client (request t st) ∷ s.trace;
    world = (net.call Method.tx t.client.rpc_client (request t st) s.world).1;
  }

  -- The status says that nothing has been executed yet.
  abbrev pub is_unexecuted : TxExecutionStatus → Bool
  is_unexecuted TxExecutionStatus.none = true
  is_unexecuted TxExecutionStatus.included = true
  is_unexecuted (TxExecutionStatus.other _) = false

  is_pending_lem : (st : TxExecutionStatus) → is_pending st ≡ is_unexecuted st
  is_pending_lem TxExecutionStatus.none = refl
  is_pending_lem TxExecutionStatus.included = refl
  is_pending_lem (TxExecutionStatus.other _) = refl

  -- The answer means that the transaction is still on its way.
  abbrev pub is_on_its_way : Answer → Bool
  is_on_its_way (error (server_error (handler_error (unknown_transaction _)))) = true
  is_on_its_way (error (server_error (handler_error timeout_error))) = true
  is_on_its_way (error _) = false
  is_on_its_way (value response) = is_unexecuted response.final_execution_status

  -- What an answer means to a caller who does not wait: an outcome, or an error.
  abbrev pub settled : Answer → Result ExecutionFinalResult
  settled (error e) = err (rpc_transaction_error e)
  settled (value response) =
      if is_unexecuted response.final_execution_status
      then err rpc_transaction_pending
      else map_ok from_view (outcome_in response)

  status_answer :
      (t : AsyncTransactionStatus) (st : TxExecutionStatus) (s : State) (a : Answer)
      → answer t st s ≡ a
      → let (r, u) = status_tx_async t.client t.sender_id t.hash st s in
        (map_ok from_view r ≡ settled a) × (u ≡ asked t st s)
  unfolding status_tx_async call from_transaction_error outcome_of
  status_answer t st s (error e) h = (ground (arith, h), ground (arith, h))
  status_answer t st s (value response) h =
      let same = is_pending_lem response.final_execution_status in
      (ground (arith, h, same), ground (arith, h, same))

  -- The answer of `status`: what came of the transaction, or that it is on its way.
  abbrev pub polled : Answer → Result (Poll ExecutionFinalResult)
  polled a = if is_on_its_way a then ok pending else map_ok ready (settled a)

  poll_of-settled : (a : Answer) → poll_of (settled a) ≡ polled a
  unfolding outcome_of
  poll_of-settled (value response) = ground arith
  poll_of-settled (error (server_error (handler_error (unknown_transaction _)))) = refl
  poll_of-settled (error (server_error (handler_error timeout_error))) = refl
  poll_of-settled (error (server_error (handler_error (RpcTransactionError.other _)))) = refl
  poll_of-settled (error (server_error (handler_error (invalid_transaction _ _)))) = refl
  poll_of-settled (error (server_error (JsonRpcServerError.other _))) = refl
  poll_of-settled (error (transport_error _)) = refl

  -- `status` sends one request, which waits until the transaction is included. It is pending
  -- exactly while the node does not know the transaction, has timed out, or has the transaction
  -- with no execution yet; else it gives the outcome, or the node's error.
  pub status-polled :
      (t : AsyncTransactionStatus) (s : State)
      → status t s
        ≡ (polled (answer t TxExecutionStatus.included s), asked t TxExecutionStatus.included s)
  unfolding status
  status-polled t s =
      let a = answer t TxExecutionStatus.included s in
      let (outcome, after) = status_answer t TxExecutionStatus.included s a refl in
      ap₂ (λ (r : Result ExecutionFinalResult) (u : State). (poll_of r, u)) outcome after
      ∙ ap (λ (r : Result (Poll ExecutionFinalResult)). (r, asked t TxExecutionStatus.included s))
          (poll_of-settled a)

  -- `AsyncTransactionStatus::wait_until` gives the outcome in the answer, or an error. An answer
  -- with the status `None` or `Included` is the error `RpcTransactionPending`, also where that is
  -- the status that was waited for.
  pub wait_until-settled :
      (st : TxExecutionStatus) (t : AsyncTransactionStatus) (s : State)
      → wait_until st t s ≡ (settled (answer t st s), asked t st s)
  unfolding wait_until
  wait_until-settled st t s =
      let (outcome, after) = status_answer t st s (answer t st s) refl in
      ap₂ (λ (r : Result ExecutionFinalResult) (u : State). (r, u)) outcome after
