-- ===== src/Ops/Call.antt =====
-- near-fetch/src/ops.rs: `FunctionCallTransaction`, the builder of one function call, and
-- `Client::call`.
use near_fetch.Prelude.{ℕ, String, List, [], ◌∷◌, Option, none, some}
use near_fetch.Near.{Near, Except}
use near_fetch.Near.Views.{TxExecutionStatus}
use near_fetch.Near.Requests.{Action}
use near_fetch.Error.{map_ok}
use near_fetch.Effects.{Net, M, pure, lift, ◌>>=◌}
use near_fetch.Signer.{SignerExt}
use near_fetch.Client.{Client}
use near_fetch.Client.Send.{send_tx_async}
use near_fetch.Execution.{ExecutionFinalResult, from_view}
use near_fetch.Ops.Constants
use near_fetch.Ops.Function as Function
use near_fetch.Ops.Retry.{Retry}
use near_fetch.Ops.Retryable.{RetryableTransaction, exponential, into_future}
use near_fetch.Ops.Status as Status
use near_fetch.Ops.Status.{AsyncTransactionStatus}

module _ ⦃near : Near⦄ ⦃net : Net⦄ where
  open near use {AccountId, Gas, NearToken, Strategy, SerdeError, IoError}

  pub record FunctionCallTransaction : Type 0 where
    pub client : Client
    pub signer : SignerExt
    pub receiver_id : AccountId
    pub function : Function.Function
    pub retry_strategy : Option Strategy
    pub wait_until : TxExecutionStatus

  -- `Client::call`
  unfoldable pub call : Client → SignerExt → AccountId → String → FunctionCallTransaction
  unfolding Function.new
  call c signer contract_id function = record {
    client = c;
    signer = signer;
    receiver_id = contract_id;
    function = Function.new function;
    retry_strategy = none;
    wait_until = net.default_status;
  }

  unfoldable pub args : List ℕ → FunctionCallTransaction → FunctionCallTransaction
  args a t = record t { function = Function.args a t.function }

  unfoldable pub args_json :
      {U : Type 0}
      → (U → Except SerdeError (List ℕ))
      → U
      → FunctionCallTransaction
      → FunctionCallTransaction
  args_json to_vec u t = record t { function = Function.args_json to_vec u t.function }

  unfoldable pub args_borsh :
      {U : Type 0}
      → (U → Except IoError (List ℕ))
      → U
      → FunctionCallTransaction
      → FunctionCallTransaction
  args_borsh to_vec u t = record t { function = Function.args_borsh to_vec u t.function }

  unfoldable pub deposit : NearToken → FunctionCallTransaction → FunctionCallTransaction
  deposit d t = record t { function = Function.deposit d t.function }

  unfoldable pub gas : Gas → FunctionCallTransaction → FunctionCallTransaction
  unfolding Function.gas
  gas g t = record t { function = Function.gas g t.function }

  unfoldable pub max_gas : FunctionCallTransaction → FunctionCallTransaction
  unfolding gas
  max_gas t = gas Constants.max_gas t

  unfoldable pub retry : Strategy → FunctionCallTransaction → FunctionCallTransaction
  retry strategy t = record t { retry_strategy = some strategy }

  unfoldable pub retry_exponential : ℕ → ℕ → FunctionCallTransaction → FunctionCallTransaction
  unfolding retry exponential
  retry_exponential base_millis max_retries t = retry (exponential base_millis max_retries) t

  unfoldable pub wait_until : TxExecutionStatus → FunctionCallTransaction → FunctionCallTransaction
  wait_until status t = record t { wait_until = status }

  unfoldable pub transact_async : FunctionCallTransaction → M AsyncTransactionStatus
  unfolding send_tx_async Status.new Function.into_action
  transact_async t = do
    action ← lift (Function.into_action t.function)
    hash ← send_tx_async t.client t.signer t.receiver_id (Action.function_call action ∷ [])
    pure (Status.new t.client t.receiver_id hash)

  module _ ⦃r : Retry⦄ where
    -- the transaction that `transact` awaits
    abbrev pub awaited : FunctionCallTransaction → RetryableTransaction
    unfolding Function.into_action
    awaited t = record {
      client = t.client;
      signer = t.signer;
      receiver_id = t.receiver_id;
      actions =
          map_ok (λ action. Action.function_call action ∷ []) (Function.into_action t.function);
      strategy = t.retry_strategy;
      wait_until = t.wait_until;
    }

    unfoldable pub transact : FunctionCallTransaction → M ExecutionFinalResult
    unfolding into_future awaited from_view
    transact t = do view ← into_future (awaited t); pure (from_view view)
