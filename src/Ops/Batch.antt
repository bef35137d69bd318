-- ===== src/Ops/Batch.antt =====
-- near-fetch/src/ops.rs: `Transaction`, the builder of a batch of actions, and `Client::batch`.
-- An error in the arguments of a call is kept in `actions` until the batch is sent.
use near_fetch.Prelude.{ℕ, List, [], ◌∷◌, ◌++◌, Option, none, some}
use near_fetch.Near.{Near}
use near_fetch.Near.Views.{TxExecutionStatus, FinalExecutionOutcomeView}
use near_fetch.Near.Requests.{Action}
use near_fetch.Error.{Result, ok, err, panic, map_ok}
use near_fetch.Effects.{Net, M, pure, lift, ◌>>=◌}
use near_fetch.Signer.{SignerExt}
use near_fetch.Client.{Client}
use near_fetch.Client.Send.{send_tx_async}
use near_fetch.Ops.Function.{Function}
use near_fetch.Ops.Retry.{Retry}
use near_fetch.Ops.Retryable.{exponential, into_future}
use near_fetch.Ops.Status.{AsyncTransactionStatus}
use near_fetch.Ops.Status as Status

module _ ⦃near : Near⦄ ⦃net : Net⦄ where
  open near use {AccountId, PublicKey, AccessKey, NearToken, Strategy}

  pub record Transaction : Type 0 where
    pub client : Client
    pub signer : SignerExt
    pub receiver_id : AccountId
    pub actions : Result (List Action)
    pub retry_strategy : Option Strategy
    pub wait_until : TxExecutionStatus

  unfoldable pub new : Client → SignerExt → AccountId → Transaction
  new c signer receiver_id = record {
    client = c;
    signer = signer;
    receiver_id = receiver_id;
    actions = ok [];
    retry_strategy = none;
    wait_until = net.default_status;
  }

  -- `Client::batch`
  unfoldable pub batch : Client → SignerExt → AccountId → Transaction
  unfolding new
  batch c signer receiver_id = new c signer receiver_id

  -- `if let Ok(actions) = &mut self.actions { actions.push(action) }`
  unfoldable pub push : Action → Transaction → Transaction
  push action t = record t { actions = map_ok (λ actions. actions ++ action ∷ []) t.actions }

  unfoldable pub add_key : PublicKey → AccessKey → Transaction → Transaction
  unfolding push
  add_key pk ak t = push (Action.add_key pk ak) t

  unfoldable pub call : Function → Transaction → Transaction
  unfolding push
  call function t = elim function.args [
    | ok args ↦
        push
          (Action.function_call (record {
            method_name = function.name;
            args = args;
            deposit = function.deposit;
            gas = function.gas;
          }))
          t
    | err e ↦ record t { actions = err e }
    | panic ↦ record t { actions = panic }
  ]

  unfoldable pub create_account : Transaction → Transaction
  unfolding push
  create_account t = push Action.create_account t

  unfoldable pub delete_account : AccountId → Transaction → Transaction
  unfolding push
  delete_account beneficiary_id t = push (Action.delete_account beneficiary_id) t

  unfoldable pub delete_key : PublicKey → Transaction → Transaction
  unfolding push
  delete_key pk t = push (Action.delete_key pk) t

  unfoldable pub deploy : List ℕ → Transaction → Transaction
  unfolding push
  deploy code t = push (Action.deploy_contract code) t

  unfoldable pub stake : NearToken → PublicKey → Transaction → Transaction
  unfolding push
  stake amount pk t = push (Action.stake amount pk) t

  unfoldable pub transfer : NearToken → Transaction → Transaction
  unfolding push
  transfer deposit t = push (Action.transfer deposit) t

  unfoldable pub retry : Strategy → Transaction → Transaction
  retry strategy t = record t { retry_strategy = some strategy }

  unfoldable pub retry_exponential : ℕ → ℕ → Transaction → Transaction
  unfolding retry exponential
  retry_exponential base_millis max_retries t = retry (exponential base_millis max_retries) t

  unfoldable pub wait_until : TxExecutionStatus → Transaction → Transaction
  wait_until status t = record t { wait_until = status }

  unfoldable pub transact_async : Transaction → M AsyncTransactionStatus
  unfolding send_tx_async Status.new
  transact_async t = do
    actions ← lift t.actions
    hash ← send_tx_async t.client t.signer t.receiver_id actions
    pure (Status.new t.client t.receiver_id hash)

  module _ ⦃r : Retry⦄ where
    unfoldable pub transact : Transaction → M FinalExecutionOutcomeView
    unfolding into_future
    transact t = into_future (record {
      client = t.client;
      signer = t.signer;
      receiver_id = t.receiver_id;
      actions = t.actions;
      strategy = t.retry_strategy;
      wait_until = t.wait_until;
    })
