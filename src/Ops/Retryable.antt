-- ===== src/Ops/Retryable.antt =====
-- near-fetch/src/ops.rs: `RetryableTransaction`, a transaction that is sent when it is awaited,
-- and `Client::send_tx` of near-fetch/src/lib.rs, which makes one.
use near_fetch.Prelude.{ℕ, List, Option, none, some}
use near_fetch.Near.{Near}
use near_fetch.Near.Views.{TxExecutionStatus, FinalExecutionOutcomeView}
use near_fetch.Near.Requests.{Action}
use near_fetch.Error.{Result, ok}
use near_fetch.Effects.{Net, M, lift, ◌>>=◌}
use near_fetch.Signer.{SignerExt}
use near_fetch.Client.{Client}
use near_fetch.Client.Send.{send_tx_once}
use near_fetch.Ops.Retry.{Retry}

module _ ⦃near : Near⦄ where
  -- `ExponentialBackoff::from_millis(base_millis).map(jitter).take(max_retries)`
  unfoldable pub exponential : ℕ → ℕ → near.Strategy
  exponential base_millis max_retries = near.take max_retries (near.jittered_backoff base_millis)

module _ ⦃near : Near⦄ ⦃net : Net⦄ where
  open near use {AccountId, Strategy}

  pub record RetryableTransaction : Type 0 where
    pub client : Client
    pub signer : SignerExt
    pub receiver_id : AccountId
    pub actions : Result (List Action)
    pub strategy : Option Strategy
    pub wait_until : TxExecutionStatus

  -- `Client::send_tx`
  unfoldable pub send_tx : Client → SignerExt → AccountId → List Action → RetryableTransaction
  send_tx c signer receiver_id actions = record {
    client = c;
    signer = signer;
    actions = ok actions;
    receiver_id = receiver_id;
    strategy = none;
    wait_until = net.default_status;
  }

  unfoldable pub retry : Strategy → RetryableTransaction → RetryableTransaction
  retry strategy t = record t { strategy = some strategy }

  unfoldable pub retry_exponential : ℕ → ℕ → RetryableTransaction → RetryableTransaction
  unfolding retry exponential
  retry_exponential base_millis max_retries t = retry (exponential base_millis max_retries) t

  unfoldable pub wait_until : TxExecutionStatus → RetryableTransaction → RetryableTransaction
  wait_until status t = record t { wait_until = status }

  module _ ⦃r : Retry⦄ where
    -- `if let Some(strategy) = self.strategy`
    abbrev pub start_with : {A : Type 0} → Option Strategy → M A → M A
    start_with none action = action
    start_with (some strategy) action = r.start strategy action

    -- `impl IntoFuture for RetryableTransaction`
    unfoldable pub into_future : RetryableTransaction → M FinalExecutionOutcomeView
    unfolding send_tx_once
    into_future t = do
      actions ← lift t.actions
      start_with t.strategy (send_tx_once t.client t.signer t.receiver_id actions t.wait_until)
