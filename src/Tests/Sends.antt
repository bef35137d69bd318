-- ===== src/Tests/Sends.antt =====
-- Signing, sending, retrying and polling (near-fetch/src/lib.rs, near-fetch/src/ops.rs) in the
-- small world.
use near_fetch.Prelude.{
  ℕ, zero, suc, ◌≤◌, List, [], ◌∷◌, some, ◌≡◌, refl, sym, arith, length, ℕ_discrete,
}
use near_fetch.Near.Views.{TxExecutionStatus}
use near_fetch.Near.Requests.{Action, SignedTransaction}
use near_fetch.Error.{ok}
use near_fetch.Effects.{State, cache_key_eq}
use near_fetch.Effects.Sends.{AtMost}
use near_fetch.Signer.{SignerExt}
use near_fetch.Signer.Rotating.{rotating_signer, account_id, public_key, sign}
use near_fetch.Client.Send.{sign_tx, send_tx_once, send_tx_async}
use near_fetch.Client.Sending as Sending
use near_fetch.Client.Rejection.{nonce_rejected}
use near_fetch.Client.Invalidation.{Forgets}
use near_fetch.Client.Replies as Replies
use near_fetch.Client.Async as Async
use near_fetch.Ops.Retry.{Retry, Starts, Yields, done, more}
use near_fetch.Ops.Retryable.{RetryableTransaction, into_future}
use near_fetch.Ops.Attempts.{attempts, after_done, after_more, into_future-AtMost}
use near_fetch.Tests.World.{small, small_net, client, warm_state, take_delays}
use near_fetch.Tests.Signers.{two_keys, lawful_keys}

abbrev pub signer : SignerExt
signer = rotating_signer two_keys

abbrev pub actions : List Action
actions = Action.create_account ∷ []

-- what `sign_tx` makes of the cached nonce 41
abbrev pub signed : SignedTransaction
signed = record {
  signature = 2;
  transaction = record {
    nonce = 42;
    signer_id = 1;
    public_key = 2;
    receiver_id = 9;
    block_hash = 6;
    actions = actions;
  };
}

abbrev pub signed_state : State
signed_state = (sign_tx client signer 9 actions warm_state).1

pub signs : sign_tx client signer 9 actions warm_state ≡ (ok signed, signed_state)
unfolding sign_tx account_id public_key sign cache_key_eq ℕ_discrete
signs = refl

pub asks_account : signer.account_id warm_state ≡ (ok 1, warm_state)
unfolding account_id
asks_account = refl

pub asks_key : signer.public_key warm_state ≡ (ok 2, warm_state)
unfolding public_key
asks_key = refl

sign_tx-IsSigned_example :
    Sending.IsSigned lawful_keys client 9 actions warm_state signed_state signed
sign_tx-IsSigned_example =
    Sending.sign_tx-IsSigned lawful_keys client 9 actions warm_state signed_state signed signs

-- the first transaction is refused for its nonce, and the nonce is forgotten
send_tx_once-reply_example :
    let (r, t) = send_tx_once client signer 9 actions TxExecutionStatus.included warm_state in
    (r
      ≡ Replies.reply_of
          (Replies.answer client signer 9 actions TxExecutionStatus.included signed signed_state))
    × Forgets client
        (1, 2)
        (nonce_rejected
          (Replies.answer client signer 9 actions TxExecutionStatus.included signed signed_state))
        (Replies.sent client signer 9 actions TxExecutionStatus.included signed signed_state)
        t
send_tx_once-reply_example =
    Replies.send_tx_once-reply client signer 9 actions TxExecutionStatus.included warm_state
      warm_state warm_state signed_state 1 2 signed asks_account asks_key signs

send_tx_async-Ends_example :
    Async.Ends client signer 9 actions
      (1, 2)
      42
      (Replies.answer client signer 9 actions TxExecutionStatus.none signed signed_state)
      (Replies.sent client signer 9 actions TxExecutionStatus.none signed signed_state)
      (send_tx_async client signer 9 actions warm_state)
send_tx_async-Ends_example =
    Async.send_tx_async-Ends client signer 9 actions warm_state warm_state warm_state signed_state 1
      2 signed asks_account asks_key signs

-- a `Retry` that keeps to its documentation
instance abbrev pub retries : Retry
retries = record { start = attempts }

pub retries_Starts : Starts retries
unfolding attempts
retries_Starts A [] action s = sym (after_done attempts action (action s))
retries_Starts A (d ∷ ds) action s = sym (after_more attempts action d ds ds (λ u. refl) (action s))

abbrev pub delays : List ℕ
delays = 10 ∷ 20 ∷ []

pub delays-Yields : Yields delays delays
delays-Yields = more refl (more refl (done refl))

abbrev pub sending : RetryableTransaction
sending = record {
  client = client;
  signer = signer;
  receiver_id = 9;
  actions = ok actions;
  strategy = some delays;
  wait_until = TxExecutionStatus.included;
}

into_future-AtMost_example : AtMost 3 (into_future sending)
into_future-AtMost_example =
    into_future-AtMost retries_Starts sending delays lawful_keys delays-Yields

take_delays-length : (n : ℕ) (st : List ℕ) → length (take_delays n st) ≤ n
take_delays-length zero st = omega arith
take_delays-length (suc n) [] = omega arith
take_delays-length (suc n) (d ∷ ds) = omega (arith, take_delays-length n ds)

Yields-length : {st ds : List ℕ} → Yields st ds → length ds ≤ length st
Yields-length (done e) = omega arith
Yields-length {st = []} (more e y) = absurd (ground arith)
Yields-length {st = x ∷ xs} (more e y) = ground (arith, Yields-length y)
