-- ===== src/Tests/Runs.antt =====
-- A nonce that is replaced (Client/Recovery.antt), and calls one after the other
-- (Client/Rising.antt), in the small world.
use near_fetch.Prelude.{ℕ, List, [], ◌∷◌, none, some, ◌≡◌, refl, arith, true, ℕ_discrete}
use near_fetch.Near.Views.{TxExecutionStatus}
use near_fetch.Error.{ok}
use near_fetch.Effects.{State, cache_key_eq}
use near_fetch.Client.Nonce.{access_key, next_nonce}
use near_fetch.Near.Requests.{SignedTransaction}
use near_fetch.Signer.{in_memory_signer}
use near_fetch.Signer.Lawful.{in_memory_signer-IsLawful}
use near_fetch.Signer.Rotating.{account_id, public_key, sign}
use near_fetch.Client.Send.{sign_tx, send_tx_once, send_tx_async}
use near_fetch.Client.Cache.{cached}
use near_fetch.Client.Log.{sent_for}
use near_fetch.Client.Rising.{Sending, perform_all, IsKnown, Rises, perform_all-Rises}
use near_fetch.Client.Recovery.{send_tx_once-resign}
use near_fetch.Tests.World.{small, small_net, client, warm_state, chain_key, verify}
use near_fetch.Tests.Sends.{
  signer, actions, signed, signed_state, signs, asks_account, asks_key, retries,
}

abbrev refused_state : State
refused_state = (send_tx_once client signer 9 actions TxExecutionStatus.included warm_state).1

abbrev asked_state : State
asked_state = (access_key client 1 2 refused_state).1

asks_again : access_key client 1 2 refused_state ≡ (ok (chain_key, 5, 9), asked_state)
unfolding access_key send_tx_once account_id public_key cache_key_eq ℕ_discrete sign
asks_again = refl

-- the same key signs again, with the nonce after that of the access key on the chain
abbrev resigned : SignedTransaction
resigned = record {
  signature = 2;
  transaction = record {
    nonce = 8;
    signer_id = 1;
    public_key = 2;
    receiver_id = 7;
    block_hash = 5;
    actions = [];
  };
}

abbrev resigned_state : State
resigned_state = (sign_tx client (in_memory_signer 2) 7 [] refused_state).1

verifies : (n : ℕ) → verify n [] n ≡ true
verifies n = ground arith

signs_again : sign_tx client (in_memory_signer 2) 7 [] refused_state ≡ (ok resigned, resigned_state)
unfolding sign_tx access_key send_tx_once account_id public_key cache_key_eq ℕ_discrete sign
signs_again = refl

send_tx_once-resign_example : (8 ≡ next_nonce 7) × (◌≡◌ {A = ℕ} 5 5)
unfolding sign_tx account_id public_key cache_key_eq ℕ_discrete sign
send_tx_once-resign_example =
    send_tx_once-resign client signer 9 actions warm_state warm_state warm_state signed_state 1 2
      signed asks_account asks_key signs (in_memory_signer-IsLawful verify 2 (λ d. verifies 2))
      TxExecutionStatus.included client 7 [] asked_state resigned_state chain_key 5 9 resigned refl
      refl asks_again signs_again refl

-- the key 2 of the account 1 is cached at 41, and the node refuses no transaction from here on
abbrev calm_state : State
calm_state = record warm_state { world = 2 }

abbrev plain : Sending
plain = record {
  client = client;
  signer = in_memory_signer 2;
  receiver_id = 9;
  actions = [];
  waits = some TxExecutionStatus.included;
}

abbrev two_sends : List Sending
two_sends = plain ∷ record plain { waits = none } ∷ []

-- the log of the two calls has the nonces 42 and 43
two_sends-sent_for : sent_for (1, 2) (perform_all two_sends calm_state).trace ≡ 42 ∷ 43 ∷ []
unfolding sent_for send_tx_once send_tx_async cache_key_eq ℕ_discrete
two_sends-sent_for = refl

two_sends-IsKnown : IsKnown verify client (1, 2) two_sends calm_state
unfolding send_tx_once cache_key_eq ℕ_discrete
two_sends-IsKnown = (λ e. ground (arith, e), (λ e. ground (arith, e), tt))

known_41 : cached client (1, 2) calm_state ≡ some 41
unfolding cache_key_eq ℕ_discrete
known_41 = refl

perform_all-Rises_example :
    Rises verify client (1, 2) 41 calm_state (perform_all two_sends calm_state)
perform_all-Rises_example =
    perform_all-Rises verify client (1, 2) two_sends 41 calm_state
      (
        (refl, in_memory_signer-IsLawful verify 2 (λ d. verifies 2)),
        ((refl, in_memory_signer-IsLawful verify 2 (λ d. verifies 2)), tt),
      )
      known_41 two_sends-IsKnown (omega arith)
