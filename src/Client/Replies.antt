-- ===== src/Client/Replies.antt =====
-- near-fetch/src/lib.rs: what `send_tx_once` does with the node's answer.
use near_fetch.Prelude.{none, some, List, [], ◌∷◌, ◌≡◌, refl, ◌∙◌, arith, Bool-cases, inl, inr}
use near_fetch.Near.{Near, value, error}
use near_fetch.Near.Errors.{TxExecutionError}
use near_fetch.Near.Views.{TxExecutionStatus, FinalExecutionOutcomeView, RpcTransactionResponse}
use near_fetch.Near.Requests.{Method, Action, SignedTransaction, RpcSendTransactionRequest}
use near_fetch.Error.{
  Result, ok, err, rpc_returned_invalid_data, rpc_transaction_error, map_err,
  from_transaction_error, Error,
}
use near_fetch.Effects.{CacheKey, Net, State, called, M, lift, call, ◌>>=◌, ◌>>◌}
use near_fetch.Effects.Laws.{>>=-ok, >>=-err}
use near_fetch.Signer.{SignerExt}
use near_fetch.Client.{Client}
use near_fetch.Client.Errors.{
  check_and_invalidate_cache, invalidate_cache, invalidate_on, is_nonce_error, fetch_tx_errs,
}
use near_fetch.Client.Rejection.{Answer, nonce_rejected}
use near_fetch.Client.Invalidation.{Forgets, check_and_invalidate_cache-Forgets}
use near_fetch.Client.Send.{sign_tx, outcome_of, send_tx_once}

module _ ⦃near : Near⦄ ⦃net : Net⦄ where
  -- the outcome in a response, or that it has none
  abbrev pub outcome_in : RpcTransactionResponse → Result FinalExecutionOutcomeView
  outcome_in response = elim response.final_execution_outcome [
    | none ↦ err (rpc_returned_invalid_data "Missing final execution outcome")
    | some outcome ↦ ok (net.into_outcome outcome)
  ]

  -- what the caller gets for an answer of the node
  abbrev pub reply_of : Answer → Result FinalExecutionOutcomeView
  reply_of (error e) = err (rpc_transaction_error e)
  reply_of (value response) = outcome_in response

  invalidate_on_ok :
      (c : Client) (k : CacheKey) (es : List TxExecutionError) (s : State)
      → (invalidate_on c k es s).0 ≡ ok tt
  unfolding invalidate_on invalidate_cache
  invalidate_on_ok c k [] s = refl
  invalidate_on_ok c k (e ∷ es) s = elim (Bool-cases (is_nonce_error e)) [
    | inl wrong ↦ rw wrong (invalidate_on_ok c k es (invalidate_cache c k s).1)
    | inr fine ↦ rw fine (invalidate_on_ok c k es s)
  ]

  check_ok :
      (c : Client) (k : CacheKey) (a : Answer) (s : State)
      → (check_and_invalidate_cache c k a s).0 ≡ ok tt
  unfolding check_and_invalidate_cache
  check_ok c k (value response) s = invalidate_on_ok c k (fetch_tx_errs response) s
  check_ok c k (error e) s = ground arith

  abbrev pub conclude : Answer → M FinalExecutionOutcomeView
  conclude a = lift (map_err from_transaction_error a) >>= λ response. lift (outcome_of response)

  conclude_lem : (a : Answer) (s : State) → conclude a s ≡ (reply_of a, s)
  unfolding from_transaction_error outcome_of
  conclude_lem (value response) s = refl
  conclude_lem (error e) s = refl

  module _ (c : Client) (signer : SignerExt) (receiver_id : near.AccountId) (actions : List Action)
      (wait_until : TxExecutionStatus) where
    abbrev pub request : SignedTransaction → RpcSendTransactionRequest
    request signed = record { signed_transaction = signed; wait_until = wait_until }

    abbrev pub after_call : CacheKey → Answer → M FinalExecutionOutcomeView
    after_call k a = check_and_invalidate_cache c k a >> conclude a

    abbrev pub after_sign : CacheKey → SignedTransaction → M FinalExecutionOutcomeView
    after_sign k signed = call Method.send_tx c.rpc_client (request signed) >>= after_call k

    abbrev pub after_key : near.AccountId → near.PublicKey → M FinalExecutionOutcomeView
    after_key account pk = sign_tx c signer receiver_id actions >>= after_sign (account, pk)

    abbrev pub after_account : near.AccountId → M FinalExecutionOutcomeView
    after_account account = signer.public_key >>= after_key account

    -- The state after `signed` was sent from `u`.
    abbrev pub sent : SignedTransaction → State → State
    sent signed u = record u {
      trace = called Method.send_tx c.rpc_client (request signed) ∷ u.trace;
      world = (net.call Method.send_tx c.rpc_client (request signed) u.world).1;
    }

    abbrev pub answer : SignedTransaction → State → Answer
    answer signed u = (net.call Method.send_tx c.rpc_client (request signed) u.world).0

    pub after_call_lem :
        (k : CacheKey) (a : Answer) (s : State)
        → after_call k a s ≡ (reply_of a, (check_and_invalidate_cache c k a s).1)
    after_call_lem k a s =
        >>=-ok (check_and_invalidate_cache c k a) (λ _. conclude a) s
          {t = (check_and_invalidate_cache c k a s).1}
          (λ i. (check_ok c k a s i, (check_and_invalidate_cache c k a s).1))
        ∙ conclude_lem a _

    pub send_tx_once_lem :
        (s0 s1 s2 u : State) (account : near.AccountId) (pk : near.PublicKey)
        (signed : SignedTransaction)
        → signer.account_id s0 ≡ (ok account, s1)
        → signer.public_key s1 ≡ (ok pk, s2)
        → sign_tx c signer receiver_id actions s2 ≡ (ok signed, u)
        → send_tx_once c signer receiver_id actions wait_until s0 ≡ (
          reply_of (answer signed u),
          (check_and_invalidate_cache c (account, pk) (answer signed u) (sent signed u)).1,
        )
    unfolding send_tx_once call
    send_tx_once_lem s0 s1 s2 u account pk signed e0 e1 e2 =
        let k : CacheKey = (account, pk) in
        >>=-ok signer.account_id after_account s0 e0
        ∙ >>=-ok signer.public_key (after_key account) s1 e1
        ∙ >>=-ok (sign_tx c signer receiver_id actions) (after_sign k) s2 e2
        ∙ after_call_lem k (answer signed u) (sent signed u)

    -- Once a transaction is signed, `send_tx_once` sends that transaction and nothing else. It
    -- returns the outcome in the answer, or the answer's error, and it forgets the cached nonce of
    -- its key exactly if the answer says that the nonce was wrong.
    pub send_tx_once-reply :
        (s0 s1 s2 u : State) (account : near.AccountId) (pk : near.PublicKey)
        (signed : SignedTransaction)
        → signer.account_id s0 ≡ (ok account, s1)
        → signer.public_key s1 ≡ (ok pk, s2)
        → sign_tx c signer receiver_id actions s2 ≡ (ok signed, u)
        → let (r, t) = send_tx_once c signer receiver_id actions wait_until s0 in
          (r ≡ reply_of (answer signed u))
          × Forgets c (account, pk) (nonce_rejected (answer signed u)) (sent signed u) t
    send_tx_once-reply s0 s1 s2 u account pk signed e0 e1 e2 =
        rw (send_tx_once_lem s0 s1 s2 u account pk signed e0 e1 e2) (
          refl,
          check_and_invalidate_cache-Forgets c (account, pk) (answer signed u) (sent signed u),
        )

    -- If the transaction cannot be signed, its error is returned and nothing is sent.
    pub send_tx_once-unsigned :
        (s0 s1 s2 u : State) (account : near.AccountId) (pk : near.PublicKey) (e : Error)
        → signer.account_id s0 ≡ (ok account, s1)
        → signer.public_key s1 ≡ (ok pk, s2)
        → sign_tx c signer receiver_id actions s2 ≡ (err e, u)
        → send_tx_once c signer receiver_id actions wait_until s0 ≡ (err e, u)
    unfolding send_tx_once
    send_tx_once-unsigned s0 s1 s2 u account pk e e0 e1 e2 =
        >>=-ok signer.account_id after_account s0 e0
        ∙ >>=-ok signer.public_key (after_key account) s1 e1
        ∙ >>=-err (sign_tx c signer receiver_id actions) (after_sign (account, pk)) s2 e2
