-- ===== src/Client/Async.antt =====
-- near-fetch/src/lib.rs: what `send_tx_async` does with the node's answer.
use mathlib.Core.Path.{subst}
use near_fetch.Prelude.{
  Bool, true, false, List, ◌≡◌, refl, ◌∙◌, if◌then◌else◌, Bool-cases, inl, inr,
}
use near_fetch.Near.{Near, value, error}
use near_fetch.Near.Errors.{JsonRpcServerError, server_error, transport_error, handler_error}
use near_fetch.Near.Views.{TxExecutionStatus}
use near_fetch.Near.Requests.{Method, Action, SignedTransaction}
use near_fetch.Error.{Result, ok, err, rpc_transaction_error, map_err, from_transaction_error}
use near_fetch.Effects.{CacheKey, Net, State, call, M, pure, lift, ◌>>=◌, ◌>>◌}
use near_fetch.Effects.Laws.{>>=-ok}
use near_fetch.Signer.{SignerExt}
use near_fetch.Client.{Client}
use near_fetch.Client.Errors.{invalidate_cache}
use near_fetch.Client.Send.{sign_tx, send_tx_async, is_handler_error}
use near_fetch.Client.Invalidation.{Forgets, nothing-Forgets, invalidate_cache-Forgets}
use near_fetch.Client.Rejection.{Answer}
use near_fetch.Client.Replies.{answer, sent, request}

module _ ⦃near : Near⦄ ⦃net : Net⦄ where
  -- The hash of the transaction, unless the node refused it.
  abbrev pub hash_of : near.CryptoHash → Answer → Result near.CryptoHash
  hash_of hash (value _) = ok hash
  hash_of hash (error e) = err (rpc_transaction_error e)

  -- The node's handler has refused the transaction, with whichever error.
  abbrev pub handler_refused : Answer → Bool
  handler_refused (value _) = false
  handler_refused (error (transport_error _)) = false
  handler_refused (error (server_error (JsonRpcServerError.other _))) = false
  handler_refused (error (server_error (handler_error _))) = true

  handler_refused_lem : (a : Answer) → is_handler_error a ≡ handler_refused a
  handler_refused_lem (value _) = refl
  handler_refused_lem (error (transport_error _)) = refl
  handler_refused_lem (error (server_error (JsonRpcServerError.other _))) = refl
  handler_refused_lem (error (server_error (handler_error _))) = refl

  module _ (c : Client) (signer : SignerExt) (receiver_id : near.AccountId)
      (actions : List Action) where
    abbrev pub conclude : near.CryptoHash → Answer → M near.CryptoHash
    conclude hash a = lift (map_err from_transaction_error a) >>= λ _. pure hash

    abbrev pub after_call : CacheKey → near.CryptoHash → Answer → M near.CryptoHash
    after_call k hash a =
        (if is_handler_error a then invalidate_cache c k else pure tt) >> conclude hash a

    abbrev pub after_sign : CacheKey → SignedTransaction → M near.CryptoHash
    after_sign k signed =
        call Method.send_tx c.rpc_client
          (request c signer receiver_id actions TxExecutionStatus.none signed)
        >>= after_call k (net.get_hash signed)

    abbrev pub after_key : near.AccountId → near.PublicKey → M near.CryptoHash
    after_key account pk = sign_tx c signer receiver_id actions >>= after_sign (account, pk)

    abbrev pub after_account : near.AccountId → M near.CryptoHash
    after_account account = signer.public_key >>= after_key account

    conclude_lem :
        (hash : near.CryptoHash) (a : Answer) (s : State) → conclude hash a s ≡ (hash_of hash a, s)
    unfolding from_transaction_error
    conclude_lem hash (value response) s = refl
    conclude_lem hash (error e) s = refl

    -- the outcome of a call, with what it may change
    abbrev pub Ends :
        CacheKey → near.CryptoHash → Answer → State → Result near.CryptoHash × State → Type 0
    Ends k hash a s p = (p.0 ≡ hash_of hash a) × Forgets c k (handler_refused a) s p.1

    pub after_call-Ends :
        (k : CacheKey) (hash : near.CryptoHash) (a : Answer) (s : State)
        → Ends k hash a s (after_call k hash a s)
    unfolding invalidate_cache
    after_call-Ends k hash a s =
        subst
          (λ b.
            ((after_call k hash a s).0 ≡ hash_of hash a)
            × Forgets c k b s (after_call k hash a s).1)
          (handler_refused_lem a)
          (elim (Bool-cases (is_handler_error a)) [
            | inl refused ↦ rw refused (
                rw (conclude_lem hash a (invalidate_cache c k s).1)
                  (refl, invalidate_cache-Forgets c k s))
            | inr fine ↦ rw fine (rw (conclude_lem hash a s) (refl, nothing-Forgets c k s))
          ])

    -- Once a transaction is signed, `send_tx_async` sends that transaction and nothing else, and
    -- waits for no status. It returns the hash of the transaction, or the error of the answer, and
    -- it forgets the cached nonce of its key exactly if the node's handler refused the transaction.
    pub send_tx_async-Ends :
        (s0 s1 s2 u : State) (account : near.AccountId) (pk : near.PublicKey)
        (signed : SignedTransaction)
        → signer.account_id s0 ≡ (ok account, s1)
        → signer.public_key s1 ≡ (ok pk, s2)
        → sign_tx c signer receiver_id actions s2 ≡ (ok signed, u)
        → Ends
            (account, pk)
            (net.get_hash signed)
            (answer c signer receiver_id actions TxExecutionStatus.none signed u)
            (sent c signer receiver_id actions TxExecutionStatus.none signed u)
            (send_tx_async c signer receiver_id actions s0)
    unfolding send_tx_async call
    send_tx_async-Ends s0 s1 s2 u account pk signed e0 e1 e2 =
        let k : CacheKey = (account, pk) in
        let all =
          >>=-ok signer.account_id after_account s0 e0
          ∙ >>=-ok signer.public_key (after_key account) s1 e1
          ∙ >>=-ok (sign_tx c signer receiver_id actions) (after_sign k) s2 e2 in
        rw all (after_call-Ends k (net.get_hash signed) _ _)
