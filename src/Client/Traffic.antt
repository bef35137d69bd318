-- ===== src/Client/Traffic.antt =====
-- near-fetch/src/lib.rs: how many transactions the operations of a client send.
use near_fetch.Prelude.{ℕ, List, Bool, ap, arith, Option-cases, inl, inr}
use near_fetch.Near.{Near}
use near_fetch.Near.Views.{TxExecutionStatus}
use near_fetch.Near.Requests.{Method, Action}
use near_fetch.Effects.{CacheKey, Net, call}
use near_fetch.Effects.Sends.{sends, AtMost, call-AtMost, >>=-AtMost}
use near_fetch.Signer.{SignerExt}
use near_fetch.Signer.Lawful.{IsLawful}
use near_fetch.Client.{Client}
use near_fetch.Client.Nonce.{
  fetch_nonce, access_key, cached_nonce, vacant_nonce, next_nonce, lookup_nonce,
}
use near_fetch.Client.Cache.{cached, with_nonce}
use near_fetch.Client.Errors.{check_and_invalidate_cache}
use near_fetch.Client.Invalidation.{check_and_invalidate_cache-Forgets}
use near_fetch.Client.Send.{sign_tx, send_tx_once}
use near_fetch.Client.Sending as Sending
use near_fetch.Client.Rejection.{Answer}
use near_fetch.Client.Replies.{conclude, request, after_call, after_sign, after_key, after_account}
use near_fetch.Query.Methods.{view_block_query}
use near_fetch.Query.Views.{latest_block, view_block}
use near_fetch.Query.Send.{into_future-after_request}

module _ ⦃near : Near⦄ ⦃net : Net⦄ where
  latest_block-AtMost : (c : Client) → AtMost 0 (latest_block c)
  unfolding latest_block view_block
  latest_block-AtMost c s =
      rw (into_future-after_request view_block_query (view_block c) s) (omega arith)

  cached_nonce-AtMost : (c : Client) (k : CacheKey) (n : ℕ) → AtMost 0 (cached_nonce c k n)
  unfolding cached_nonce
  cached_nonce-AtMost c k n s =
      ground (
        arith,
        latest_block-AtMost c (record s { nonces = with_nonce c k (next_nonce n) s.nonces }),
      )

  access_key-AtMost :
      (c : Client) (account_id : near.AccountId) (pk : near.PublicKey)
      → AtMost 0 (access_key c account_id pk)
  unfolding access_key
  access_key-AtMost c account_id pk s = ground arith

  vacant_nonce-AtMost : (c : Client) (k : CacheKey) → AtMost 0 (vacant_nonce c k)
  unfolding vacant_nonce
  vacant_nonce-AtMost c k s = ground (arith, access_key-AtMost c k.0 k.1 s)

  -- To fetch a nonce sends no transaction.
  pub fetch_nonce-AtMost :
      (c : Client) (account_id : near.AccountId) (pk : near.PublicKey)
      → AtMost 0 (fetch_nonce c account_id pk)
  unfolding fetch_nonce lookup_nonce
  fetch_nonce-AtMost c account_id pk s = elim (Option-cases (cached c (account_id, pk) s)) [
    | inl absent ↦ rw absent (rw absent (vacant_nonce-AtMost c (account_id, pk) s))
    | inr (n, e) ↦ rw e (cached_nonce-AtMost c (account_id, pk) n s)
  ]

  module _ {verify : near.PublicKey → List ℕ → near.Signature → Bool} {signer : SignerExt}
      (lawful : IsLawful verify signer) (c : Client) (receiver_id : near.AccountId)
      (actions : List Action) where
    public_key-AtMost : AtMost 0 signer.public_key
    public_key-AtMost s = rw (lawful.public_key_reads s) (omega arith)

    account_id-AtMost : AtMost 0 signer.account_id
    account_id-AtMost s = rw (lawful.account_id_reads s) (omega arith)

    sign-AtMost : (d : List ℕ) → AtMost 0 (signer.sign d)
    sign-AtMost d s = omega (arith, ap sends (lawful.sign_keeps d s).1)

    open_with_id :
        (pk : near.PublicKey) (issued : ℕ × near.CryptoHash × ℕ) (id : near.AccountId)
        → AtMost 0 (Sending.with_id signer c receiver_id actions pk issued id)
    open_with_id pk issued id =
        >>=-AtMost 0 0 (signer.sign _) (Sending.with_signature signer c receiver_id actions _)
          (sign-AtMost _) (λ signature s. omega arith)

    -- To sign a transaction sends none, if the signer keeps its contract.
    pub sign_tx-AtMost : AtMost 0 (sign_tx c signer receiver_id actions)
    unfolding sign_tx
    sign_tx-AtMost =
        >>=-AtMost 0 0 signer.public_key (Sending.with_key signer c receiver_id actions)
          public_key-AtMost
          λ pk.
            >>=-AtMost 0 0 signer.account_id (Sending.with_account signer c receiver_id actions pk)
              account_id-AtMost
              λ account.
                >>=-AtMost 0 0 (fetch_nonce c account pk)
                  (Sending.with_nonce signer c receiver_id actions pk)
                  (fetch_nonce-AtMost c account pk)
                  λ issued.
                    >>=-AtMost 0 0 signer.account_id
                      (Sending.with_id signer c receiver_id actions pk issued) account_id-AtMost
                      (open_with_id pk issued)

    check-AtMost : (k : CacheKey) (a : Answer) → AtMost 0 (check_and_invalidate_cache c k a)
    check-AtMost k a s = omega (arith, ap sends (check_and_invalidate_cache-Forgets c k a s).trace)

    conclude-AtMost : (a : Answer) → AtMost 0 (conclude a)
    conclude-AtMost a s = ground arith

    module _ (wait_until : TxExecutionStatus) where
      -- `send_tx_once` sends one transaction at most, whatever the network answers.
      pub send_tx_once-AtMost : AtMost 1 (send_tx_once c signer receiver_id actions wait_until)
      unfolding send_tx_once
      send_tx_once-AtMost =
          >>=-AtMost 0 1 signer.account_id (after_account c signer receiver_id actions wait_until)
            account_id-AtMost
            λ account.
              >>=-AtMost 0 1 signer.public_key
                (after_key c signer receiver_id actions wait_until account) public_key-AtMost
                λ pk.
                  >>=-AtMost 0 1 (sign_tx c signer receiver_id actions)
                    (after_sign c signer receiver_id actions wait_until (account, pk))
                    sign_tx-AtMost
                    λ signed.
                      >>=-AtMost 1 0
                        (call Method.send_tx c.rpc_client
                          (request c signer receiver_id actions wait_until signed))
                        (after_call c signer receiver_id actions wait_until (account, pk))
                        (call-AtMost Method.send_tx c.rpc_client
                          (request c signer receiver_id actions wait_until signed))
                        λ a.
                          >>=-AtMost 0 0 (check_and_invalidate_cache c (account, pk) a)
                            (λ _. conclude a) (check-AtMost (account, pk) a)
                            (λ _. conclude-AtMost a)
