-- ===== src/Client/Recovery.antt =====
-- near-fetch/src/lib.rs: how a nonce that the node refuses is replaced.
use near_fetch.Prelude.{ℕ, List, Bool, true, none, ◌≡◌, sym, ap, ◌∙◌}
use near_fetch.Near.{Near}
use near_fetch.Near.Views.{TxExecutionStatus, AccessKeyView}
use near_fetch.Near.Requests.{Action, SignedTransaction}
use near_fetch.Error.{Result, ok}
use near_fetch.Effects.{CacheKey, Net, State}
use near_fetch.Effects.Laws.{ok_injective}
use near_fetch.Signer.{SignerExt}
use near_fetch.Signer.Lawful.{IsLawful}
use near_fetch.Client.Sending.{sign_tx-IsSigned}
use near_fetch.Client.{Client}
use near_fetch.Client.Nonce.{next_nonce, access_key, fetch_nonce}
use near_fetch.Client.Cache.{cached, with_nonce, fetch_nonce-miss}
use near_fetch.Client.Rejection.{nonce_rejected}
use near_fetch.Client.Invalidation.{Forgets}
use near_fetch.Client.Send.{sign_tx, send_tx_once}
use near_fetch.Client.Replies.{answer, sent, send_tx_once-reply}

module _ ⦃near : Near⦄ ⦃net : Net⦄ (c : Client) (signer : SignerExt) (receiver_id : near.AccountId)
    (actions : List Action) where
  Forgets-cached :
      (k : CacheKey) (s t : State) (q : Client)
      → Forgets c k true s t
      → q.access_key_nonces ≡ c.access_key_nonces
      → cached q k t ≡ none
  Forgets-cached k s t q forgets shared = rw shared forgets.own

  module _ (s0 s1 s2 u : State) (account : near.AccountId) (pk : near.PublicKey)
      (signed : SignedTransaction) (got_account : signer.account_id s0 ≡ (ok account, s1))
      (got_key : signer.public_key s1 ≡ (ok pk, s2))
      (signs : sign_tx c signer receiver_id actions s2 ≡ (ok signed, u)) where
    -- The next nonce is taken from the chain.
    send_tx_once-refetch :
        (wait_until : TxExecutionStatus) (q : Client) (v : State) (key : AccessKeyView)
        (hash : near.CryptoHash) (height : ℕ)
        → nonce_rejected (answer c signer receiver_id actions wait_until signed u) ≡ true
        → q.access_key_nonces ≡ c.access_key_nonces
        → access_key q account pk (send_tx_once c signer receiver_id actions wait_until s0).1
          ≡ (ok (key, hash, height), v)
        → fetch_nonce q account pk (send_tx_once c signer receiver_id actions wait_until s0).1 ≡ (
          ok (next_nonce key.nonce, hash, height),
          record v {
            nonces =
                with_nonce q
                  (account, pk)
                  (next_nonce key.nonce)
                  (send_tx_once c signer receiver_id actions wait_until s0).1.nonces;
          },
        )
    send_tx_once-refetch wait_until q v key hash height rejected shared asked =
        let t = (send_tx_once c signer receiver_id actions wait_until s0).1 in
        let forgets =
          (send_tx_once-reply c signer receiver_id actions wait_until s0 s1 s2 u account pk signed
            got_account got_key signs).1 in
        fetch_nonce-miss q account pk t v key hash height
          (Forgets-cached (account, pk) (sent c signer receiver_id actions wait_until signed u) t q
            (rw rejected at forgets) shared)
          asked

    -- When the answer to `send_tx_once` says that the nonce was wrong, the next transaction that is
    -- signed for the key, also by a clone of the client, has the nonce one above that of the access
    -- key on the chain, which is asked for, and the block that this answer names, whatever was
    -- cached before; the signer of that transaction keeps its contract.
    pub send_tx_once-resign :
        {verify : near.PublicKey → List ℕ → near.Signature → Bool} {next : SignerExt}
        (lawful : IsLawful verify next) (wait_until : TxExecutionStatus) (q : Client)
        (receiver : near.AccountId) (others : List Action) (v w : State) (key : AccessKeyView)
        (hash : near.CryptoHash) (height : ℕ) (resigned : SignedTransaction)
        → nonce_rejected (answer c signer receiver_id actions wait_until signed u) ≡ true
        → q.access_key_nonces ≡ c.access_key_nonces
        → access_key q account pk (send_tx_once c signer receiver_id actions wait_until s0).1
          ≡ (ok (key, hash, height), v)
        → sign_tx q next receiver others (send_tx_once c signer receiver_id actions wait_until s0).1
          ≡ (ok resigned, w)
        → ◌≡◌ {A = CacheKey}
            (resigned.transaction.signer_id, resigned.transaction.public_key)
            (account, pk)
        → (resigned.transaction.nonce ≡ next_nonce key.nonce)
          × (resigned.transaction.block_hash ≡ hash)
    send_tx_once-resign lawful wait_until q receiver others v w key hash height resigned rejected
          shared asked signs_again same =
        let t = (send_tx_once c signer receiver_id actions wait_until s0).1 in
        let is_signed = sign_tx-IsSigned lawful q receiver others t w resigned signs_again in
        let refetch = send_tx_once-refetch wait_until q v key hash height rejected shared asked in
        let issued : ok
              (resigned.transaction.nonce, resigned.transaction.block_hash, is_signed.height)
            ≡ ok (next_nonce key.nonce, hash, height) =
          sym is_signed.fetched
          ∙ ap (λ (k : CacheKey). (fetch_nonce q k.0 k.1 t).0) same
          ∙ ap (λ (p : Result (ℕ × near.CryptoHash × ℕ) × State). p.0) refetch in
        let e = ok_injective issued in
        (ap (λ (x : ℕ × near.CryptoHash × ℕ). x.0) e, ap (λ (x : ℕ × near.CryptoHash × ℕ). x.1) e)
