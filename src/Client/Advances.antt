-- ===== src/Client/Advances.antt =====
-- near-fetch/src/lib.rs: what one call of `send_tx_once` or `send_tx_async` does to the cached nonce
-- of a key and sends for it.
use near_fetch.Prelude.{
  ℕ, ◌+◌, ◌^◌, ◌<◌, List, [], ◌∷◌, ◌++◌, Bool, true, false, some, ◌≡◌, ◌⊎◌, refl, sym, ◌∙◌, ap,
  arith, inl, inr, Dec-cases,
}
use mathlib.Core.Path.{subst}
use near_fetch.Near.{Near}
use near_fetch.Near.Views.{TxExecutionStatus, FinalExecutionOutcomeView}
use near_fetch.Near.Requests.{Method, Action, SignedTransaction, RpcSendTransactionRequest}
use near_fetch.Error.{Result, ok}
use near_fetch.Effects.{CacheKey, cache_key_eq, Event, called, call, Net, State, M, ◌>>=◌}
use near_fetch.Effects.Laws.{>>=-elim, >>=-elim_of_reads}
use near_fetch.Signer.{SignerExt}
use near_fetch.Signer.Lawful.{IsLawful}
use near_fetch.Client.{Client}
use near_fetch.Client.Send.{sign_tx, send_tx_once, send_tx_async}
use near_fetch.Client.Cache.{cached}
use near_fetch.Client.Rejection.{nonce_rejected}
use near_fetch.Client.Invalidation.{Forgets, check_and_invalidate_cache-Forgets}
use near_fetch.Client.Replies as Replies
use near_fetch.Client.Async as Async
use near_fetch.Client.Async.{handler_refused}
use near_fetch.Client.Log.{IsSilent, refl-IsSilent, sent_for}
use near_fetch.Client.Spending.{Kept, Signs, sign_tx-Signs}

module _ ⦃near : Near⦄ ⦃net : Net⦄ (c : Client) (k : CacheKey) (n : ℕ) (small : n + 1 < 2 ^ 64)
    (s : State) (held : cached c k s ≡ some n) where
  -- One send: nothing for the key, or a transaction with the nonce after the cached one, and then
  -- this is what the cache has, unless it has forgotten the key.
  pub record Advances (t : State) : Type 0 where
    pub events : List Event
    pub traced : t.trace ≡ events ++ s.trace
    pub sends : (sent_for k events ≡ []) ⊎ (sent_for k events ≡ (n + 1) ∷ [])
    pub rest : (m : ℕ) → cached c k t ≡ some m → ((m ≡ n) × (sent_for k events ≡ [])) ⊎ (m ≡ n + 1)

  quiet-Advances : (t : State) → IsSilent k s t → Kept c k n small s held t → Advances t
  quiet-Advances t silent kept = record {
    events = silent.events;
    traced = silent.traced;
    sends = inl silent.silent;
    rest = λ m e. elim kept [
      | inl old ↦ inl (ground (arith, e, old), silent.silent)
      | inr new ↦ inr (ground (arith, e, new))
    ];
  }

  -- What the cache may have after an invalidation is what it had before.
  Forgets-rest :
      (j : CacheKey) (forget : Bool) (u v : State)
      → Forgets c j forget u v
      → (m : ℕ) → cached c k v ≡ some m
      → cached c k u ≡ some m
  Forgets-rest j forget u v forgets m e = elim (cache_key_eq k j) [
    | yes same ↦ own forget (subst (λ q. Forgets c q forget u v) (sym same) forgets)
    | no other ↦ sym (forgets.others c k (inr other)) ∙ e
  ]
    where
      own : (b : Bool) → Forgets c k b u v → cached c k u ≡ some m
      own true f = absurd (ground (arith, f.own, e))
      own false f = sym f.own ∙ e

  -- The transaction is sent after `sign_tx`, and the answer dealt with.
  sent-Advances :
      (r : RpcSendTransactionRequest) (j : CacheKey) (forget : Bool) (t u v : State)
      → IsSilent k s t
      → Kept c k n small s held t
      → (◌≡◌ {A = CacheKey}
            (
              r.signed_transaction.transaction.signer_id,
              r.signed_transaction.transaction.public_key,
            )
            k
          → (cached c k t ≡ some (n + 1)) × (r.signed_transaction.transaction.nonce ≡ n + 1))
      → u.nonces ≡ t.nonces
      → u.trace ≡ called Method.send_tx c.rpc_client r ∷ t.trace
      → Forgets c j forget u v
      → Advances v
  unfolding sent_for
  sent-Advances r j forget t u v silent kept next nonces trace forgets =
      let tx = r.signed_transaction.transaction in
      let same : cached c k u ≡ cached c k t = rw nonces in
      let back : (m : ℕ) → cached c k v ≡ some m → cached c k t ≡ some m =
        λ m e. sym same ∙ Forgets-rest j forget u v forgets m e in
      let traced =
        forgets.trace ∙ trace ∙ ap (◌∷◌ (called Method.send_tx c.rpc_client r)) silent.traced in
      elim (Dec-cases (cache_key_eq (tx.signer_id, tx.public_key) k)) [
        | inl (own, e) ↦ record {
          events = called Method.send_tx c.rpc_client r ∷ silent.events;
          traced = traced;
          sends = inr (rw (e, silent.silent, (next own).1));
          rest = λ m f. inr (ground (arith, back m f, (next own).0));
        }
        | inr e ↦ record {
          events = called Method.send_tx c.rpc_client r ∷ silent.events;
          traced = traced;
          sends = inl (rw (e, silent.silent));
          rest = λ m f. elim kept [
            | inl old ↦ inl (ground (arith, back m f, old), rw (e, silent.silent))
            | inr new ↦ inr (ground (arith, back m f, new))
          ];
        }
      ]

  module _ {verify : near.PublicKey → List ℕ → near.Signature → Bool} {signer : SignerExt}
      (lawful : IsLawful verify signer) (receiver_id : near.AccountId) (actions : List Action) where
    signs :
        Signs lawful c receiver_id actions k n small s held (sign_tx c signer receiver_id actions s)
    signs = sign_tx-Signs lawful c receiver_id actions k n small s held

    -- A send of either kind, by what it does when a transaction is signed.
    sending-Advances :
        {A : Type 0} (after_sign : CacheKey → SignedTransaction → M A)
        → ((j : CacheKey) (signed : SignedTransaction) (t : State)
            → sign_tx c signer receiver_id actions s ≡ (ok signed, t)
            → Advances (after_sign j signed t).1)
        → Advances
            ((signer.account_id >>= λ account. signer.public_key >>= λ pk.
                sign_tx c signer receiver_id actions >>= after_sign (account, pk))
              s).1
    sending-Advances {A} after_sign then =
        let G = λ (p : Result A × State). Advances p.1 in
        let still : Advances s = quiet-Advances s (refl-IsSilent k s) (inl held) in
        >>=-elim_of_reads G signer.account_id
          (λ account. signer.public_key >>= λ pk.
            sign_tx c signer receiver_id actions >>= after_sign (account, pk))
          s (lawful.account_id_reads s)
          (λ account got.
            >>=-elim_of_reads G signer.public_key
              (λ pk. sign_tx c signer receiver_id actions >>= after_sign (account, pk)) s
              (lawful.public_key_reads s)
              (λ pk got'.
                >>=-elim G (sign_tx c signer receiver_id actions) (after_sign (account, pk)) s
                  (then (account, pk)) (λ r not_ok. quiet-Advances _ signs.silent signs.kept))
              (λ r not_ok. still))
          (λ r not_ok. still)

    -- the end of a send, once the answer has come
    ended-Advances :
        (wait_until : TxExecutionStatus) (j : CacheKey) (forget : Bool) (signed : SignedTransaction)
        (t v : State)
        → sign_tx c signer receiver_id actions s ≡ (ok signed, t)
        → Forgets c j forget (Replies.sent c signer receiver_id actions wait_until signed t) v
        → Advances v
    ended-Advances wait_until j forget signed t v e forgets =
        let made =
          subst (Signs lawful c receiver_id actions k n small s held) e
            (sign_tx-Signs lawful c receiver_id actions k n small s held) in
        sent-Advances (Replies.request c signer receiver_id actions wait_until signed) j forget t
          (Replies.sent c signer receiver_id actions wait_until signed t) v made.silent made.kept
          (made.next_nonce signed refl) refl refl forgets

    pub send_tx_once-Advances :
        (wait_until : TxExecutionStatus)
        → Advances (send_tx_once c signer receiver_id actions wait_until s).1
    unfolding send_tx_once call
    send_tx_once-Advances wait_until =
        sending-Advances (Replies.after_sign c signer receiver_id actions wait_until)
          (λ j signed t e.
            let u = Replies.sent c signer receiver_id actions wait_until signed t in
            let answer = Replies.answer c signer receiver_id actions wait_until signed t in
            subst (λ (p : Result FinalExecutionOutcomeView × State). Advances p.1)
              (sym (Replies.after_call_lem c signer receiver_id actions wait_until j answer u))
              (ended-Advances wait_until j (nonce_rejected answer) signed t _ e
                (check_and_invalidate_cache-Forgets c j answer u)))

    pub send_tx_async-Advances : Advances (send_tx_async c signer receiver_id actions s).1
    unfolding send_tx_async call
    send_tx_async-Advances =
        sending-Advances (Async.after_sign c signer receiver_id actions) (λ j signed t e.
          let answer =
            Replies.answer c signer receiver_id actions TxExecutionStatus.none signed t in
          ended-Advances TxExecutionStatus.none j (handler_refused answer) signed t _ e
            (Async.after_call-Ends c signer receiver_id actions j (net.get_hash signed) answer
              (Replies.sent c signer receiver_id actions TxExecutionStatus.none signed t)).1)
