-- ===== src/Client/Rising.antt =====
-- near-fetch/src/lib.rs: `send_tx_once` and `send_tx_async` one after the other, by any signers and
-- by clients that share a cache.
use near_fetch.Prelude.{
  ℕ, ◌+◌, ◌^◌, ◌<◌, List, [], ◌∷◌, ◌++◌, Bool, Option, none, some, ◌≡◌, ◌≢◌, ◌⊎◌, refl, sym, ◌∙◌,
  ap, arith, inl, inr, All, length, Option-cases,
}
use mathlib.Core.Path.{subst}
use mathlib.Core.List.{append_assoc}
use near_fetch.Near.{Near}
use near_fetch.Near.Views.{TxExecutionStatus}
use near_fetch.Near.Requests.{Action}
use near_fetch.Effects.{CacheKey, Event, Net, State}
use near_fetch.Signer.{SignerExt}
use near_fetch.Signer.Lawful.{IsLawful}
use near_fetch.Client.{Client}
use near_fetch.Client.Send.{send_tx_once, send_tx_async}
use near_fetch.Client.Cache.{cached}
use near_fetch.Client.Sequence.{Above, Above-weaken}
use near_fetch.Client.Log.{sent_for, sent_for-append}
use near_fetch.Client.Advances.{Advances, send_tx_once-Advances, send_tx_async-Advances}

-- A call of `send_tx_async`, or of `send_tx_once`, which waits for a status.
pub record Sending ⦃near : Near⦄ ⦃net : Net⦄ : Type 0 where
  pub client : Client
  pub signer : SignerExt
  pub receiver_id : near.AccountId
  pub actions : List Action
  pub waits : Option TxExecutionStatus

module _ ⦃near : Near⦄ ⦃net : Net⦄ where
  -- the state after a call, whatever it returns
  abbrev pub perform : Sending → State → State
  perform o s = elim o.waits [
    | none ↦ (send_tx_async o.client o.signer o.receiver_id o.actions s).1
    | some wait_until ↦ (send_tx_once o.client o.signer o.receiver_id o.actions wait_until s).1
  ]

  abbrev pub perform_all : List Sending → State → State
  perform_all [] s = s
  perform_all (o ∷ os) s = perform_all os (perform o s)

  module _ (verify : near.PublicKey → List ℕ → near.Signature → Bool) (c : Client)
      (k : CacheKey) where
    -- The client shares the cache, and the signer keeps its contract.
    abbrev pub IsOwn : Sending → Type 0
    IsOwn o = (o.client.access_key_nonces ≡ c.access_key_nonces) × IsLawful verify o.signer

    -- The cache has the key before each call.
    abbrev pub IsKnown : List Sending → State → Type 0
    IsKnown [] s = Unit
    IsKnown (o ∷ os) s = (cached c k s ≢ none) × IsKnown os (perform o s)

    -- The log has grown, and the nonces of the key in what it has gained are above `n` and rising.
    abbrev pub Rises : ℕ → State → State → Type 0
    Rises n s t =
        (events : List Event) × (t.trace ≡ events ++ s.trace) × Above n (sent_for k events)

    perform-Advances :
        (o : Sending) (n : ℕ) (small : n + 1 < 2 ^ 64) (s : State)
        → IsLawful verify o.signer
        → (held : cached o.client k s ≡ some n) → Advances o.client k n small s held (perform o s)
    perform-Advances o n small s lawful held = by_kind o.waits
      where
        by_kind :
            (w : Option TxExecutionStatus)
            → Advances o.client k n small s held (perform (record o { waits = w }) s)
        by_kind none =
            send_tx_async-Advances o.client k n small s held lawful o.receiver_id o.actions
        by_kind (some st) =
            send_tx_once-Advances o.client k n small s held lawful o.receiver_id o.actions st

    Above-join :
        (n m : ℕ) (es fs : List Event)
        → (sent_for k es ≡ []) ⊎ (sent_for k es ≡ (n + 1) ∷ [])
        → ((m ≡ n) × (sent_for k es ≡ [])) ⊎ (m ≡ n + 1)
        → Above m (sent_for k fs)
        → Above n (sent_for k (fs ++ es))
    Above-join n m es fs sends (inl (same, nothing)) above =
        rw (sent_for-append k fs es, nothing) (subst (λ x. Above x (sent_for k fs)) same above)
    Above-join n m es fs (inl nothing) (inr raised) above =
        rw (sent_for-append k fs es, nothing)
          (Above-weaken n (sent_for k fs) (subst (λ x. Above x (sent_for k fs)) raised above))
    Above-join n m es fs (inr one) (inr raised) above =
        rw (sent_for-append k fs es, one)
          (omega arith, subst (λ x. Above x (sent_for k fs)) raised above)

    Above-last :
        (n : ℕ) (es : List Event)
        → (sent_for k es ≡ []) ⊎ (sent_for k es ≡ (n + 1) ∷ [])
        → Above n (sent_for k es)
    Above-last n es (inl nothing) = rw nothing tt
    Above-last n es (inr one) = rw one (omega arith, tt)

    -- The call after which the key is not cached any more is the last one.
    last-Rises :
        (os : List Sending) (n : ℕ) (s t : State)
        → IsKnown os t
        → cached c k t ≡ none
        → Rises n s t
        → Rises n s (perform_all os t)
    last-Rises [] n s t known gone rises = rises
    last-Rises (o ∷ os) n s t known gone rises = absurd (known.0 gone)

    -- However many calls of `send_tx_once` and `send_tx_async` are made one after the other, by
    -- whichever clones of a client and whichever signers, and whatever the network answers: as long
    -- as the cache has a key before each of the calls, the transactions that the log of requests has
    -- gained for this key carry strictly rising nonces above the cached one, if the signers keep
    -- their contract and the counter does not reach the end of `u64`.
    pub perform_all-Rises :
        (os : List Sending) (n : ℕ) (s : State)
        → All IsOwn os
        → cached c k s ≡ some n
        → IsKnown os s
        → n + length os < 2 ^ 64
        → Rises n s (perform_all os s)
    unfolding sent_for
    perform_all-Rises [] n s own held known small = ([], refl, tt)
    perform_all-Rises (o ∷ os) n s ((shares, lawful), owns) held (_, known) small =
        let same : (u : State) → cached o.client k u ≡ cached c k u = λ u. rw shares in
        let first = perform-Advances o n (omega (arith, small)) s lawful (same s ∙ held) in
        elim (Option-cases (cached c k (perform o s))) [
          | inl gone ↦
              last-Rises os n s (perform o s) known gone
                (first.events, first.traced, Above-last n first.events first.sends)
          | inr (m, e) ↦
              let step = first.rest m (same (perform o s) ∙ e) in
              let (events, traced, above) =
                perform_all-Rises os m (perform o s) owns e known (ground (arith, small, step)) in
              (
                events ++ first.events,
                traced ∙ ap (◌++◌ events) first.traced ∙ sym (append_assoc events first.events _),
                Above-join n m first.events events first.sends step above,
              )
        ]
