-- ===== src/Client/Log.antt =====
-- near-fetch/src/lib.rs: which transactions of a key the log of requests has, and that `fetch_nonce`
-- sends none.
use near_fetch.Prelude.{
  ℕ, List, [], ◌∷◌, ◌++◌, Bool, ◌≡◌, refl, sym, ◌∙◌, arith, inl, inr, Option-cases, holds,
  if◌then◌else◌,
}
use mathlib.Core.List.{append-nil, append_assoc}
use near_fetch.Near.{Near}
use near_fetch.Near.Requests.{Method, QueryRequest, finality, Finality, SignedTransaction}
use near_fetch.Effects.{CacheKey, cache_key_eq, Event, called, Net, State}
use near_fetch.Query.Methods.{view_block_query}
use near_fetch.Query.Views.{latest_block, view_block}
use near_fetch.Query.Send.{into_future-after_request}
use near_fetch.Client.{Client}
use near_fetch.Client.Nonce.{next_nonce, access_key, cached_nonce, vacant_nonce, fetch_nonce}
use near_fetch.Client.Cache.{cached, with_nonce, fetch_nonce-eq-cached, fetch_nonce-eq-vacant}

module _ ⦃near : Near⦄ (k : CacheKey) where
  -- the transaction carries this account and this key
  abbrev pub is_for : SignedTransaction → Bool
  is_for tx = holds (cache_key_eq (tx.transaction.signer_id, tx.transaction.public_key) k)

  abbrev pub nonces_in : Event → List ℕ
  nonces_in (called Method.send_tx _ r) =
      if is_for r.signed_transaction then r.signed_transaction.transaction.nonce ∷ [] else []
  nonces_in _ = []

  -- The nonces of the transactions that were sent for the key, in the order of their sending; a log
  -- has its latest entry first.
  unfoldable pub sent_for : List Event → List ℕ
  sent_for [] = []
  sent_for (e ∷ es) = sent_for es ++ nonces_in e

  pub sent_for-append : (es fs : List Event) → sent_for (es ++ fs) ≡ sent_for fs ++ sent_for es
  unfolding sent_for
  sent_for-append [] fs = sym (append-nil (sent_for fs))
  sent_for-append (e ∷ es) fs = rw (sent_for-append es fs, append_assoc)

module _ ⦃near : Near⦄ ⦃net : Net⦄ (k : CacheKey) where
  -- Nothing was sent for the key.
  pub record IsSilent (s t : State) : Type 0 where
    pub events : List Event
    pub traced : t.trace ≡ events ++ s.trace
    pub silent : sent_for k events ≡ []

  pub refl-IsSilent : (s : State) → IsSilent s s
  unfolding sent_for
  refl-IsSilent s = record { events = []; traced = refl; silent = refl }

  pub trace-IsSilent : (s t u : State) → u.trace ≡ t.trace → IsSilent s t → IsSilent s u
  trace-IsSilent s t u e silent = record {
    events = silent.events;
    traced = e ∙ silent.traced;
    silent = silent.silent;
  }

  latest_block-IsSilent : (c : Client) (s : State) → IsSilent s (latest_block c s).1
  unfolding latest_block view_block sent_for
  latest_block-IsSilent c s =
      rw (into_future-after_request view_block_query (view_block c) s)
        (record { events = _ ∷ []; traced = refl; silent = refl })

  access_key-IsSilent :
      (c : Client) (j : CacheKey) (s : State) → IsSilent s (access_key c j.0 j.1 s).1
  unfolding access_key sent_for
  access_key-IsSilent c j s = record {
    events =
        called Method.query c.rpc_client (record {
          block_reference = finality Finality.none;
          request = QueryRequest.view_access_key j.0 j.1;
        })
        ∷ [];
    traced = ground arith;
    silent = refl;
  }

  cached_nonce-IsSilent :
      (c : Client) (j : CacheKey) (n : ℕ) (s : State) → IsSilent s (cached_nonce c j n s).1
  unfolding cached_nonce
  cached_nonce-IsSilent c j n s =
      let t = record s { nonces = with_nonce c j (next_nonce n) s.nonces } in
      let block = latest_block-IsSilent c t in
      trace-IsSilent s (latest_block c t).1 (cached_nonce c j n s).1 (ground arith)
        (record { events = block.events; traced = block.traced; silent = block.silent })

  vacant_nonce-IsSilent :
      (c : Client) (j : CacheKey) (s : State) → IsSilent s (vacant_nonce c j s).1
  unfolding vacant_nonce
  vacant_nonce-IsSilent c j s =
      trace-IsSilent s (access_key c j.0 j.1 s).1 (vacant_nonce c j s).1 (ground arith)
        (access_key-IsSilent c j s)

  pub fetch_nonce-IsSilent :
      (c : Client) (j : CacheKey) (s : State) → IsSilent s (fetch_nonce c j.0 j.1 s).1
  fetch_nonce-IsSilent c j s = elim (Option-cases (cached c j s)) [
    | inl missing ↦ rw (fetch_nonce-eq-vacant c j.0 j.1 s missing) (vacant_nonce-IsSilent c j s)
    | inr (n, found) ↦
        rw (fetch_nonce-eq-cached c j.0 j.1 s n found) (cached_nonce-IsSilent c j n s)
  ]
