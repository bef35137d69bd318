-- ===== src/Client/Cache.antt =====
-- near-fetch/src/lib.rs: what `fetch_nonce` does to the cache of nonces, for one task.
use near_fetch.Prelude.{
  ℕ, Option, none, some, ◌≡◌, ◌≢◌, refl, ap, sym, ◌∙◌, arith, lookup, insert, lookup-insert_self,
  lookup-insert_ne, Option-cases, inl, inr, ◌⊎◌,
}
use near_fetch.Near.{Near}
use near_fetch.Near.Views.{AccessKeyView}
use near_fetch.Error.{Error, Result, ok, err, panic}
use near_fetch.Effects.{CacheKey, cache_key_eq, Nonces, Net, State, update, ◌>>=◌}
use near_fetch.Client.{Client}
use near_fetch.Client.Nonce.{
  next_nonce, access_key, cached_nonce, vacant_nonce, entry_nonce, lookup_nonce, fetch_nonce,
}
use near_fetch.Query.Methods.{view_block_query}
use near_fetch.Query.Views.{latest_block, view_block}
use near_fetch.Query.Send.{SameCells, into_future-SameCells}

module _ ⦃near : Near⦄ ⦃net : Net⦄ where
  open near use {AccountId, PublicKey, CryptoHash}

  -- the nonce that the cache of a client holds for a key
  abbrev pub cached : Client → CacheKey → State → Option ℕ
  cached c k s = lookup cache_key_eq k (s.nonces c.access_key_nonces)

  -- the caches, after `n` was written for a key
  abbrev pub with_nonce : Client → CacheKey → ℕ → (ℕ → Nonces) → ℕ → Nonces
  with_nonce c k n nonces =
      update nonces c.access_key_nonces (insert cache_key_eq k n (nonces c.access_key_nonces))

  latest_block-SameCells : (c : Client) (s : State) → SameCells s (latest_block c s).1
  unfolding latest_block
  latest_block-SameCells c s = into_future-SameCells view_block_query (view_block c) s

  cached_nonce-nonces :
      (c : Client) (k : CacheKey) (n : ℕ) (s : State)
      → (cached_nonce c k n s).1.nonces ≡ with_nonce c k (next_nonce n) s.nonces
  unfolding cached_nonce
  cached_nonce-nonces c k n s = ground (
    arith,
    latest_block-SameCells c (record s { nonces = with_nonce c k (next_nonce n) s.nonces }),
  )

  cached_nonce-counters :
      (c : Client) (k : CacheKey) (n : ℕ) (s : State)
      → (cached_nonce c k n s).1.counters ≡ s.counters
  unfolding cached_nonce
  cached_nonce-counters c k n s = ground (
    arith,
    latest_block-SameCells c (record s { nonces = with_nonce c k (next_nonce n) s.nonces }),
  )

  cached_nonce-value :
      (c : Client) (k : CacheKey) (n : ℕ) (s : State) {m : ℕ} {hash : CryptoHash} {height : ℕ}
      → (cached_nonce c k n s).0 ≡ ok (m, hash, height)
      → m ≡ next_nonce n
  unfolding cached_nonce
  cached_nonce-value c k n s e = ground arith

  access_key-SameCells :
      (c : Client) (account_id : AccountId) (public_key : PublicKey) (s : State)
      → SameCells s (access_key c account_id public_key s).1
  unfolding access_key
  access_key-SameCells c account_id public_key s = ground arith

  vacant_nonce-ok :
      (c : Client) (k : CacheKey) (s t : State) (key : AccessKeyView) (hash : CryptoHash)
      (height : ℕ)
      → access_key c k.0 k.1 s ≡ (ok (key, hash, height), t)
      → vacant_nonce c k s ≡ (
        ok (next_nonce key.nonce, hash, height),
        record t { nonces = with_nonce c k (next_nonce key.nonce) t.nonces },
      )
  unfolding vacant_nonce
  vacant_nonce-ok c k s t key hash height e = rw (e, ◌>>=◌) (rw e)

  vacant_nonce-counters :
      (c : Client) (k : CacheKey) (s : State) → (vacant_nonce c k s).1.counters ≡ s.counters
  unfolding vacant_nonce
  vacant_nonce-counters c k s = ground (arith, access_key-SameCells c k.0 k.1 s)

  module _ (c : Client) (account_id : AccountId) (public_key : PublicKey) (s : State) where
    abbrev pub key_of : CacheKey
    key_of = (account_id, public_key)

    pub fetch_nonce-eq-cached :
        (n : ℕ)
        → cached c key_of s ≡ some n
        → fetch_nonce c account_id public_key s ≡ cached_nonce c key_of n s
    unfolding fetch_nonce
    fetch_nonce-eq-cached n e = rw (e, lookup_nonce)

    pub fetch_nonce-eq-vacant :
        cached c key_of s ≡ none → fetch_nonce c account_id public_key s ≡ vacant_nonce c key_of s
    unfolding fetch_nonce
    fetch_nonce-eq-vacant e = rw (e, lookup_nonce) (rw (e, entry_nonce))

    -- the end of a call that wrote `n` over the caches `nonces`
    abbrev stored :
        State → ℕ → ℕ × CryptoHash × ℕ → (ℕ → Nonces) → Result (ℕ × CryptoHash × ℕ) × State
    stored t n issued nonces = (ok issued, record t { nonces = with_nonce c key_of n nonces })

    pub same_nonces :
        (t : State) (r : Result (AccessKeyView × CryptoHash × ℕ))
        → access_key c account_id public_key s ≡ (r, t)
        → t.nonces ≡ s.nonces
    same_nonces t r e =
        let final = ap (λ (p : Result (AccessKeyView × CryptoHash × ℕ) × State). p.1.nonces) e in
        sym final ∙ (access_key-SameCells c account_id public_key s).nonces

    -- If the key is cached at `n`, the cache holds the next nonce afterwards, whether the query of
    -- the latest block succeeds or not, and nothing else of any cache has changed; a nonce that is
    -- returned is that next nonce.
    pub fetch_nonce-hit :
        (n : ℕ)
        → cached c key_of s ≡ some n
        → ((fetch_nonce c account_id public_key s).1.nonces
            ≡ with_nonce c key_of (next_nonce n) s.nonces)
          × ((m : ℕ) (hash : CryptoHash) (height : ℕ)
              → (fetch_nonce c account_id public_key s).0 ≡ ok (m, hash, height)
              → m ≡ next_nonce n)
    fetch_nonce-hit n e =
        rw (fetch_nonce-eq-cached n e)
          (cached_nonce-nonces c key_of n s, λ m hash height. cached_nonce-value c key_of n s)

    -- If the key is not cached, the nonce is one above that of the access key on the chain, it is
    -- written to the cache, and no other request is sent.
    pub fetch_nonce-miss :
        (t : State) (key : AccessKeyView) (hash : CryptoHash) (height : ℕ)
        → cached c key_of s ≡ none
        → access_key c account_id public_key s ≡ (ok (key, hash, height), t)
        → fetch_nonce c account_id public_key s ≡ (
          ok (next_nonce key.nonce, hash, height),
          record t { nonces = with_nonce c key_of (next_nonce key.nonce) s.nonces },
        )
    fetch_nonce-miss t key hash height absent e =
        fetch_nonce-eq-vacant absent
        ∙ vacant_nonce-ok c key_of s t key hash height e
        ∙ ap (stored t (next_nonce key.nonce) (next_nonce key.nonce, hash, height))
            (same_nonces t (ok (key, hash, height)) e)

    -- If the query of the access key fails, its error is returned and no cache has changed.
    pub fetch_nonce-miss_error :
        (t : State) (e : Error)
        → cached c key_of s ≡ none
        → access_key c account_id public_key s ≡ (err e, t)
        → fetch_nonce c account_id public_key s ≡ (err e, t) × (t.nonces ≡ s.nonces)
    unfolding vacant_nonce
    fetch_nonce-miss_error t e absent failed = (
      rw (fetch_nonce-eq-vacant absent) (rw (failed, ◌>>=◌) (rw failed)),
      same_nonces t (err e) failed,
    )

    -- What a call may do to the caches: write one nonce, which is the nonce that it issues if it
    -- issues one, or, where it issues none, nothing.
    abbrev pub NonceEffect : Result (ℕ × CryptoHash × ℕ) × State → Type 0
    NonceEffect (r, t) =
        ((n : ℕ) × (t.nonces ≡ with_nonce c key_of n s.nonces)
          × ((m : ℕ) (hash : CryptoHash) (height : ℕ) → r ≡ ok (m, hash, height) → m ≡ n))
        ⊎ ((t.nonces ≡ s.nonces)
            × ((m : ℕ) (hash : CryptoHash) (height : ℕ) → ¬ (r ≡ ok (m, hash, height))))

    vacant_nonce-effect :
        (p : Result (AccessKeyView × CryptoHash × ℕ) × State)
        → access_key c account_id public_key s ≡ p
        → NonceEffect (vacant_nonce c key_of s)
    unfolding vacant_nonce
    vacant_nonce-effect (ok (key, hash, height), t) e =
        rw (e, ◌>>=◌)
          (rw e (
            inl (
              next_nonce key.nonce,
              ap (with_nonce c key_of (next_nonce key.nonce))
                  (same_nonces t (ok (key, hash, height)) e),
              λ m hash' height' issued. ground arith,
            )))
    vacant_nonce-effect (err e, t) failed =
        rw (failed, ◌>>=◌) (rw failed (inr (same_nonces t (err e) failed, λ m hash height i. cc)))
    vacant_nonce-effect (panic, t) failed =
        rw (failed, ◌>>=◌) (rw failed (inr (same_nonces t panic failed, λ m hash height i. cc)))

    pub fetch_nonce-effect : NonceEffect (fetch_nonce c account_id public_key s)
    fetch_nonce-effect = elim (Option-cases (cached c key_of s)) [
      | inl absent ↦ rw (fetch_nonce-eq-vacant absent) (vacant_nonce-effect _ refl)
      | inr (n, e) ↦ let (wrote, issued) = fetch_nonce-hit n e in inl (next_nonce n, wrote, issued)
    ]

    cached_nonce-others :
        (q : Client) (k : CacheKey) (n : ℕ)
        → (q.access_key_nonces ≢ c.access_key_nonces) ⊎ (k ≢ key_of)
        → lookup cache_key_eq k (with_nonce c key_of n s.nonces q.access_key_nonces) ≡ cached q k s
    cached_nonce-others q k n other =
        ground (arith, lookup-insert_ne cache_key_eq k key_of n (s.nonces c.access_key_nonces))

    -- A call leaves the other keys of this cache alone, and the caches of clients that were not
    -- cloned from the same client.
    pub fetch_nonce-others :
        (q : Client) (k : CacheKey)
        → (q.access_key_nonces ≢ c.access_key_nonces) ⊎ (k ≢ key_of)
        → cached q k (fetch_nonce c account_id public_key s).1 ≡ cached q k s
    fetch_nonce-others q k other = elim fetch_nonce-effect [
      | inl (n, wrote, _) ↦ rw wrote (cached_nonce-others q k n other)
      | inr (kept, _) ↦ rw kept
    ]

    -- A nonce that is issued is the one that the cache holds afterwards.
    pub fetch_nonce-cached :
        (m : ℕ) (hash : CryptoHash) (height : ℕ)
        → (fetch_nonce c account_id public_key s).0 ≡ ok (m, hash, height)
        → cached c key_of (fetch_nonce c account_id public_key s).1 ≡ some m
    fetch_nonce-cached m hash height e = elim fetch_nonce-effect [
      | inl (n, wrote, issued) ↦
          rw (wrote, issued m hash height e)
            (ground
              (arith, lookup-insert_self cache_key_eq key_of n (s.nonces c.access_key_nonces)))
      | inr (_, nothing) ↦ absurd (nothing m hash height e)
    ]

    -- A call moves no counter of a signer.
    pub fetch_nonce-counters : (fetch_nonce c account_id public_key s).1.counters ≡ s.counters
    fetch_nonce-counters = elim (Option-cases (cached c key_of s)) [
      | inl absent ↦ rw (fetch_nonce-eq-vacant absent) (vacant_nonce-counters c key_of s)
      | inr (n, e) ↦ rw (fetch_nonce-eq-cached n e) (cached_nonce-counters c key_of n s)
    ]
