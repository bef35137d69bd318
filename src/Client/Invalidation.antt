-- ===== src/Client/Invalidation.antt =====
-- near-fetch/src/lib.rs: when a cached nonce is forgotten, and when not.
use near_fetch.Prelude.{
  List, [], ◌∷◌, none, ◌≡◌, refl, ◌≢◌, ◌⊎◌, inl, inr, ◌∙◌, Bool, true, false, ◌||◌, if◌then◌else◌,
  arith, lookup-remove_self, lookup-remove_ne, Bool-cases,
}
use near_fetch.Near.{Near, Except, value, error}
use near_fetch.Near.Errors.{JsonRpcError, TxExecutionError, RpcTransactionError}
use near_fetch.Near.Views.{RpcTransactionResponse}
use near_fetch.Effects.{CacheKey, cache_key_eq, Net, State}
use near_fetch.Client.{Client}
use near_fetch.Client.Errors.{
  fetch_tx_errs, is_nonce_error, is_invalid_nonce, invalidate_cache, invalidate_on,
  check_and_invalidate_cache,
}
use near_fetch.Client.Cache.{cached}
use near_fetch.Client.Rejection.{
  nonce_rejected, any_nonce_error, fetch_tx_errs_lem, is_invalid_nonce_lem,
}
use mathlib.Core.Path.{subst}

module _ ⦃near : Near⦄ ⦃net : Net⦄ (c : Client) (k : CacheKey) where
  -- What a call may change: the entry of the key, in the cache of the client.
  pub record Forgets (forget : Bool) (s t : State) : Type 0 where
    pub own : cached c k t ≡ (if forget then none else cached c k s)
    pub others :
        (q : Client) (j : CacheKey)
        → (q.access_key_nonces ≢ c.access_key_nonces) ⊎ (j ≢ k)
        → cached q j t ≡ cached q j s
    pub counters : t.counters ≡ s.counters
    pub trace : t.trace ≡ s.trace
    pub world : t.world ≡ s.world

  pub nothing-Forgets : (s : State) → Forgets false s s
  nothing-Forgets s = record {
    own = refl;
    others = λ q j other. refl;
    counters = refl;
    trace = refl;
    world = refl;
  }

  -- the cache after `invalidate_cache`
  pub invalidate_cache-Forgets : (s : State) → Forgets true s (invalidate_cache c k s).1
  unfolding invalidate_cache
  invalidate_cache-Forgets s = record {
    own = ground (arith, lookup-remove_self cache_key_eq k (s.nonces c.access_key_nonces));
    others = λ q j other.
        ground (arith, lookup-remove_ne cache_key_eq j k (s.nonces c.access_key_nonces));
    counters = refl;
    trace = refl;
    world = refl;
  }

  Forgets-trans :
      (a b : Bool) (s t u : State) → Forgets a s t → Forgets b t u → Forgets (a || b) s u
  Forgets-trans a b s t u first second = record {
    own = ground (arith, first.own, second.own);
    others = λ q j other. second.others q j other ∙ first.others q j other;
    counters = second.counters ∙ first.counters;
    trace = second.trace ∙ first.trace;
    world = second.world ∙ first.world;
  }

  invalidate_on-Forgets :
      (es : List TxExecutionError) (s : State)
      → Forgets (any_nonce_error es) s (invalidate_on c k es s).1
  unfolding invalidate_on invalidate_cache
  invalidate_on-Forgets [] s = nothing-Forgets s
  invalidate_on-Forgets (e ∷ es) s = elim (Bool-cases (is_nonce_error e)) [
    | inl wrong ↦ rw wrong (
        Forgets-trans true (any_nonce_error es) s (invalidate_cache c k s).1 _
          (invalidate_cache-Forgets s) (invalidate_on-Forgets es (invalidate_cache c k s).1))
    | inr fine ↦ rw fine (invalidate_on-Forgets es s)
  ]

  -- After the check, the key is gone from the cache exactly if the answer says that the nonce was
  -- wrong; no other entry, no counter and nothing of the network is touched.
  pub check_and_invalidate_cache-Forgets :
      (answer : Except (JsonRpcError RpcTransactionError) RpcTransactionResponse) (s : State)
      → Forgets (nonce_rejected answer) s (check_and_invalidate_cache c k answer s).1
  unfolding check_and_invalidate_cache
  check_and_invalidate_cache-Forgets (value response) s =
      subst (λ b. Forgets b s (invalidate_on c k (fetch_tx_errs response) s).1)
        (fetch_tx_errs_lem response) (invalidate_on-Forgets (fetch_tx_errs response) s)
  check_and_invalidate_cache-Forgets (error e) s =
      subst (λ b. Forgets b s (check_and_invalidate_cache c k (error e) s).1)
        (is_invalid_nonce_lem e)
        (elim (Bool-cases (is_invalid_nonce e)) [
          | inl wrong ↦ rw wrong (invalidate_cache-Forgets s)
          | inr fine ↦ rw fine (nothing-Forgets s)
        ])
