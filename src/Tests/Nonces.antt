-- ===== src/Tests/Nonces.antt =====
-- The nonce cache of near-fetch/src/lib.rs in the small world.
use near_fetch.Prelude.{ℕ, [], ◌∷◌, some, ◌≡◌, refl, inr, arith, ap, true, ℕ_discrete}
use near_fetch.Near.{error}
use near_fetch.Error.{ok}
use near_fetch.Effects.{State, CacheKey, cache_key_eq}
use near_fetch.Client.Nonce.{fetch_nonce, access_key, next_nonce}
use near_fetch.Client.Errors.{check_and_invalidate_cache}
use near_fetch.Client.Cache.{
  cached, with_nonce, fetch_nonce-hit, fetch_nonce-miss, fetch_nonce-others,
}
use near_fetch.Client.Sequence.{Above, issued, issued-Above}
use near_fetch.Client.Invalidation.{Forgets, check_and_invalidate_cache-Forgets}
use near_fetch.Tests.World.{
  small, small_net, client, fresh_state, warm_state, wrong_nonce, chain_key,
}

-- a first call asks the chain, and a second one the cache
first_and_second :
    issued client (1, 2) ((client, (1, 2)) ∷ (client, (1, 2)) ∷ []) fresh_state ≡ 8 ∷ 9 ∷ []
unfolding issued fetch_nonce cache_key_eq ℕ_discrete
first_and_second = refl

warm_cached : cached client (1, 2) warm_state ≡ some 41
unfolding cache_key_eq ℕ_discrete
warm_cached = refl

issued-Above_example :
    Above 41 (
      issued client (1, 2) ((client, (1, 2)) ∷ (client, (1, 3)) ∷ (client, (1, 2)) ∷ []) warm_state)
issued-Above_example =
    issued-Above client (1, 2) ((client, (1, 2)) ∷ (client, (1, 3)) ∷ (client, (1, 2)) ∷ []) 41
      warm_state warm_cached (omega arith)

fetch_nonce-hit_example :
    ((fetch_nonce client 1 2 warm_state).1.nonces
      ≡ with_nonce client (1, 2) (next_nonce 41) warm_state.nonces)
    × ((m : ℕ) (hash : ℕ) (height : ℕ)
        → (fetch_nonce client 1 2 warm_state).0 ≡ ok (m, hash, height)
        → m ≡ next_nonce 41)
fetch_nonce-hit_example = fetch_nonce-hit client 1 2 warm_state 41 warm_cached

abbrev after_key : State
after_key = (access_key client 1 2 fresh_state).1

fetch_nonce-miss_example : fetch_nonce client 1 2 fresh_state ≡ (
  ok (next_nonce 7, 5, 9),
  record after_key { nonces = with_nonce client (1, 2) (next_nonce 7) fresh_state.nonces },
)
unfolding access_key
fetch_nonce-miss_example = fetch_nonce-miss client 1 2 fresh_state after_key chain_key 5 9 refl refl

other_key : ¬ ◌≡◌ {A = CacheKey} (1, 3) (1, 2)
other_key e = absurd (omega (arith, ap (λ (k : CacheKey). k.1) e))

fetch_nonce-others_example :
    cached client (1, 3) (fetch_nonce client 1 2 warm_state).1 ≡ cached client (1, 3) warm_state
fetch_nonce-others_example = fetch_nonce-others client 1 2 warm_state client (1, 3) (inr other_key)

check_and_invalidate_cache-Forgets_example :
    Forgets client
      (1, 2)
      true
      warm_state
      (check_and_invalidate_cache client (1, 2) (error wrong_nonce) warm_state).1
check_and_invalidate_cache-Forgets_example =
    check_and_invalidate_cache-Forgets client (1, 2) (error wrong_nonce) warm_state
