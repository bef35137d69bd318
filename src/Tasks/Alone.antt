-- ===== src/Tasks/Alone.antt =====
-- near-fetch/src/lib.rs: `fetch_nonce` as one task runs it alone, against its steps among others.
use near_fetch.Prelude.{
  ℕ, ◌∷◌, Option, none, some, ◌≡◌, ◌≢◌, refl, ◌∙◌, ap, arith, inl, inr, Option-cases, lookup,
}
use near_fetch.Near.{Near}
use near_fetch.Near.Views.{AccessKeyView}
use near_fetch.Error.{Result, ok, err, panic}
use near_fetch.Effects.{CacheKey, cache_key_eq, Net, State, ◌>>=◌}
use near_fetch.Client.{Client}
use near_fetch.Client.Nonce.{next_nonce, access_key, vacant_nonce, fetch_nonce}
use near_fetch.Client.Cache.{
  cached, fetch_nonce-hit, fetch_nonce-miss, fetch_nonce-eq-vacant, same_nonces,
}
use near_fetch.Tasks.{
  idle, looking, viewing, upgrading, entering, fetching, System, IsFree, move, take, Step, actor,
  NoWriter, cancelled, acquire_read, hit, miss, acquire_write, find_vacant, fetched, failed, viewed,
}

module _ ⦃near : Near⦄ where
  -- The task that goes on inside its call of `fetch_nonce`; none where a call begins or is dropped.
  abbrev pub insider : {s t : System} → Step s t → Option ℕ
  insider (acquire_read _ _ _ _ _) = none
  insider (cancelled _ _ _ _) = none
  insider st = actor st

  -- One call of the task `i` for the key `k`, from its first step on, with no step of another task
  -- in between.
  pub data Steps (i : ℕ) (k : CacheKey) : System → System → Type 0 where
    enters : {s : System} → s.place i ≡ idle → NoWriter s → Steps i k s (move i (looking k) s)
    goes_on :
        {s t u : System} → Steps i k s t → (st : Step t u) → insider st ≡ some i → Steps i k s u

  module _ (i : ℕ) (k : CacheKey) (s : System) (free : IsFree s) (rest : s.place i ≡ idle) where
    -- The task hits the cache, and the answer to `view_block` has come.
    abbrev after_hit : ℕ → System
    after_hit n = move i idle (move i (viewing k (next_nonce n)) (take k n (move i (looking k) s)))

    hit-Steps : (n : ℕ) → lookup cache_key_eq k s.nonces ≡ some n → Steps i k s (after_hit n)
    hit-Steps n found =
        let begun : Steps i k s (move i (looking k) s) = enters rest (λ j. (free j).1) in
        goes_on (goes_on begun (hit i k n (ground arith) found refl) refl)
          (viewed i k (next_nonce n) (ground arith) refl) refl

    -- The task misses the cache, and waits for the access key.
    abbrev waiting : System
    waiting =
        move i (fetching k) (move i (entering k) (move i (upgrading k) (move i (looking k) s)))

    miss-Steps : lookup cache_key_eq k s.nonces ≡ none → Steps i k s waiting
    miss-Steps absent =
        let begun : Steps i k s (move i (looking k) s) = enters rest (λ j. (free j).1) in
        let missed = goes_on begun (miss i k (ground arith) absent refl) refl in
        let entered =
          goes_on missed
            (acquire_write i k (ground arith)
              (λ j. (ground (arith, free j), ground (arith, free j))) refl)
            refl in
        goes_on entered (find_vacant i k (ground arith) absent refl) refl

module _ ⦃near : Near⦄ ⦃net : Net⦄ (c : Client) (k : CacheKey) (σ : State) where
  abbrev Answered : Type 0
  Answered = Result (AccessKeyView × near.CryptoHash × ℕ) × State

  module _ (i : ℕ) (s : System) where
    -- One whole call of the task leads to the cache that the call leaves, with the task idle again
    -- and the others where they were; a nonce that the call returns is the one issued on the way, and
    -- a cached nonce is used up.
    pub record Simulates (p : Result (ℕ × near.CryptoHash × ℕ) × State) : Type 0 where
      pub end : System
      pub steps : Steps i k s end
      pub nonces : end.nonces ≡ p.1.nonces c.access_key_nonces
      pub idles : end.place i ≡ idle
      pub others : (j : ℕ) → j ≢ i → end.place j ≡ s.place j
      pub took :
          (n : ℕ)
          → lookup cache_key_eq k s.nonces ≡ some n
          → end.issued ≡ (k, next_nonce n) ∷ s.issued
      pub issues :
          (m : ℕ) (hash : near.CryptoHash) (height : ℕ)
          → p.0 ≡ ok (m, hash, height)
          → end.issued ≡ (k, m) ∷ s.issued

    module _ (same : s.nonces ≡ σ.nonces c.access_key_nonces) (free : IsFree s)
        (rest : s.place i ≡ idle) where
      hit-Simulates : (n : ℕ) → cached c k σ ≡ some n → Simulates (fetch_nonce c k.0 k.1 σ)
      hit-Simulates n found =
          let (wrote, new) = fetch_nonce-hit c k.0 k.1 σ n found in
          record {
            end = after_hit i k s free rest n;
            steps = hit-Steps i k s free rest n (ap (lookup cache_key_eq k) same ∙ found);
            nonces = rw wrote (ground (arith, same));
            idles = ground arith;
            others = λ j other. ground (arith, other);
            took = λ x had. ground (arith, same, found, had);
            issues = λ m hash height e. ground (arith, new m hash height e);
          }

      miss-Simulates :
          (p : Answered)
          → cached c k σ ≡ none
          → access_key c k.0 k.1 σ ≡ p
          → Simulates (fetch_nonce c k.0 k.1 σ)
      unfolding vacant_nonce
      miss-Simulates (ok (key, hash, height), u) absent e =
          rw (fetch_nonce-miss c k.0 k.1 σ u key hash height absent e) (record {
            end = move i idle (take k key.nonce (waiting i k s free rest));
            steps =
                goes_on (miss-Steps i k s free rest (ap (lookup cache_key_eq k) same ∙ absent))
                  (fetched i k key.nonce (ground arith) refl) refl;
            nonces = ground (arith, same);
            idles = ground arith;
            others = λ j other. ground (arith, other);
            took = λ x had. ground (arith, same, absent, had);
            issues = λ m h l q. ground arith;
          })
      miss-Simulates (err f, u) absent e = rw (fetch_nonce-eq-vacant c k.0 k.1 σ absent) (
          rw (e, ◌>>=◌)
            (rw e (record {
              end = move i idle (waiting i k s free rest);
              steps =
                  goes_on (miss-Steps i k s free rest (ap (lookup cache_key_eq k) same ∙ absent))
                    (failed i k (ground arith) refl) refl;
              nonces = ground (arith, same, same_nonces c k.0 k.1 σ u (err f) e);
              idles = ground arith;
              others = λ j other. ground (arith, other);
              took = λ x had. ground (arith, same, absent, had);
              issues = λ m h l q. absurd (ground arith);
            })))
      miss-Simulates (panic, u) absent e = rw (fetch_nonce-eq-vacant c k.0 k.1 σ absent) (
          rw (e, ◌>>=◌)
            (rw e (record {
              end = move i idle (waiting i k s free rest);
              steps =
                  goes_on (miss-Steps i k s free rest (ap (lookup cache_key_eq k) same ∙ absent))
                    (failed i k (ground arith) refl) refl;
              nonces = ground (arith, same, same_nonces c k.0 k.1 σ u panic e);
              idles = ground arith;
              others = λ j other. ground (arith, other);
              took = λ x had. ground (arith, same, absent, had);
              issues = λ m h l q. absurd (ground arith);
            })))

      -- A call of `fetch_nonce` that no other task interrupts is a run of the steps of its task, from
      -- the beginning of one call to its end, if it starts where no task has a guard: the run leads
      -- to the cache that the call leaves, issues the nonce that the call returns, takes the nonce
      -- after a cached one even where the call fails, and leaves every other task where it was.
      pub fetch_nonce-Simulates : Simulates (fetch_nonce c k.0 k.1 σ)
      fetch_nonce-Simulates = elim (Option-cases (cached c k σ)) [
        | inl absent ↦ miss-Simulates _ absent refl
        | inr (n, found) ↦ hit-Simulates n found
      ]
