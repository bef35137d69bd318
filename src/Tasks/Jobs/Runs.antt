-- ===== src/Tasks/Jobs/Runs.antt =====
-- near-fetch/src/lib.rs: the steps of a task that goes on for a while without others coming in
-- between.
use near_fetch.Prelude.{ℕ, ◌∷◌, none, some, ◌≡◌, refl, arith, lookup, inl}
use near_fetch.Near.{Near}
use near_fetch.Near.Requests.{SignedTransaction}
use near_fetch.Error.{ok}
use near_fetch.Signer.{expose_account_id}
use near_fetch.Effects.{Signer, CacheKey, cache_key_eq, Net, update}
use near_fetch.Client.Nonce.{next_nonce}
use near_fetch.Tasks as Tasks
use near_fetch.Tasks.{
  acquire_read, hit, miss, acquire_write, find_occupied, find_vacant, fetched, failed, viewed,
  viewed_occupied, cancelled, invalidate, Place, idle, looking, viewing, upgrading, entering,
  occupied, fetching, move, take,
}
use near_fetch.Tasks.Jobs.{
  actor, Step, Ticket, ticket, taking, holding, has_signer_id, ready, resting, asking, sending,
  Jobs, put, Work, account, public_key, sign_tx, fetch_nonce, fetch, signer_id, sign, send, current,
  has_account, has_cache_key, has_key, signed, rotated,
}

-- the cell that was written
pub update_self : {A : Type 0} (f : ℕ → A) (i : ℕ) (a : A) → update f i a i ≡ a
update_self f i a = ground arith

module _ ⦃near : Near⦄ where
  -- The task is at another place of `fetch_nonce`.
  abbrev pub at : ℕ → Place → Jobs → Jobs
  at i q s = record s { cache = move i q s.cache }

  -- It has asked for a nonce of its signer's key.
  abbrev pub after_asking : ℕ → CacheKey → Jobs → Jobs
  after_asking i k s =
      put i (asking k k)
        (put i (has_key k k.1) (put i (has_cache_key k) (put i (has_account k.0) s)))

  -- It waits for the access key of a key that the cache has no nonce for.
  abbrev pub waiting : ℕ → CacheKey → Jobs → Jobs
  waiting i k s = at i (fetching k) (at i (entering k) (at i (upgrading k) (at i (looking k) s)))

  -- The network has said that the last nonce is `m`.
  abbrev pub after_fetching : ℕ → CacheKey → CacheKey → ℕ → near.CryptoHash → Jobs → Jobs
  after_fetching i ck k m hash s =
      record (put i (holding ck (ticket k (next_nonce m) s) hash) (waiting i k s)) {
        cache = move i idle (Tasks.take k m (waiting i k s).cache);
      }

  -- It has taken the nonce after `n`, which the cache had.
  abbrev pub viewing_next : ℕ → CacheKey → ℕ → Jobs → Jobs
  viewing_next i k n s =
      let looks = at i (looking k) s in
      record (put i (taking k (ticket k (next_nonce n) s)) looks) {
        cache = move i (viewing k (next_nonce n)) (Tasks.take k n looks.cache);
      }

  abbrev pub after_hitting : ℕ → CacheKey → ℕ → near.CryptoHash → Jobs → Jobs
  after_hitting i k n hash s =
      let views = viewing_next i k n s in
      record (put i (holding k (ticket k (next_nonce n) s) hash) views) {
        cache = move i idle views.cache;
      }

  -- Who waits for the write guard keeps nobody out.
  pub still-IsFree :
      (i : ℕ) (k : CacheKey) (s : Jobs)
      → Tasks.IsFree s.cache
      → Tasks.IsFree (at i (upgrading k) (at i (looking k) s)).cache
  still-IsFree i k s free j = (ground (arith, free j), ground (arith, free j))

module _ ⦃near : Near⦄ ⦃net : Net⦄ (work : Work) where
  abbrev pub after_signing :
      ℕ → Signer → CacheKey → Ticket → near.CryptoHash → near.AccountId → Jobs → Jobs
  after_signing i x ck c hash id s =
      record (put i (ready ck c (signed work i x c hash id))
        (put i (has_signer_id ck c hash id) s)) { counters = rotated work i s }

  abbrev pub after_sending : ℕ → CacheKey → Ticket → SignedTransaction → Jobs → Jobs
  after_sending i ck c tx s = record (put i (sending ck) s) { sent = (c, tx) ∷ s.sent }

  -- `R` is anything that the steps of the task lead on from.
  module _ (R : Jobs → Type 0) (i : ℕ)
      (onward : (s t : Jobs) → R s → (st : Step work s t) → actor work st ≡ some i → R t) where
    unfoldable pub asking_run :
        (x : Signer) (id : near.AccountId) (s : Jobs)
        → s.stage i ≡ resting
        → current work i s ≡ ok x
        → expose_account_id x ≡ ok id
        → R s
        → R (after_asking i (id, net.public_key_of x) s)
    asking_run x id s rests now own r =
        let k : CacheKey = (id, net.public_key_of x) in
        let s1 : Jobs = put i (has_account id) s in
        let s2 : Jobs = put i (has_cache_key k) s1 in
        let s3 : Jobs = put i (has_key k k.1) s2 in
        let r1 = onward _ _ r (account i x id rests now own refl) refl in
        let r2 = onward s1 s2 r1 (public_key i x id (update_self s.stage i _) now refl) refl in
        let r3 = onward s2 s3 r2 (sign_tx i x k (update_self s1.stage i _) now refl) refl in
        onward _ _ r3 (fetch_nonce i x k k.1 id (update_self s2.stage i _) now own refl) refl

    unfoldable pub waiting_run :
        (ck k : CacheKey) (s : Jobs)
        → s.stage i ≡ asking ck k
        → s.cache.place i ≡ idle
        → Tasks.IsFree s.cache
        → lookup cache_key_eq k s.cache.nonces ≡ none
        → R s
        → R (waiting i k s)
    waiting_run ck k s asked out free absent r =
        let s1 : Jobs = at i (looking k) s in
        let s2 : Jobs = at i (upgrading k) s1 in
        let s3 : Jobs = at i (entering k) s2 in
        let r1 =
          onward s s1 r (fetch (acquire_read i k out (λ j. (free j).1) refl) (ck, asked, refl))
            refl in
        let r2 =
          onward s1 s2 r1 (fetch (miss i k (update_self s.cache.place i _) absent refl) refl)
            refl in
        let r3 =
          onward s2 s3 r2
            (fetch
              (acquire_write i k (update_self s1.cache.place i _) (still-IsFree i k s free) refl)
              refl)
            refl in
        onward _ _ r3 (fetch (find_vacant i k (update_self s2.cache.place i _) absent refl) refl)
          refl

    unfoldable pub fetching_run :
        (ck k : CacheKey) (m : ℕ) (hash : near.CryptoHash) (s : Jobs)
        → s.stage i ≡ asking ck k
        → s.cache.place i ≡ idle
        → Tasks.IsFree s.cache
        → lookup cache_key_eq k s.cache.nonces ≡ none
        → R s
        → R (after_fetching i ck k m hash s)
    unfolding waiting_run
    fetching_run ck k m hash s asked out free absent r =
        onward _ _ (waiting_run ck k s asked out free absent r)
          (fetch
            (fetched i k m
              (update_self (at i (entering k) (at i (upgrading k) (at i (looking k) s))).cache.place
                i _)
              refl)
            (ck, hash, asked, refl))
          refl

    unfoldable pub hitting_run :
        (k : CacheKey) (n : ℕ) (hash : near.CryptoHash) (s : Jobs)
        → s.stage i ≡ asking k k
        → s.cache.place i ≡ idle
        → Tasks.NoWriter s.cache
        → lookup cache_key_eq k s.cache.nonces ≡ some n
        → R s
        → R (after_hitting i k n hash s)
    hitting_run k n hash s asked out free found r =
        let s1 : Jobs = at i (looking k) s in
        let s2 : Jobs = viewing_next i k n s in
        let r1 = onward s s1 r (fetch (acquire_read i k out free refl) (k, asked, refl)) refl in
        let r2 =
          onward s1 s2 r1
            (fetch (hit i k n (update_self s.cache.place i _) found refl) (k, asked, refl)) refl in
        onward _ _ r2
          (fetch (viewed i k (next_nonce n) (update_self s1.cache.place i _) refl)
            (inl (k, s.epoch k, hash, update_self s.stage i _, refl)))
          refl

    unfoldable pub signing_run :
        (x : Signer) (ck : CacheKey) (c : Ticket) (hash : near.CryptoHash) (id : near.AccountId)
        (s : Jobs)
        → s.stage i ≡ holding ck c hash
        → current work i s ≡ ok x
        → expose_account_id x ≡ ok id
        → R s
        → R (after_signing i x ck c hash id s)
    signing_run x ck c hash id s has now own r =
        let r1 = onward _ _ r (signer_id i x ck c hash id has now own refl) refl in
        onward _ _ r1 (sign i x ck c hash id (update_self s.stage i _) now refl) refl

    unfoldable pub sending_run :
        (ck : CacheKey) (c : Ticket) (tx : SignedTransaction) (s : Jobs)
        → s.stage i ≡ ready ck c tx
        → R s
        → R (after_sending i ck c tx s)
    sending_run ck c tx s has r = onward _ _ r (send i ck c tx has refl) refl
