-- ===== src/Tasks/Jobs/Misplaced.antt =====
-- near-fetch/src/lib.rs: `send_tx_once` asks the signer for the key of the cache entry, and `sign_tx`
-- asks it again for the key of the transaction. Here a task that shares a `KeyRotatingSigner` signs in
-- between.
use near_fetch.Prelude.{
  ℕ, List, [], ◌∷◌, ◌≡◌, ◌≢◌, refl, arith, Option, none, some, ap, sym, lookup, lookup-insert_self,
  lookup-insert_ne, lookup-remove_self, lookup-remove_ne, ◌∙◌, ◌<◌, ◌^◌, ◌+◌,
}
use near_fetch.Near.{Near}
use near_fetch.Near.Requests.{SignedTransaction, Action}
use near_fetch.Error.{ok}
use near_fetch.Signer.{expose_account_id}
use near_fetch.Effects.{Signer, CacheKey, cache_key_eq, Net}
use near_fetch.Client.Nonce.{next_nonce}
use near_fetch.Tasks as Tasks
use near_fetch.Tasks.{forgotten}
use near_fetch.Tasks.Jobs.Runs.{
  after_asking, after_fetching, after_signing, after_sending, asking_run, waiting_run, fetching_run,
  signing_run, sending_run,
}
use near_fetch.Tasks.Jobs.Crossed.{shared, Reached, onward}
use near_fetch.Tasks.Jobs.{
  IsWithin, Step, Ticket, ticket, Jobs, Work, Reach, here, signed, start, put, has_account,
  has_cache_key, has_key, asking, sending, account, public_key, sign_tx, fetch_nonce, refused, bump,
}

module _ ⦃near : Near⦄ ⦃net : Net⦄ (receiver_id : ℕ → near.AccountId) (actions : ℕ → List Action)
    (a b : Signer) (id : near.AccountId) where
  abbrev work : Work
  work = shared receiver_id actions a b id

  abbrev pub first_key : CacheKey
  first_key = (id, net.public_key_of a)

  abbrev pub second_key : CacheKey
  second_key = (id, net.public_key_of b)

  -- The task whose transaction is refused in the step for its nonce, and the key that the cache
  -- forgets for it.
  abbrev pub refusal : {s t : Jobs} → Step work s t → Option (ℕ × CacheKey)
  refusal (refused i ck _ _ _ _) = some (i, ck)
  refusal _ = none

  -- The task 0 has sent its only transaction, for the second key, and the network may refuse its
  -- nonce: then the cache forgets the first key, which it had, and keeps the second one's.
  pub record IsMisplaced (s : Jobs) : Type 0 where
    pub c : Ticket
    pub tx : SignedTransaction
    pub only : s.sent ≡ (c, tx) ∷ []
    pub key : tx.transaction.public_key ≡ net.public_key_of b
    pub signature : tx.signature ≡ net.sign_with b (net.hash_bytes tx.transaction)
    pub waits : s.stage 0 ≡ sending first_key
    pub had : ℕ
    pub cached : lookup cache_key_eq first_key s.cache.nonces ≡ some had
    pub after : Jobs
    pub step : Step work s after
    pub refuses : refusal step ≡ some (0, first_key)
    pub lost : lookup cache_key_eq first_key after.cache.nonces ≡ none
    pub kept : lookup cache_key_eq second_key after.cache.nonces ≡ some tx.transaction.nonce

  module _ (own_a : expose_account_id a ≡ ok id) (own_b : expose_account_id b ≡ ok id)
      (other : net.public_key_of b ≢ net.public_key_of a) (m : ℕ) (hash : near.CryptoHash) where
    -- the task 0 has the first key for its cache entry
    abbrev named : Jobs
    named = put 0 (has_cache_key first_key) (put 0 (has_account id) (start work (λ c. 0)))

    -- the task 1 has signed
    abbrev fetched_first : Jobs
    fetched_first = after_fetching 1 first_key first_key m hash (after_asking 1 first_key named)

    abbrev turned : Jobs
    turned =
        after_signing work 1 a first_key (ticket first_key (next_nonce m) named) hash id
          fetched_first

    -- the task 0 goes on with the second key
    abbrev asked : Jobs
    asked =
        put 0 (asking first_key second_key) (put 0 (has_key first_key (net.public_key_of b)) turned)

    abbrev fetched_second : Jobs
    fetched_second = after_fetching 0 first_key second_key m hash asked

    abbrev second : Ticket
    second = ticket second_key (next_nonce m) asked

    abbrev pub one_sent : Jobs
    one_sent =
        after_sending work 0 first_key second (signed work 0 b second hash id)
          (after_signing work 0 b first_key second hash id fetched_second)

    different : second_key ≢ first_key
    different e = other (ap (λ (k : CacheKey). k.1) e)

    unfoldable turned_reach : Reach work turned
    turned_reach =
        let r1 =
          onward receiver_id actions a b id 0 _ _ (here (λ c. 0))
            (account 0 a id refl refl own_a refl) refl in
        let r2 =
          onward receiver_id actions a b id 0 _ named r1 (public_key 0 a id refl refl refl) refl in
        signing_run work (Reach work) 1 (onward receiver_id actions a b id 1) a first_key
          (ticket first_key (next_nonce m) named) hash id fetched_first refl refl own_a
          (fetching_run work (Reach work) 1 (onward receiver_id actions a b id 1) first_key
            first_key m hash (after_asking 1 first_key named) refl refl (λ j. (refl, refl)) refl
            (asking_run work (Reach work) 1 (onward receiver_id actions a b id 1) a id named refl
              refl own_a r2))

    asked-IsFree : Tasks.IsFree asked.cache
    asked-IsFree j = (ground arith, ground arith)

    unfoldable one_sent_reach : Reach work one_sent
    unfolding turned_reach
    one_sent_reach =
        let r1 =
          onward receiver_id actions a b id 0 turned _ turned_reach
            (sign_tx 0 b first_key refl refl refl) refl in
        let r2 =
          onward receiver_id actions a b id 0 _ asked r1
            (fetch_nonce 0 b first_key (net.public_key_of b) id refl refl own_b refl) refl in
        sending_run work (Reach work) 0 (onward receiver_id actions a b id 0) first_key second
          (signed work 0 b second hash id)
          (after_signing work 0 b first_key second hash id fetched_second) refl
          (signing_run work (Reach work) 0 (onward receiver_id actions a b id 0) b first_key second
            hash id fetched_second refl refl own_b
            (fetching_run work (Reach work) 0 (onward receiver_id actions a b id 0) first_key
              second_key m hash asked refl refl asked-IsFree
              (lookup-insert_ne cache_key_eq second_key first_key (next_nonce m) [] different) r2))

    turned-IsWithin : m + 1 < 2 ^ 64 → IsWithin work turned_reach
    unfolding turned_reach asking_run waiting_run fetching_run signing_run onward
    turned-IsWithin small =
        (((((((((((((tt, tt), tt), tt), tt), tt), tt), tt), tt), tt), tt), omega arith), tt), tt)

    one_sent-IsWithin : m + 1 < 2 ^ 64 → IsWithin work one_sent_reach
    unfolding one_sent_reach waiting_run fetching_run signing_run sending_run onward
    one_sent-IsWithin small =
        ((((((((((turned-IsWithin small, tt), tt), tt), tt), tt), tt), omega arith), tt), tt), tt)

    one_sent-IsFree : Tasks.IsFree one_sent.cache
    one_sent-IsFree j = (ground arith, ground arith)

    -- `check_and_invalidate_cache`
    abbrev refused_once : Jobs
    refused_once = record one_sent {
      cache = forgotten first_key one_sent.cache;
      epoch = bump first_key one_sent.epoch;
    }

    -- Two tasks that share a `KeyRotatingSigner` of two signers of one account with different keys
    -- can come to where the one has sent a transaction with the key of the second signer, rightly
    -- signed, and the refusal of its nonce makes the cache forget the nonce of the first signer's
    -- key and keep the refused one, whichever nonce below 2^64 - 1 the network answered with: the
    -- other task may sign between the two calls of `public_key`, in `send_tx_once` and in `sign_tx`.
    pub one_sent-IsMisplaced :
        m + 1 < 2 ^ 64 → (s : Jobs) × Reached receiver_id actions a b id s × IsMisplaced s
    one_sent-IsMisplaced small = (
      one_sent,
      (one_sent_reach, one_sent-IsWithin small),
      record {
        c = second;
        tx = signed work 0 b second hash id;
        only = refl;
        key = refl;
        signature = refl;
        waits = refl;
        had = next_nonce m;
        cached =
            lookup-insert_ne cache_key_eq first_key second_key (next_nonce m) turned.cache.nonces
              (λ e. different (sym e))
            ∙ lookup-insert_self cache_key_eq first_key (next_nonce m) [];
        after = refused_once;
        step = refused 0 first_key refl one_sent-IsFree refl refl;
        refuses = refl;
        lost = lookup-remove_self cache_key_eq first_key one_sent.cache.nonces;
        kept =
            lookup-remove_ne cache_key_eq second_key first_key one_sent.cache.nonces different
            ∙ lookup-insert_self cache_key_eq second_key (next_nonce m) turned.cache.nonces;
      },
    )
