-- ===== src/Tasks/Jobs/Crossed.antt =====
-- near-fetch/src/lib.rs: `sign_tx` asks a signer for its public key before it waits for a nonce, and
-- for its signature after that. Here two tasks that share a `KeyRotatingSigner` take turns there.
use near_fetch.Prelude.{ℕ, List, [], ◌∷◌, ◌≡◌, refl, arith, some, lookup-insert_self, ◌<◌, ◌^◌, ◌+◌}
use near_fetch.Near.{Near}
use near_fetch.Near.Requests.{SignedTransaction, Action}
use near_fetch.Error.{ok}
use near_fetch.Signer.{expose_account_id}
use near_fetch.Effects.{Signer, CacheKey, cache_key_eq, Net}
use near_fetch.Client.Nonce.{next_nonce}
use near_fetch.Tasks as Tasks
use near_fetch.Tasks.{
  acquire_read, hit, miss, acquire_write, find_occupied, find_vacant, fetched, failed, viewed,
  viewed_occupied, cancelled, invalidate, Place, idle, looking, viewing, upgrading, entering,
  occupied, fetching, move, take,
}
use near_fetch.Tasks.Jobs.Runs.{
  after_asking, after_fetching, after_hitting, after_signing, after_sending, asking_run,
  waiting_run, fetching_run, hitting_run, signing_run, sending_run,
}
use near_fetch.Tasks.Jobs.{
  IsWithin, actor, Step, Ticket, ticket, Jobs, Work, Reach, here, next, signed, start,
}

module _ ⦃near : Near⦄ ⦃net : Net⦄ (receiver_id : ℕ → near.AccountId) (actions : ℕ → List Action)
    (a b : Signer) (id : near.AccountId) where
  -- All tasks have the same signer, which rotates between two.
  abbrev pub shared : Work
  shared = record {
    signer = λ i. record { signers = a ∷ b ∷ []; counter = 0 };
    receiver_id = receiver_id;
    actions = actions;
  }

  -- The state was reached, with no nonce counter wrapped around on the way.
  abbrev pub Reached : Jobs → Type 0
  Reached s = (r : Reach shared s) × IsWithin shared r

  unfoldable pub onward :
      (i : ℕ) (s t : Jobs)
      → Reach shared s
      → (st : Step shared s t) → actor shared st ≡ some i
      → Reach shared t
  onward i s t r st own = next r st

  -- the public key of the first signer, and a signature of the second one
  abbrev pub IsCrossed : SignedTransaction → Type 0
  IsCrossed tx =
      (tx.transaction.public_key ≡ net.public_key_of a)
      × (tx.signature ≡ net.sign_with b (net.hash_bytes tx.transaction))

  module _ (own_a : expose_account_id a ≡ ok id) (own_b : expose_account_id b ≡ ok id) (m : ℕ)
      (hash : near.CryptoHash) where
    abbrev key : CacheKey
    key = (id, net.public_key_of a)

    -- the task 0 has a nonce for the first signer's key, and then the task 1 as well
    abbrev first_has : Jobs
    first_has = after_fetching 0 key key m hash (after_asking 0 key (start shared (λ c. 0)))

    abbrev both_have : Jobs
    both_have = after_hitting 1 key (next_nonce m) hash (after_asking 1 key first_has)

    -- the task 1 has signed and sent, and then the task 0
    abbrev one_sent : Jobs
    one_sent =
        let c = ticket key (next_nonce (next_nonce m)) both_have in
        after_sending shared 1 key c (signed shared 1 a c hash id)
          (after_signing shared 1 a key c hash id both_have)

    abbrev pub both_sent : Jobs
    both_sent =
        let c = ticket key (next_nonce m) first_has in
        after_sending shared 0 key c (signed shared 0 b c hash id)
          (after_signing shared 0 b key c hash id one_sent)

    unfoldable first_reach : Reach shared first_has
    first_reach =
        fetching_run shared (Reach shared) 0 (onward 0) key key m hash
          (after_asking 0 key (start shared (λ c. 0))) refl refl (λ j. (refl, refl)) refl
          (asking_run shared (Reach shared) 0 (onward 0) a id (start shared (λ c. 0)) refl refl
            own_a (here (λ c. 0)))

    no_writer : Tasks.NoWriter (after_asking 1 key first_has).cache
    no_writer j = ground arith

    unfoldable both_reach : Reach shared both_have
    unfolding first_reach
    both_reach =
        hitting_run shared (Reach shared) 1 (onward 1) key (next_nonce m) hash
          (after_asking 1 key first_has) refl refl no_writer
          (lookup-insert_self cache_key_eq key (next_nonce m) [])
          (asking_run shared (Reach shared) 1 (onward 1) a id first_has refl refl own_a first_reach)

    unfoldable sent_reach : Reach shared both_sent
    unfolding both_reach
    sent_reach =
        let c = ticket key (next_nonce (next_nonce m)) both_have in
        let d = ticket key (next_nonce m) first_has in
        let run = Reach shared in
        sending_run shared run 0 (onward 0) key d (signed shared 0 b d hash id)
          (after_signing shared 0 b key d hash id one_sent) refl
          (signing_run shared run 0 (onward 0) b key d hash id one_sent refl refl own_b (
            sending_run shared run 1 (onward 1) key c (signed shared 1 a c hash id)
              (after_signing shared 1 a key c hash id both_have) refl
              (signing_run shared run 1 (onward 1) a key c hash id both_have refl refl own_a
                both_reach)))

    first-IsWithin : m + 2 < 2 ^ 64 → IsWithin shared first_reach
    unfolding first_reach asking_run waiting_run fetching_run onward
    first-IsWithin small = (((((((((tt, tt), tt), tt), tt), tt), tt), tt), tt), omega arith)

    both-IsWithin : m + 2 < 2 ^ 64 → IsWithin shared both_reach
    unfolding both_reach first_reach asking_run hitting_run onward
    both-IsWithin small = (((((((first-IsWithin small, tt), tt), tt), tt), tt), omega arith), tt)

    pub both_sent-Reached : m + 2 < 2 ^ 64 → Reached both_sent
    unfolding sent_reach both_reach signing_run sending_run onward
    both_sent-Reached small = (sent_reach, ((((((both-IsWithin small, tt), tt), tt), tt), tt), tt))

    -- Two tasks that share a `KeyRotatingSigner` of two signers of one account, on a new client, can
    -- come to send a transaction with the public key of the first signer and a signature of the
    -- second one, without a nonce counter wrapped around, whichever nonce below 2^64 - 2 and whichever
    -- block hash the network answers with: `sign_tx` of the one task may sign between the
    -- `public_key` and the `sign` in `sign_tx` of the other.
    pub both_sent-IsCrossed :
        m + 2 < 2 ^ 64
        → (s : Jobs) × Reached s
          × (c : Ticket) × (tx : SignedTransaction) × (before : List (Ticket × SignedTransaction))
          × (s.sent ≡ (c, tx) ∷ before)
          × IsCrossed tx
    both_sent-IsCrossed small = (both_sent, both_sent-Reached small, _, _, _, refl, (refl, refl))
