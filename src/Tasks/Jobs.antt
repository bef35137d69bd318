-- ===== src/Tasks/Jobs.antt =====
-- near-fetch/src/lib.rs: `send_tx_once`, `send_tx_async` and `sign_tx`, run by any number of tasks
-- that share one client and whose signers may share counters (near-fetch/src/signer.rs).
-- A task goes on from one access of a shared cell to the next: each call of `account_id`,
-- `public_key` and `sign` reads the counter of a `KeyRotatingSigner` anew, and the steps inside
-- `fetch_nonce` are those of Tasks.antt. Where a signer panics its task stays as it is.
pub mod Tickets
pub mod Spending
pub mod Fits
pub mod Places
pub mod Progress
pub mod Load
pub mod Fetching
pub mod Ends
pub mod Runs
pub mod Crossed
pub mod Misplaced
pub mod Turns
pub mod Taken
pub mod Others
pub mod Alone
pub mod Whole
pub mod Cache
pub mod Carried
pub mod Sound
pub mod Distinct
use near_fetch.Prelude.{
  ℕ, ◌+◌, ◌%◌, ◌^◌, List, [], ◌∷◌, Option, none, some, ◌≡◌, ◌⊎◌, length, suc, holds, if◌then◌else◌,
}
use near_fetch.Near.{Near}
use near_fetch.Near.Requests.{Action, TransactionV0, SignedTransaction}
use near_fetch.Error.{Result, ok}
use near_fetch.Effects.{CacheKey, cache_key_eq, Net, Signer, update}
use near_fetch.Signer.{expose_account_id}
use near_fetch.Signer.Rotating.{KeyRotatingSigner, index}
use near_fetch.Client.Nonce.{next_nonce}
use near_fetch.Tasks as Tasks
use near_fetch.Tasks.{
  forgotten, acquire_read, hit, miss, acquire_write, find_occupied, find_vacant, fetched, failed,
  viewed, viewed_occupied, cancelled, invalidate,
}

module _ ⦃near : Near⦄ where
  -- A nonce that was taken for a key, with the number of times that the key had been invalidated
  -- before, which the program does not count.
  pub record Ticket : Type 0 where
    pub key : CacheKey
    pub epoch : ℕ
    pub nonce : ℕ

  -- Where a task is in `send_tx_once`, with its local variables: `cache_key` first, then what
  -- `sign_tx` has.
  pub data Stage : Type 0 where
    resting : Stage
    has_account : near.AccountId → Stage
    has_cache_key : CacheKey → Stage
    -- in `sign_tx`: has `pk`
    has_key : CacheKey → near.PublicKey → Stage
    -- in `fetch_nonce` for a key, without a nonce, and with one
    asking : CacheKey → CacheKey → Stage
    taking : CacheKey → Ticket → Stage
    -- has the nonce and the block hash, and then the `signer_id` as well
    holding : CacheKey → Ticket → near.CryptoHash → Stage
    has_signer_id : CacheKey → Ticket → near.CryptoHash → near.AccountId → Stage
    -- has the signed transaction
    ready : CacheKey → Ticket → SignedTransaction → Stage
    -- has sent it, and has not dealt with the answer yet
    sending : CacheKey → Stage

  -- `sent` records the transactions that were sent, the latest first, with their tickets, and
  -- `epoch` the invalidations of each key. The program has neither.
  pub record Jobs : Type 0 where
    pub cache : Tasks.System
    pub counters : ℕ → ℕ
    pub stage : ℕ → Stage
    pub epoch : CacheKey → ℕ
    pub sent : List (Ticket × SignedTransaction)

  abbrev pub put : ℕ → Stage → Jobs → Jobs
  put i p s = record s { stage = update s.stage i p }

  -- The task has taken the nonce `n`.
  abbrev pub ticket : CacheKey → ℕ → Jobs → Ticket
  ticket k n s = record { key = k; epoch = s.epoch k; nonce = n }

  abbrev pub bump : CacheKey → (CacheKey → ℕ) → CacheKey → ℕ
  bump k epoch q = if holds (cache_key_eq q k) then suc (epoch q) else epoch q

  -- The request for a block has its answer, or fails.
  abbrev pub Returns : ℕ → CacheKey → ℕ → Jobs → Tasks.System → Jobs → Type 0
  Returns i k n s c t =
      ((ck : CacheKey) × (e : ℕ) × (hash : near.CryptoHash) × (s.stage i
          ≡ taking ck (record { key = k; epoch = e; nonce = n }))
        × (t ≡ record (put i (holding ck (record { key = k; epoch = e; nonce = n }) hash) s) {
          cache = c;
        }))
      ⊎ (t ≡ record (put i resting s) { cache = c })

  -- What a step inside `fetch_nonce` does for the call around it. A request for a block or for an
  -- access key that fails ends the call.
  abbrev pub Fetches : (s : Jobs) {c : Tasks.System} → Tasks.Step s.cache c → Jobs → Type 0
  Fetches s {c} (acquire_read i k _ _ _) t =
      (ck : CacheKey) × (s.stage i ≡ asking ck k) × (t ≡ record s { cache = c })
  Fetches s {c} (hit i k n _ _ _) t =
      (ck : CacheKey) × (s.stage i ≡ asking ck k)
      × (t ≡ record (put i (taking ck (ticket k (next_nonce n) s)) s) { cache = c })
  Fetches s {c} (miss i k _ _ _) t = t ≡ record s { cache = c }
  Fetches s {c} (acquire_write i k _ _ _) t = t ≡ record s { cache = c }
  Fetches s {c} (find_occupied i k n _ _ _) t =
      (ck : CacheKey) × (s.stage i ≡ asking ck k)
      × (t ≡ record (put i (taking ck (ticket k (next_nonce n) s)) s) { cache = c })
  Fetches s {c} (find_vacant i k _ _ _) t = t ≡ record s { cache = c }
  Fetches s {c} (fetched i k n _ _) t =
      (ck : CacheKey) × (hash : near.CryptoHash) × (s.stage i ≡ asking ck k)
      × (t ≡ record (put i (holding ck (ticket k (next_nonce n) s) hash) s) { cache = c })
  Fetches s {c} (failed i k _ _) t = t ≡ record (put i resting s) { cache = c }
  Fetches s {c} (viewed i k n _ _) t = Returns i k n s c t
  Fetches s {c} (viewed_occupied i k n _ _) t = Returns i k n s c t
  Fetches s {c} (cancelled i k _ _) t = t ≡ record (put i resting s) { cache = c }
  Fetches s {c} (invalidate k _ _) t = t ≡ record s { cache = c; epoch = bump k s.epoch }

-- The signer that each task has, and what it sends.
pub record Work ⦃near : Near⦄ : Type 0 where
  pub signer : ℕ → KeyRotatingSigner
  pub receiver_id : ℕ → near.AccountId
  pub actions : ℕ → List Action

module _ ⦃near : Near⦄ ⦃net : Net⦄ (work : Work) where
  -- `current_signer` of the signer that the task has
  abbrev pub current : ℕ → Jobs → Result Signer
  current i s = let k = work.signer i in index k.signers (s.counters k.counter % length k.signers)

  -- The transaction carries the public key that its nonce was taken for.
  abbrev pub transaction : ℕ → Ticket → near.CryptoHash → near.AccountId → TransactionV0
  transaction i c hash id = record {
    nonce = c.nonce;
    signer_id = id;
    public_key = c.key.1;
    receiver_id = work.receiver_id i;
    block_hash = hash;
    actions = work.actions i;
  }

  abbrev pub signed : ℕ → Signer → Ticket → near.CryptoHash → near.AccountId → SignedTransaction
  signed i signer c hash id = record {
    signature = net.sign_with signer (net.hash_bytes (transaction i c hash id));
    transaction = transaction i c hash id;
  }

  -- `sign`, which rotates the signer
  abbrev pub rotated : ℕ → Jobs → ℕ → ℕ
  rotated i s =
      let cell = (work.signer i).counter in update s.counters cell ((s.counters cell + 1) % 2 ^ 64)

  -- A step of one task.
  pub data Step (s t : Jobs) : Type 0 where
    -- `cache_key`: the account, and then the public key
    account :
        (i : ℕ) (signer : Signer) (id : near.AccountId)
        → s.stage i ≡ resting
        → current i s ≡ ok signer
        → expose_account_id signer ≡ ok id
        → t ≡ put i (has_account id) s
        → Step s t
    public_key :
        (i : ℕ) (signer : Signer) (id : near.AccountId)
        → s.stage i ≡ has_account id
        → current i s ≡ ok signer
        → t ≡ put i (has_cache_key (id, net.public_key_of signer)) s
        → Step s t
    -- `pk` in `sign_tx`, and then the account that `fetch_nonce` gets
    sign_tx :
        (i : ℕ) (signer : Signer) (ck : CacheKey)
        → s.stage i ≡ has_cache_key ck
        → current i s ≡ ok signer
        → t ≡ put i (has_key ck (net.public_key_of signer)) s
        → Step s t
    fetch_nonce :
        (i : ℕ) (signer : Signer) (ck : CacheKey) (pk : near.PublicKey) (id : near.AccountId)
        → s.stage i ≡ has_key ck pk
        → current i s ≡ ok signer
        → expose_account_id signer ≡ ok id
        → t ≡ put i (asking ck (id, pk)) s
        → Step s t
    -- a step inside `fetch_nonce`, or a call of `invalidate_cache`, which anyone may make
    fetch : {c : Tasks.System} (st : Tasks.Step s.cache c) → Fetches s st t → Step s t
    signer_id :
        (i : ℕ) (signer : Signer) (ck : CacheKey) (c : Ticket) (hash : near.CryptoHash)
        (id : near.AccountId)
        → s.stage i ≡ holding ck c hash
        → current i s ≡ ok signer
        → expose_account_id signer ≡ ok id
        → t ≡ put i (has_signer_id ck c hash id) s
        → Step s t
    sign :
        (i : ℕ) (signer : Signer) (ck : CacheKey) (c : Ticket) (hash : near.CryptoHash)
        (id : near.AccountId)
        → s.stage i ≡ has_signer_id ck c hash id
        → current i s ≡ ok signer
        → t ≡ record (put i (ready ck c (signed i signer c hash id)) s) { counters = rotated i s }
        → Step s t
    send :
        (i : ℕ) (ck : CacheKey) (c : Ticket) (tx : SignedTransaction)
        → s.stage i ≡ ready ck c tx
        → t ≡ record (put i (sending ck) s) { sent = (c, tx) ∷ s.sent }
        → Step s t
    -- the answer says that the nonce is invalid, which it may do more than once
    refused :
        (i : ℕ) (ck : CacheKey) {c : Tasks.System}
        → s.stage i ≡ sending ck
        → (free : Tasks.IsFree s.cache) → (e : c ≡ forgotten ck s.cache)
        → Fetches s (invalidate ck free e) t
        → Step s t
    -- the task is done with the answer, or the call is dropped
    finished : (i : ℕ) (ck : CacheKey) → s.stage i ≡ sending ck → t ≡ put i resting s → Step s t
    -- the call is dropped while it waits for the read guard; later on in `fetch_nonce` it is
    -- `cancelled`, `failed` or `viewed`
    dropped :
        (i : ℕ) (ck k : CacheKey)
        → s.stage i ≡ asking ck k
        → s.cache.place i ≡ Tasks.idle
        → t ≡ put i resting s
        → Step s t

  -- The task that takes the step, if it is not an invalidation by anyone.
  abbrev pub actor : {s t : Jobs} → Step s t → Option ℕ
  actor (account i _ _ _ _ _ _) = some i
  actor (public_key i _ _ _ _ _) = some i
  actor (sign_tx i _ _ _ _ _) = some i
  actor (fetch_nonce i _ _ _ _ _ _ _ _) = some i
  actor (fetch st _) = Tasks.actor st
  actor (signer_id i _ _ _ _ _ _ _ _ _) = some i
  actor (sign i _ _ _ _ _ _ _ _) = some i
  actor (send i _ _ _ _ _) = some i
  actor (refused i _ _ _ _ _) = some i
  actor (finished i _ _ _) = some i
  actor (dropped i _ _ _ _ _) = some i

  abbrev pub start : (ℕ → ℕ) → Jobs
  start counters = record {
    cache = Tasks.start;
    counters = counters;
    stage = λ i. resting;
    epoch = λ k. 0;
    sent = [];
  }

  -- what a new client and its tasks can come to, from any counters of their signers
  pub data Reach : Jobs → Type 0 where
    here : (counters : ℕ → ℕ) → Reach (start counters)
    next : {s t : Jobs} → Reach s → Step s t → Reach t

  -- The counter of no nonce wraps around in the step.
  abbrev pub NoWrap : {s t : Jobs} → Step s t → Type 0
  NoWrap (fetch st f) = Tasks.NoWrap st
  NoWrap _ = Unit

  abbrev pub IsWithin : {s : Jobs} → Reach s → Type 0
  IsWithin (here _) = Unit
  IsWithin (next r st) = IsWithin r × NoWrap st
