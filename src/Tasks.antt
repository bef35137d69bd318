-- ===== src/Tasks.antt =====
-- near-fetch/src/lib.rs: `fetch_nonce`, run by any number of tasks that share one client's cache,
-- and `invalidate_cache`, at any point between their steps.
-- A task is at one of the places where it can be suspended or where another task can come in
-- between: at an acquisition of the `RwLock`, between the lookup and `fetch_add`, and at the
-- requests to the network, during which it keeps its guard. The lock is tokio's: it hands out a
-- read guard while no task has a write guard, and a write guard while no task has any.
pub mod Exclusion
pub mod Unique
pub mod Alone
pub mod Load
pub mod Progress
pub mod Jobs
use near_fetch.Prelude.{
  ℕ, ◌+◌, ◌^◌, ◌<◌, Bool, true, false, List, [], ◌∷◌, Option, none, some, ◌≡◌, ◌==◌, if◌then◌else◌,
  lookup, insert, remove,
}
use near_fetch.Near.{Near}
use near_fetch.Effects.{CacheKey, cache_key_eq, Nonces, update}
use near_fetch.Client.Nonce.{next_nonce}

module _ ⦃near : Near⦄ where
  -- The places of a task.
  pub data Place : Type 0 where
    -- not in a call
    idle : Place
    -- has a read guard, before `nonces.get`
    looking : CacheKey → Place
    -- has a read guard and a nonce, and waits for `view_block`
    viewing : CacheKey → ℕ → Place
    -- has dropped its guard, and waits for the write guard
    upgrading : CacheKey → Place
    -- has the write guard, before `nonces.entry`
    entering : CacheKey → Place
    -- `Entry::Occupied`: has the write guard and a nonce, and waits for `view_block`
    occupied : CacheKey → ℕ → Place
    -- `Entry::Vacant`: has the write guard, and waits for `access_key`
    fetching : CacheKey → Place

  abbrev pub reads : Place → Bool
  reads (looking _) = true
  reads (viewing _ _) = true
  reads _ = false

  abbrev pub writes : Place → Bool
  writes (entering _) = true
  writes (occupied _ _) = true
  writes (fetching _) = true
  writes _ = false

  -- `issued` records the nonces that were taken from the cache, the latest first, and forgets those
  -- of a key when the key is invalidated. The program has no such record.
  pub record System : Type 0 where
    pub nonces : Nonces
    pub place : ℕ → Place
    pub issued : List (CacheKey × ℕ)

  abbrev pub NoWriter : System → Type 0
  NoWriter s = (j : ℕ) → writes (s.place j) ≡ false

  abbrev pub IsFree : System → Type 0
  IsFree s = (j : ℕ) → (reads (s.place j) ≡ false) × (writes (s.place j) ≡ false)

  abbrev pub move : ℕ → Place → System → System
  move i p s = record s { place = update s.place i p }

  -- `fetch_add(1)` on the cell of key `k`, which holds `n`
  abbrev pub take : CacheKey → ℕ → System → System
  take k n s = record s {
    nonces = insert cache_key_eq k (next_nonce n) s.nonces;
    issued = (k, next_nonce n) ∷ s.issued;
  }

  -- `nonces.remove(cache_key)`
  abbrev pub forgotten : CacheKey → System → System
  forgotten k s = record s {
    nonces = remove cache_key_eq k s.nonces;
    issued = remove cache_key_eq k s.issued;
  }

  -- A step of one task.
  pub data Step (s t : System) : Type 0 where
    acquire_read :
        (i : ℕ) (k : CacheKey) → s.place i ≡ idle → NoWriter s → t ≡ move i (looking k) s → Step s t
    hit :
        (i : ℕ) (k : CacheKey) (n : ℕ)
        → s.place i ≡ looking k
        → lookup cache_key_eq k s.nonces ≡ some n
        → t ≡ move i (viewing k (next_nonce n)) (take k n s)
        → Step s t
    miss :
        (i : ℕ) (k : CacheKey)
        → s.place i ≡ looking k
        → lookup cache_key_eq k s.nonces ≡ none
        → t ≡ move i (upgrading k) s
        → Step s t
    acquire_write :
        (i : ℕ) (k : CacheKey)
        → s.place i ≡ upgrading k
        → IsFree s
        → t ≡ move i (entering k) s
        → Step s t
    find_occupied :
        (i : ℕ) (k : CacheKey) (n : ℕ)
        → s.place i ≡ entering k
        → lookup cache_key_eq k s.nonces ≡ some n
        → t ≡ move i (occupied k (next_nonce n)) (take k n s)
        → Step s t
    find_vacant :
        (i : ℕ) (k : CacheKey)
        → s.place i ≡ entering k
        → lookup cache_key_eq k s.nonces ≡ none
        → t ≡ move i (fetching k) s
        → Step s t
    -- `access_key` answers with the nonce `n`; the entry is inserted and the guard dropped
    fetched :
        (i : ℕ) (k : CacheKey) (n : ℕ)
        → s.place i ≡ fetching k
        → t ≡ move i idle (take k n s)
        → Step s t
    -- `access_key` fails, and the guard is dropped
    failed : (i : ℕ) (k : CacheKey) → s.place i ≡ fetching k → t ≡ move i idle s → Step s t
    -- `view_block` answers or fails, and the guard is dropped
    viewed : (i : ℕ) (k : CacheKey) (n : ℕ) → s.place i ≡ viewing k n → t ≡ move i idle s → Step s t
    viewed_occupied :
        (i : ℕ) (k : CacheKey) (n : ℕ) → s.place i ≡ occupied k n → t ≡ move i idle s → Step s t
    -- the call is dropped while it waits for the write guard; dropped at a request it is `failed` or
    -- `viewed`
    cancelled : (i : ℕ) (k : CacheKey) → s.place i ≡ upgrading k → t ≡ move i idle s → Step s t
    -- `invalidate_cache`, which takes and drops a write guard
    invalidate : (k : CacheKey) → IsFree s → t ≡ forgotten k s → Step s t

  -- The task that takes the step; `invalidate_cache` may be called by anyone.
  abbrev pub actor : {s t : System} → Step s t → Option ℕ
  actor (acquire_read i _ _ _ _) = some i
  actor (hit i _ _ _ _ _) = some i
  actor (miss i _ _ _ _) = some i
  actor (acquire_write i _ _ _ _) = some i
  actor (find_occupied i _ _ _ _ _) = some i
  actor (find_vacant i _ _ _ _) = some i
  actor (fetched i _ _ _ _) = some i
  actor (failed i _ _ _) = some i
  actor (viewed i _ _ _ _) = some i
  actor (viewed_occupied i _ _ _ _) = some i
  actor (cancelled i _ _ _) = some i
  actor (invalidate _ _ _) = none

  -- A nonce that the step takes is not above the last `u64`, where the counter wraps around.
  abbrev pub NoWrap : {s t : System} → Step s t → Type 0
  NoWrap (hit i k n p found e) = n + 1 < 2 ^ 64
  NoWrap (find_occupied i k n p found e) = n + 1 < 2 ^ 64
  NoWrap (fetched i k n p e) = n + 1 < 2 ^ 64
  NoWrap _ = Unit

  abbrev pub start : System
  start = record { nonces = []; place = λ i. idle; issued = [] }

  -- what a new client and its tasks can come to
  pub data Reach : System → Type 0 where
    here : Reach start
    next : {s t : System} → Reach s → Step s t → Reach t

  -- No counter has wrapped around on the way.
  abbrev pub IsWithin : {s : System} → Reach s → Type 0
  IsWithin here = Unit
  IsWithin (next r st) = IsWithin r × NoWrap st
