-- ===== src/Client/Nonce.antt =====
-- near-fetch/src/lib.rs: `access_key`, `cached_nonce` and `fetch_nonce`, run by one task with no
-- other task between its steps. The interleavings of tasks are in Tasks.antt.
-- Nonces are `u64`: additions wrap, as they do in a release build and in `AtomicU64::fetch_add`.
use near_fetch.Prelude.{ℕ, ◌+◌, ◌%◌, ◌^◌, Option, none, some, lookup, insert}
use near_fetch.Near.{Near}
use near_fetch.Near.Views.{AccessKeyView, QueryResponseKind}
use near_fetch.Near.Requests.{Method, finality, Finality, QueryRequest}
use near_fetch.Error.{map_err, ok, err, rpc_returned_invalid_data, from_query_error}
use near_fetch.Effects.{
  CacheKey, cache_key_eq, Nonces, Net, M, pure, lift, call, update, ◌>>=◌, ◌>>◌,
}
use near_fetch.Client.{Client}
use near_fetch.Query.Views.{latest_block}

-- `n + 1` on a `u64`
abbrev pub next_nonce : ℕ → ℕ
next_nonce n = (n + 1) % 2 ^ 64

module _ ⦃near : Near⦄ ⦃net : Net⦄ where
  open near use {AccountId, PublicKey, CryptoHash}

  abbrev pub read_nonces : Client → M Nonces
  read_nonces c s = (ok (s.nonces c.access_key_nonces), s)

  abbrev pub write_nonce : Client → CacheKey → ℕ → M (Unit {0})
  write_nonce c k n s =
      let cell = c.access_key_nonces in
      (ok tt, record s { nonces = update s.nonces cell (insert cache_key_eq k n (s.nonces cell)) })

  -- `Client::access_key`: the access key, and the hash and the height of the block that has it
  unfoldable pub access_key : Client → AccountId → PublicKey → M (AccessKeyView × CryptoHash × ℕ)
  unfolding call
  access_key c account_id public_key = do
    answer ← call Method.query c.rpc_client (record {
      block_reference = finality Finality.none;
      request = QueryRequest.view_access_key account_id public_key;
    })
    resp ← lift (map_err from_query_error answer)
    lift (elim resp.kind [
      | QueryResponseKind.access_key key ↦ ok (key, resp.block_hash, resp.block_height)
      | _ ↦ err (rpc_returned_invalid_data "while querying access key")
    ])

  -- `cached_nonce`, at the cell of key `k` that holds `n`
  unfoldable pub cached_nonce : Client → CacheKey → ℕ → M (ℕ × CryptoHash × ℕ)
  unfolding latest_block
  cached_nonce c k n = do
    write_nonce c k (next_nonce n)
    block ← latest_block c
    pure (next_nonce n, block.header.hash, block.header.height)

  -- `Entry::Vacant`
  unfoldable pub vacant_nonce : Client → CacheKey → M (ℕ × CryptoHash × ℕ)
  unfolding access_key
  vacant_nonce c (account_id, public_key) = do
    (key, block_hash, block_height) ← access_key c account_id public_key
    write_nonce c (account_id, public_key) (next_nonce key.nonce)
    pure (next_nonce key.nonce, block_hash, block_height)

  -- `match nonces.entry(cache_key)`, under the write lock
  unfoldable pub entry_nonce : Client → CacheKey → Option ℕ → M (ℕ × CryptoHash × ℕ)
  unfolding cached_nonce vacant_nonce
  entry_nonce c k (some n) = cached_nonce c k n
  entry_nonce c k none = vacant_nonce c k

  -- the two branches of `if let Some(nonce) = nonces.get(&cache_key)`
  unfoldable pub lookup_nonce : Client → CacheKey → Option ℕ → M (ℕ × CryptoHash × ℕ)
  unfolding cached_nonce entry_nonce
  lookup_nonce c k (some n) = cached_nonce c k n
  lookup_nonce c k none = do nonces ← read_nonces c; entry_nonce c k (lookup cache_key_eq k nonces)

  unfoldable pub fetch_nonce : Client → AccountId → PublicKey → M (ℕ × CryptoHash × ℕ)
  unfolding lookup_nonce
  fetch_nonce c account_id public_key = do
    nonces ← read_nonces c
    lookup_nonce c (account_id, public_key) (lookup cache_key_eq (account_id, public_key) nonces)
