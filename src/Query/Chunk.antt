-- ===== src/Query/Chunk.antt =====
-- near-fetch/src/query.rs: `QueryChunk`, a query of a chunk at a `ChunkReference`.
use near_fetch.Prelude.{ℕ, Option, none, some}
use near_fetch.Near.{Near}
use near_fetch.Near.Requests.{Method, BlockId, ChunkReference, block_shard_id}
use near_fetch.Error.{map_err, from_chunk_error}
use near_fetch.Effects.{Net, M, pure, lift, ◌>>=◌}
use near_fetch.Client.{Client, send_query}
use near_fetch.Query.Views.{latest_block}

module _ ⦃near : Near⦄ where
  open near use {CryptoHash, ShardId}

  pub record QueryChunk : Type 0 where
    pub client : Client
    pub chunk_ref : Option ChunkReference

  unfoldable pub new : Client → QueryChunk
  new client = record { client = client; chunk_ref = none }

  -- `Client::view_chunk`
  unfoldable pub view_chunk : Client → QueryChunk
  unfolding new
  view_chunk client = new client

  unfoldable pub block_hash_and_shard : CryptoHash → ShardId → QueryChunk → QueryChunk
  block_hash_and_shard h shard q = record q {
    chunk_ref = some (block_shard_id (BlockId.hash h) shard);
  }

  unfoldable pub block_height_and_shard : ℕ → ShardId → QueryChunk → QueryChunk
  block_height_and_shard height shard q = record q {
    chunk_ref = some (block_shard_id (BlockId.height height) shard);
  }

  unfoldable pub chunk_hash : CryptoHash → QueryChunk → QueryChunk
  chunk_hash h q = record q { chunk_ref = some (ChunkReference.chunk_hash h) }

  module _ ⦃net : Net⦄ where
    -- the reference that is given, or shard 0 of the latest block
    unfoldable pub reference_or_latest : Client → Option ChunkReference → M ChunkReference
    unfolding latest_block
    reference_or_latest client (some chunk_ref) = pure chunk_ref
    reference_or_latest client none = do
      view ← latest_block client
      pure (block_shard_id (BlockId.hash view.header.hash) (near.shard_from 0))

    -- `impl IntoFuture for QueryChunk`
    unfoldable pub fetch_chunk : QueryChunk → M near.ChunkView
    unfolding reference_or_latest send_query
    fetch_chunk q = do
      chunk_reference ← reference_or_latest q.client q.chunk_ref
      answer ← send_query Method.chunk q.client (record { chunk_reference = chunk_reference })
      lift (map_err from_chunk_error answer)
