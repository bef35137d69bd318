-- ===== src/Query/Traffic.antt =====
-- near-fetch/src/query.rs: the requests that the query of a chunk sends.
use near_fetch.Prelude.{List, ◌∷◌, Option, none, some, ◌≡◌, refl}
use near_fetch.Near.{Near, Except, value, error}
use near_fetch.Near.Views.{BlockView}
use near_fetch.Near.Errors.{JsonRpcError}
use near_fetch.Near.Requests.{
  Method, MethodError, BlockId, ChunkReference, block_shard_id, RpcBlockRequest,
}
use near_fetch.Error.{map_err, from_chunk_error}
use near_fetch.Effects.{Event, called, Net, State, M, pure, lift, ◌>>=◌, call}
use near_fetch.Effects.Laws.{>>=-ok, >>=-err}
use near_fetch.Client.{Client, send_query}
use near_fetch.Query.Methods.{view_block_query}
use near_fetch.Query.Views.{latest_block, view_block}
use near_fetch.Query.Chunk.{QueryChunk, fetch_chunk}
use near_fetch.Query.Send.{SameCells, reply, into_future-after_request}

module _ ⦃near : Near⦄ ⦃net : Net⦄ where
  -- the request of the latest block, and of a chunk
  abbrev pub block_request : RpcBlockRequest
  block_request = record { block_reference = net.latest }

  abbrev pub asks_block : Client → Event
  asks_block c = called Method.block c.rpc_client block_request

  abbrev pub asks_chunk : Client → ChunkReference → Event
  asks_chunk c ref = called Method.chunk c.rpc_client (record { chunk_reference = ref })

  -- shard 0 of a block
  abbrev pub first_shard : BlockView → ChunkReference
  first_shard view = block_shard_id (BlockId.hash view.header.hash) (near.shard_from 0)

  -- The requests for a chunk, after the answer to the request for a block.
  abbrev pub asks_after :
      Client → Except (JsonRpcError (MethodError Method.block)) BlockView → State → List Event
  asks_after c (value view) s = asks_chunk c (first_shard view) ∷ asks_block c ∷ s.trace
  asks_after c (error e) s = asks_block c ∷ s.trace

  -- The log after a query of a chunk.
  abbrev pub asked : Client → Option ChunkReference → State → List Event
  asked c (some ref) s = asks_chunk c ref ∷ s.trace
  asked c none s = asks_after c (net.call Method.block c.rpc_client block_request s.world).0 s

  -- What was asked for is in the log, and no shared cell was written.
  pub record Asks (trace : List Event) (s t : State) : Type 0 where
    pub log : t.trace ≡ trace
    pub cells : SameCells s t

  -- what `fetch_chunk` does with a reference
  abbrev rest : Client → ChunkReference → M near.ChunkView
  rest c ref = do
    answer ← send_query Method.chunk c (record { chunk_reference = ref })
    lift (map_err from_chunk_error answer)

  abbrev shard_of : BlockView → M ChunkReference
  shard_of view = pure (first_shard view)

  unfoldable block_asked : Client → State → State
  block_asked c s = record s {
    trace = asks_block c ∷ s.trace;
    world = (net.call Method.block c.rpc_client block_request s.world).1;
  }

  latest_block-reply :
      (c : Client) (s : State)
      → latest_block c s ≡ (
        reply view_block_query (net.call Method.block c.rpc_client block_request s.world).0,
        block_asked c s,
      )
  unfolding latest_block view_block block_asked
  latest_block-reply c s = into_future-after_request view_block_query (view_block c) s

  after_block :
      (c : Client) (s : State) (a : Except (JsonRpcError (MethodError Method.block)) BlockView)
      → latest_block c s ≡ (reply view_block_query a, block_asked c s)
      → Asks (asks_after c a s) s ((latest_block c >>= shard_of >>= rest c) s).1
  unfolding block_asked send_query call
  after_block c s (value view) e =
      let all =
        >>=-ok (latest_block c >>= shard_of) (rest c) s (>>=-ok (latest_block c) shard_of s e) in
      rw all
        (record { log = refl; cells = record { fresh = refl; nonces = refl; counters = refl } })
  after_block c s (error x) e =
      let all =
        >>=-err (latest_block c >>= shard_of) (rest c) s (>>=-err (latest_block c) shard_of s e) in
      rw all
        (record { log = refl; cells = record { fresh = refl; nonces = refl; counters = refl } })

  fetch_chunk_lem :
      (c : Client) (ref : Option ChunkReference) (s : State)
      → Asks (asked c ref s) s (fetch_chunk (record { client = c; chunk_ref = ref }) s).1
  unfolding fetch_chunk
  fetch_chunk_lem c (some ref) s = record {
    log = refl;
    cells = record { fresh = refl; nonces = refl; counters = refl };
  }
  fetch_chunk_lem c none s = after_block c s _ (latest_block-reply c s)

  -- A query of a chunk asks for the chunk of its reference and for nothing else. Without a
  -- reference it asks for the latest block, and then for the chunk of that block's shard 0, or for
  -- nothing more if the block's query failed. It writes no shared cell.
  pub fetch_chunk-Asks :
      (q : QueryChunk) (s : State) → Asks (asked q.client q.chunk_ref s) s (fetch_chunk q s).1
  fetch_chunk-Asks q s = fetch_chunk_lem q.client q.chunk_ref s
