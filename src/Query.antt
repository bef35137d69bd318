-- ===== src/Query.antt =====
-- near-fetch/src/query.rs: `Query`, its builder methods, the trait `ProcessQuery` and the future
-- of a query. The kinds of queries are in Query/Methods.antt, the query of a chunk in
-- Query/Chunk.antt, and the methods `Client::view_..` in Query/Views.antt.
pub mod Methods
pub mod Chunk
pub mod Views
pub mod Send
pub mod Traffic
pub mod Answered
pub mod Choice
use near_fetch.Prelude.{ℕ, Option, none, some, ◌≡◌}
use near_fetch.Near.{Near}
use near_fetch.Near.Requests.{
  Method, query, Request, Response, BlockReference, block_id, finality, BlockId, Finality,
}
use near_fetch.Error.{Error, rpc, Result, map_err}
use near_fetch.Effects.{Net, M, lift, ◌>>=◌}
use near_fetch.Client.{Client, send_query}

module _ ⦃near : Near⦄ where
  -- The trait: `T` is the implementing type and `R` its `Output`.
  pub record ProcessQuery (T R : Type 0) : Type 0 where
    pub method : Method
    pub into_request : T → BlockReference → Result (Request method)
    pub from_response : Response method → Result R

  pub record Query (T : Type 0) : Type 0 where
    pub method : T
    pub client : Client
    pub block_ref : Option BlockReference

  -- `unwrap_or_else(BlockReference::latest)`, over the block reference that stands for the latest
  abbrev pub or_latest : BlockReference → Option BlockReference → BlockReference
  or_latest latest none = latest
  or_latest latest (some b) = b

  module _ {T : Type 0} where
    unfoldable pub new : Client → T → Query T
    new client method = record { method = method; client = client; block_ref = none }

    unfoldable pub at_block_height : ℕ → Query T → Query T
    at_block_height h q = record q { block_ref = some (block_id (BlockId.height h)) }

    unfoldable pub at_block_hash : near.CryptoHash → Query T → Query T
    at_block_hash h q = record q { block_ref = some (block_id (BlockId.hash h)) }

    -- `finality` exists only where the method of `T` is `RpcQueryRequest`.
    unfoldable pub at_finality :
        {R : Type 0} (p : ProcessQuery T R) → p.method ≡ query → Finality → Query T → Query T
    at_finality p _ f q = record q { block_ref = some (finality f) }

  module _ ⦃net : Net⦄ {T R : Type 0} ⦃p : ProcessQuery T R⦄ where
    -- `impl IntoFuture for Query`
    unfoldable pub into_future : Query T → M R
    unfolding send_query
    into_future q = do
      request ← lift (p.into_request q.method (or_latest net.latest q.block_ref))
      answer ← send_query p.method q.client request
      resp ← lift (map_err (rpc p.method) answer)
      lift (p.from_response resp)
