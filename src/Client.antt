-- ===== src/Client.antt =====
-- near-fetch/src/lib.rs: `Client`. This file has the record and its constructors; the children
-- have the operations and what is proved of them.
pub mod Nonce
pub mod Errors
pub mod Cache
pub mod Sequence
pub mod Rejection
pub mod Invalidation
pub mod Sending
pub mod Replies
pub mod Async
pub mod Log
pub mod Spending
pub mod Advances
pub mod Rising
pub mod Recovery
pub mod Traffic
pub mod Send
use near_fetch.Prelude.{ℕ, ◌+◌, String, []}
use near_fetch.Near.{Near, Except}
use near_fetch.Near.Errors.{JsonRpcError}
use near_fetch.Near.Requests.{Method, Request, Response, MethodError}
use near_fetch.Error.{ok}
use near_fetch.Effects.{Net, M, call, update}

module _ ⦃near : Near⦄ where
  open near use {JsonRpcClient}

  -- A clone of a client shares the cell of its nonce cache.
  pub record Client : Type 0 where
    pub rpc_client : JsonRpcClient
    pub access_key_nonces : ℕ

  unfoldable pub inner : Client → JsonRpcClient
  inner c = c.rpc_client

  -- what a caller of `inner_mut` writes through the reference
  unfoldable pub inner_mut : Client → JsonRpcClient → Client
  inner_mut c rpc = record c { rpc_client = rpc }

  unfoldable pub rpc_addr : Client → String
  rpc_addr c = near.server_addr c.rpc_client

  -- `impl From<Client> for JsonRpcClient`
  unfoldable pub into_rpc_client : Client → JsonRpcClient
  into_rpc_client c = c.rpc_client

  module _ ⦃net : Net⦄ where
    -- `from_client` allocates an empty cache of its own.
    unfoldable pub from_client : JsonRpcClient → M Client
    from_client rpc s = (
      ok (record { rpc_client = rpc; access_key_nonces = s.fresh }),
      record s { fresh = s.fresh + 1; nonces = update s.nonces s.fresh [] },
    )

    -- `Client::new`
    unfoldable pub connect_to : String → M Client
    unfolding from_client
    connect_to addr = from_client (near.connect near.new_client addr)

    unfoldable pub send_query :
        (m : Method) → Client → Request m → M (Except (JsonRpcError (MethodError m)) (Response m))
    unfolding call
    send_query m c r = call m c.rpc_client r
