-- ===== src/Near.antt =====
-- What the crate takes from other crates (near-account-id, near-crypto, near-primitives,
-- near-token, near-jsonrpc-client, serde_json, borsh, base64): the types that it only passes on,
-- and the functions over them. Nothing is known of them but what a theorem names as a hypothesis.
pub mod Errors
pub mod Views
pub mod Requests
use near_fetch.Prelude.{ℕ, String, List, Option}

-- The answer of a foreign function that may fail: its own `Result`.
pub data Except (E A : Type 0) : Type 0 where
  value : A → Except E A
  error : E → Except E A

pub record Near : Type 1 where
  -- near-account-id, near-crypto, near-primitives, near-token, near-jsonrpc-client
  pub AccountId : Type 0
  pub PublicKey : Type 0
  pub SecretKey : Type 0
  pub InMemorySigner : Type 0
  pub EmptySigner : Type 0
  pub Signature : Type 0
  pub VrfProof : Type 0
  pub CryptoHash : Type 0
  pub ShardId : Type 0
  pub Gas : Type 0
  pub NearToken : Type 0
  pub AccessKey : Type 0
  pub SyncCheckpoint : Type 0
  pub SignedTransactionView : Type 0
  pub AccountView : Type 0
  pub ViewStateResult : Type 0
  pub AccessKeyList : Type 0
  pub ChunkView : Type 0
  pub Connector : Type 0
  pub JsonRpcClient : Type 0
  -- the error types of the RPC methods that the crate boxes and does not look into
  pub RpcBlockError : Type 0
  pub RpcQueryError : Type 0
  pub RpcChunkError : Type 0
  pub RpcGasPriceError : Type 0
  pub RpcBroadcastTxAsyncError : Type 0
  pub SerdeError : Type 0
  pub IoError : Type 0
  pub DecodeError : Type 0
  -- fields and cases of foreign data types that the crate never reads
  pub Opaque : Type 0
  -- time and retry strategies: `std::time::Duration`, boxed iterators of such, tokio-retry
  pub Duration : Type 0
  pub Strategy : Type 0
  -- `Eq` of the two halves of a cache key
  pub account_eq : Discrete AccountId
  pub key_eq : Discrete PublicKey
  -- `InMemorySigner { account_id, public_key, .. }` and its methods
  pub signer_account_id : InMemorySigner → AccountId
  pub signer_public_key : InMemorySigner → PublicKey
  pub signer_sign : InMemorySigner → List ℕ → Signature
  -- `ShardId::from`, `Gas::from_teragas`, `Gas::from_gas`, `Gas::as_gas`, `NearToken::from_near`
  pub shard_from : ℕ → ShardId
  pub gas_from_teragas : ℕ → Gas
  pub gas_from_gas : ℕ → Gas
  pub as_gas : Gas → ℕ
  pub token_from_near : ℕ → NearToken
  -- `JsonRpcClient::new_client`, `connect`, `server_addr`
  pub new_client : Connector
  pub connect : Connector → String → JsonRpcClient
  pub server_addr : JsonRpcClient → String
  -- the base64 engine `general_purpose::STANDARD`
  pub encode : List ℕ → String
  pub decode : String → Except DecodeError (List ℕ)
  -- the text that `format!` makes around a `SyncCheckpoint` printed with `{:?}`
  pub checkpoint_message : SyncCheckpoint → String
  -- `Duration::from_millis`; `ExponentialBackoff::from_millis(..).map(jitter)`, `Iterator::take`
  -- and `Iterator::next`
  pub from_millis : ℕ → Duration
  pub jittered_backoff : ℕ → Strategy
  pub take : ℕ → Strategy → Strategy
  pub next : Strategy → Option (Duration × Strategy)
