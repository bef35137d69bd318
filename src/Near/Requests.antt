-- ===== src/Near/Requests.antt =====
-- The foreign request types that the crate fills in, and the RPC methods with the types of their
-- requests, responses and errors (`RpcMethod`).
use near_fetch.Prelude.{ℕ, String, List, Option, Bool}
use near_fetch.Near.{Near}
use near_fetch.Near.Errors.{RpcTransactionError}
use near_fetch.Near.Views.{
  TxExecutionStatus, RpcTransactionResponse, BlockView, RpcQueryResponse, GasPriceView,
}

module _ ⦃near : Near⦄ where
  open near use {Opaque, AccountId, PublicKey, CryptoHash, Gas, NearToken}

  pub record FunctionCallAction : Type 0 where
    pub method_name : String
    pub args : List ℕ
    pub gas : Gas
    pub deposit : NearToken

  pub data Action : Type 0 where
    create_account : Action
    deploy_contract : List ℕ → Action
    function_call : FunctionCallAction → Action
    transfer : NearToken → Action
    stake : NearToken → PublicKey → Action
    add_key : PublicKey → near.AccessKey → Action
    delete_key : PublicKey → Action
    delete_account : AccountId → Action
    other : Opaque → Action

  pub record TransactionV0 : Type 0 where
    pub nonce : ℕ
    pub signer_id : AccountId
    pub public_key : PublicKey
    pub receiver_id : AccountId
    pub block_hash : CryptoHash
    pub actions : List Action

  pub record SignedTransaction : Type 0 where
    pub signature : near.Signature
    pub transaction : TransactionV0

  pub data BlockId : Type 0 where
    height : ℕ → BlockId
    hash : CryptoHash → BlockId

  pub data Finality : Type 0 where
    none : Finality
    other : Opaque → Finality

  pub data BlockReference : Type 0 where
    block_id : BlockId → BlockReference
    finality : Finality → BlockReference
    sync_checkpoint : near.SyncCheckpoint → BlockReference

  pub data ChunkReference : Type 0 where
    block_shard_id : BlockId → near.ShardId → ChunkReference
    chunk_hash : CryptoHash → ChunkReference

  pub data QueryRequest : Type 0 where
    view_code : AccountId → QueryRequest
    view_account : AccountId → QueryRequest
    -- account_id, prefix, after_key, limit, include_proof
    view_state : AccountId → List ℕ → Option Opaque → Option Opaque → Bool → QueryRequest
    view_access_key : AccountId → PublicKey → QueryRequest
    view_access_key_list : AccountId → QueryRequest
    call_function : AccountId → String → List ℕ → QueryRequest

  pub record RpcQueryRequest : Type 0 where
    pub block_reference : BlockReference
    pub request : QueryRequest

  pub record RpcBlockRequest : Type 0 where
    pub block_reference : BlockReference

  pub record RpcGasPriceRequest : Type 0 where
    pub block_id : Option BlockId

  pub record RpcChunkRequest : Type 0 where
    pub chunk_reference : ChunkReference

  pub record RpcSendTransactionRequest : Type 0 where
    pub signed_transaction : SignedTransaction
    pub wait_until : TxExecutionStatus

  -- `TransactionInfo::TransactionId { sender_account_id, tx_hash }`, and `wait_until`
  pub record RpcTransactionStatusRequest : Type 0 where
    pub sender_account_id : AccountId
    pub tx_hash : CryptoHash
    pub wait_until : TxExecutionStatus

pub data Method : Type 0 where
  query block chunk gas_price send_tx tx : Method

module _ ⦃near : Near⦄ where
  abbrev pub Request : Method → Type 0
  Request query = RpcQueryRequest
  Request block = RpcBlockRequest
  Request chunk = RpcChunkRequest
  Request gas_price = RpcGasPriceRequest
  Request send_tx = RpcSendTransactionRequest
  Request tx = RpcTransactionStatusRequest

  abbrev pub Response : Method → Type 0
  Response query = RpcQueryResponse
  Response block = BlockView
  Response chunk = near.ChunkView
  Response gas_price = GasPriceView
  Response send_tx = RpcTransactionResponse
  Response tx = RpcTransactionResponse

  abbrev pub MethodError : Method → Type 0
  MethodError query = near.RpcQueryError
  MethodError block = near.RpcBlockError
  MethodError chunk = near.RpcChunkError
  MethodError gas_price = near.RpcGasPriceError
  MethodError send_tx = RpcTransactionError
  MethodError tx = RpcTransactionError
