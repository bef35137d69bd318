-- ===== src/Error.antt =====
-- near-fetch/src/error.rs: the crate's error type, its `Result`, and the conversions.
-- `panic` is a Rust panic: an index out of range, `unimplemented!`, or `unwrap` of an error.
use near_fetch.Prelude.{String}
use near_fetch.Near.{Near, Except, value, error}
use near_fetch.Near.Errors.{JsonRpcError, TxExecutionError, RpcTransactionError}
use near_fetch.Near.Requests.{Method, MethodError}

module _ ⦃near : Near⦄ where
  open near use {
    RpcBlockError, RpcQueryError, RpcChunkError, RpcBroadcastTxAsyncError, SerdeError, DecodeError,
    IoError,
  }

  pub data Error : Type 0 where
    rpc_block_error : JsonRpcError RpcBlockError → Error
    rpc_query_error : JsonRpcError RpcQueryError → Error
    rpc_chunk_error : JsonRpcError RpcChunkError → Error
    rpc_transaction_error : JsonRpcError RpcTransactionError → Error
    rpc_transaction_async_error : JsonRpcError RpcBroadcastTxAsyncError → Error
    rpc_transaction_pending : Error
    rpc_returned_invalid_data : String → Error
    -- `Box<dyn Error>`, made of the error of any method
    rpc : (m : Method) → JsonRpcError (MethodError m) → Error
    tx_execution : TxExecutionError → Error
    tx_status : String → Error
    serialization : SerdeError → Error
    base64 : DecodeError → Error
    io : IoError → Error
    invalid_args : String → Error

  pub data Result (A : Type 0) : Type 0 where
    ok : A → Result A
    err : Error → Result A
    panic : Result A

  unfoldable pub from_block_error : JsonRpcError RpcBlockError → Error
  from_block_error e = rpc_block_error e

  unfoldable pub from_query_error : JsonRpcError RpcQueryError → Error
  from_query_error e = rpc_query_error e

  unfoldable pub from_chunk_error : JsonRpcError RpcChunkError → Error
  from_chunk_error e = rpc_chunk_error e

  unfoldable pub from_transaction_error : JsonRpcError RpcTransactionError → Error
  from_transaction_error e = rpc_transaction_error e

  unfoldable pub from_transaction_async_error : JsonRpcError RpcBroadcastTxAsyncError → Error
  from_transaction_async_error e = rpc_transaction_async_error e

  -- `r.map_err(f)`
  abbrev pub map_err : {A E : Type 0} → (E → Error) → Except E A → Result A
  map_err f (value a) = ok a
  map_err f (error e) = err (f e)

  -- `r?` followed by the rest of the function
  infixl 5 ◌>>=◌
  abbrev pub ◌>>=◌ : {A B : Type 0} → Result A → (A → Result B) → Result B
  ok a >>= f = f a
  err e >>= f = err e
  panic >>= f = panic

  -- `r.map(f)`
  abbrev pub map_ok : {A B : Type 0} → (A → B) → Result A → Result B
  map_ok f (ok a) = ok (f a)
  map_ok f (err e) = err e
  map_ok f panic = panic
