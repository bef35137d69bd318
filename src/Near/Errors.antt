-- ===== src/Near/Errors.antt =====
-- The foreign error types, with the cases that lib.rs and ops.rs match on. `other` stands for all
-- the cases that they do not name.
use near_fetch.Near.{Near}

pub data JsonRpcServerError ⦃near : Near⦄ (E : Type 0) : Type 0 where
  handler_error : E → JsonRpcServerError E
  other : near.Opaque → JsonRpcServerError E

pub data JsonRpcError ⦃near : Near⦄ (E : Type 0) : Type 0 where
  server_error : JsonRpcServerError E → JsonRpcError E
  transport_error : near.Opaque → JsonRpcError E

module _ ⦃near : Near⦄ where
  open near use {Opaque}

  pub data InvalidTxError : Type 0 where
    invalid_nonce : Opaque → InvalidTxError
    other : Opaque → InvalidTxError

  pub data ActionErrorKind : Type 0 where
    delegate_action_invalid_nonce : Opaque → ActionErrorKind
    other : Opaque → ActionErrorKind

  pub data TxExecutionError : Type 0 where
    action_error : ActionErrorKind → Opaque → TxExecutionError
    invalid_tx_error : InvalidTxError → TxExecutionError
    other : Opaque → TxExecutionError

  pub data RpcTransactionError : Type 0 where
    invalid_transaction : InvalidTxError → Opaque → RpcTransactionError
    unknown_transaction : Opaque → RpcTransactionError
    timeout_error : RpcTransactionError
    other : Opaque → RpcTransactionError
