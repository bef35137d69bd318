-- ===== src/Near/Views.antt =====
-- The foreign view types that the crate reads: execution outcomes (near_primitives::views), and
-- what the queries answer. Fields and cases that it never reads are `Opaque`.
use near_fetch.Prelude.{ℕ, String, List, Option}
use near_fetch.Near.{Near}
use near_fetch.Near.Errors.{TxExecutionError}

module _ ⦃near : Near⦄ where
  open near use {Opaque, CryptoHash, Gas, NearToken}

  pub data TxExecutionStatus : Type 0 where
    none : TxExecutionStatus
    included : TxExecutionStatus
    other : Opaque → TxExecutionStatus

  pub data ExecutionStatusView : Type 0 where
    failure : TxExecutionError → ExecutionStatusView
    other : Opaque → ExecutionStatusView

  pub record ExecutionOutcomeView : Type 0 where
    pub logs : List String
    pub gas_burnt : Gas
    pub status : ExecutionStatusView
    pub rest : Opaque

  pub record ExecutionOutcomeWithIdView : Type 0 where
    pub outcome : ExecutionOutcomeView
    pub rest : Opaque

  pub data FinalExecutionStatus : Type 0 where
    not_started : FinalExecutionStatus
    started : FinalExecutionStatus
    failure : TxExecutionError → FinalExecutionStatus
    success_value : List ℕ → FinalExecutionStatus

  pub record FinalExecutionOutcomeView : Type 0 where
    pub status : FinalExecutionStatus
    pub transaction : near.SignedTransactionView
    pub transaction_outcome : ExecutionOutcomeWithIdView
    pub receipts_outcome : List ExecutionOutcomeWithIdView

  -- the second case holds `final_outcome` and the receipts
  pub data FinalExecutionOutcomeViewEnum : Type 0 where
    final_execution_outcome : FinalExecutionOutcomeView → FinalExecutionOutcomeViewEnum
    final_execution_outcome_with_receipt :
        FinalExecutionOutcomeView → Opaque → FinalExecutionOutcomeViewEnum

  pub record RpcTransactionResponse : Type 0 where
    pub final_execution_outcome : Option FinalExecutionOutcomeViewEnum
    pub final_execution_status : TxExecutionStatus

  pub record AccessKeyView : Type 0 where
    pub nonce : ℕ
    pub rest : Opaque

  pub record BlockHeaderView : Type 0 where
    pub hash : CryptoHash
    pub height : ℕ
    pub rest : Opaque

  pub record BlockView : Type 0 where
    pub header : BlockHeaderView
    pub rest : Opaque

  pub record CallResult : Type 0 where
    pub result : List ℕ
    pub logs : List String

  pub record ContractCodeView : Type 0 where
    pub code : List ℕ
    pub rest : Opaque

  pub data QueryResponseKind : Type 0 where
    view_account : near.AccountView → QueryResponseKind
    view_code : ContractCodeView → QueryResponseKind
    view_state : near.ViewStateResult → QueryResponseKind
    call_result : CallResult → QueryResponseKind
    access_key : AccessKeyView → QueryResponseKind
    access_key_list : near.AccessKeyList → QueryResponseKind
    other : Opaque → QueryResponseKind

  pub record RpcQueryResponse : Type 0 where
    pub kind : QueryResponseKind
    pub block_hash : CryptoHash
    pub block_height : ℕ

  pub record GasPriceView : Type 0 where
    pub gas_price : NearToken
