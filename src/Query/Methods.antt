-- ===== src/Query/Methods.antt =====
-- near-fetch/src/query.rs: the types that stand for the kinds of queries, `ViewResult`, and their
-- implementations of `ProcessQuery`.
use near_fetch.Prelude.{ℕ, String, List, [], Option, none, some, false}
use near_fetch.Near.{Near}
use near_fetch.Near.Views.{QueryResponseKind, CallResult, AccessKeyView, BlockView}
use near_fetch.Near.Requests.{
  Method, BlockReference, block_id, finality, sync_checkpoint, QueryRequest, RpcQueryRequest,
}
use near_fetch.Error.{Result, ok, err, ◌>>=◌, rpc_returned_invalid_data}
use near_fetch.Ops.Function.{Function}
use near_fetch.Query.{ProcessQuery}

module _ ⦃near : Near⦄ where
  open near use {AccountId, PublicKey}

  pub record ViewFunction : Type 0 where
    pub account_id : AccountId
    pub function : Function

  pub record ViewCode : Type 0 where
    pub account_id : AccountId

  pub record ViewAccount : Type 0 where
    pub account_id : AccountId

  pub data ViewBlock : Type 0 where
    view_block : ViewBlock

  pub record ViewState : Type 0 where
    pub account_id : AccountId
    pub prefix : Option (List ℕ)

  pub record ViewAccessKey : Type 0 where
    pub account_id : AccountId
    pub public_key : PublicKey

  pub record ViewAccessKeyList : Type 0 where
    pub account_id : AccountId

  pub data GasPrice : Type 0 where
    gas_price : GasPrice

  pub record ViewResult : Type 0 where
    pub result : List ℕ
    pub logs : List String

  -- `impl From<CallResult> for ViewResult`
  unfoldable pub view_result_from : CallResult → ViewResult
  view_result_from r = record { result = r.result; logs = r.logs }

  -- A query by `RpcQueryRequest`.
  abbrev pub ask : BlockReference → QueryRequest → Result RpcQueryRequest
  ask b r = ok (record { block_reference = b; request = r })

  instance unfoldable pub view_function_query : ProcessQuery ViewFunction ViewResult
  unfolding view_result_from
  view_function_query = record {
    method = Method.query;
    into_request = λ v b. v.function.args >>= λ args.
        ask b (QueryRequest.call_function v.account_id v.function.name args);
    from_response = λ resp. elim resp.kind [
      | QueryResponseKind.call_result result ↦ ok (view_result_from result)
      | _ ↦ err (rpc_returned_invalid_data "while querying account")
    ];
  }

  instance abbrev pub view_code_query : ProcessQuery ViewCode (List ℕ)
  view_code_query = record {
    method = Method.query;
    into_request = λ v b. ask b (QueryRequest.view_code v.account_id);
    from_response = λ resp. elim resp.kind [
      | QueryResponseKind.view_code contract ↦ ok contract.code
      | _ ↦ err (rpc_returned_invalid_data "while querying code")
    ];
  }

  instance abbrev pub view_account_query : ProcessQuery ViewAccount near.AccountView
  view_account_query = record {
    method = Method.query;
    into_request = λ v b. ask b (QueryRequest.view_account v.account_id);
    from_response = λ resp. elim resp.kind [
      | QueryResponseKind.view_account account ↦ ok account
      | _ ↦ err (rpc_returned_invalid_data "while querying account")
    ];
  }

  instance abbrev pub view_block_query : ProcessQuery ViewBlock BlockView
  view_block_query = record {
    method = Method.block;
    into_request = λ _ b. ok (record { block_reference = b });
    from_response = λ view. ok view;
  }

  -- `prefix.unwrap_or_default()`
  abbrev pub or_empty : Option (List ℕ) → List ℕ
  or_empty none = []
  or_empty (some p) = p

  instance abbrev pub view_state_query : ProcessQuery ViewState near.ViewStateResult
  view_state_query = record {
    method = Method.query;
    into_request =
        λ v b. ask b (QueryRequest.view_state v.account_id (or_empty v.prefix) none none false);
    from_response = λ resp. elim resp.kind [
      | QueryResponseKind.view_state state ↦ ok state
      | _ ↦ err (rpc_returned_invalid_data "while querying state")
    ];
  }

  instance abbrev pub view_access_key_query : ProcessQuery ViewAccessKey AccessKeyView
  view_access_key_query = record {
    method = Method.query;
    into_request = λ v b. ask b (QueryRequest.view_access_key v.account_id v.public_key);
    from_response = λ resp. elim resp.kind [
      | QueryResponseKind.access_key key ↦ ok key
      | _ ↦ err (rpc_returned_invalid_data "while querying access key")
    ];
  }

  instance abbrev pub view_access_key_list_query : ProcessQuery ViewAccessKeyList near.AccessKeyList
  view_access_key_list_query = record {
    method = Method.query;
    into_request = λ v b. ask b (QueryRequest.view_access_key_list v.account_id);
    from_response = λ resp. elim resp.kind [
      | QueryResponseKind.access_key_list keylist ↦ ok keylist
      | _ ↦ err (rpc_returned_invalid_data "while querying access keys")
    ];
  }

  instance abbrev pub gas_price_query : ProcessQuery GasPrice near.NearToken
  gas_price_query = record {
    method = Method.gas_price;
    into_request = λ _ b. elim b [
      | block_id id ↦ ok (record { block_id = some id })
      | finality _ ↦ ok (record { block_id = none })
      | sync_checkpoint point ↦ err (rpc_returned_invalid_data (near.checkpoint_message point))
    ];
    from_response = λ resp. ok resp.gas_price;
  }
