-- ===== src/Query/Views.antt =====
-- near-fetch/src/query.rs: the methods `Client::view_..` and `Client::gas_price`, the builder
-- methods of one kind of query, and reading a `ViewResult`.
use near_fetch.Prelude.{ℕ, String, List, none, some}
use near_fetch.Near.{Near, Except}
use near_fetch.Error.{Result, map_err, serialization, io}
use near_fetch.Client.{Client}
use near_fetch.Ops.Function as Function
use near_fetch.Near.Views.{BlockView}
use near_fetch.Effects.{Net, M}
use near_fetch.Query.{Query, new, into_future}
use near_fetch.Query.Methods
use near_fetch.Query.Methods.{
  view_block_query, ViewFunction, ViewCode, ViewAccount, ViewBlock, ViewState, ViewAccessKey,
  ViewAccessKeyList, GasPrice, ViewResult,
}

module _ ⦃near : Near⦄ where
  open near use {AccountId, PublicKey, SerdeError, IoError}

  unfoldable pub view : Client → AccountId → String → Query ViewFunction
  unfolding new Function.new
  view c contract_id function =
      new c (record { account_id = contract_id; function = Function.new function })

  unfoldable pub view_code : Client → AccountId → Query ViewCode
  unfolding new
  view_code c contract_id = new c (record { account_id = contract_id })

  -- `Query::view_state`, which `Client::view_state` calls
  unfoldable pub view_state : Client → AccountId → Query ViewState
  unfolding new
  view_state c id = new c (record { account_id = id; prefix = none })

  unfoldable pub view_block : Client → Query ViewBlock
  unfolding new
  view_block c = new c Methods.view_block

  unfoldable pub view_access_key : Client → AccountId → PublicKey → Query ViewAccessKey
  unfolding new
  view_access_key c id pk = new c (record { account_id = id; public_key = pk })

  unfoldable pub view_access_keys : Client → AccountId → Query ViewAccessKeyList
  unfolding new
  view_access_keys c id = new c (record { account_id = id })

  unfoldable pub view_account : Client → AccountId → Query ViewAccount
  unfolding new
  view_account c account_id = new c (record { account_id = account_id })

  unfoldable pub gas_price : Client → Query GasPrice
  unfolding new
  gas_price c = new c Methods.gas_price

  -- `Query::<ViewState>::prefix`
  unfoldable pub prefix : List ℕ → Query ViewState → Query ViewState
  prefix value q = record q { method = record (q.method) { prefix = some value } }

  abbrev with_function :
      (Function.Function → Function.Function) → Query ViewFunction → Query ViewFunction
  with_function f q = record q { method = record (q.method) { function = f q.method.function } }

  -- `args`, `args_json` and `args_borsh` of `Query<ViewFunction>`
  unfoldable pub args : List ℕ → Query ViewFunction → Query ViewFunction
  args a = with_function (Function.args a)

  unfoldable pub args_json :
      {U : Type 0} → (U → Except SerdeError (List ℕ)) → U → Query ViewFunction → Query ViewFunction
  args_json to_vec u = with_function (Function.args_json to_vec u)

  unfoldable pub args_borsh :
      {U : Type 0} → (U → Except IoError (List ℕ)) → U → Query ViewFunction → Query ViewFunction
  args_borsh to_vec u = with_function (Function.args_borsh to_vec u)

  module _ {T : Type 0} where
    -- `ViewResult::json`, over `serde_json::from_slice`
    unfoldable pub json : (List ℕ → Except SerdeError T) → ViewResult → Result T
    json from_slice v = map_err serialization (from_slice v.result)

    -- `ViewResult::borsh`, over `BorshDeserialize::try_from_slice`
    unfoldable pub borsh : (List ℕ → Except IoError T) → ViewResult → Result T
    borsh try_from_slice v = map_err io (try_from_slice v.result)

  module _ ⦃net : Net⦄ where
    -- `client.view_block().await`
    unfoldable pub latest_block : Client → M BlockView
    unfolding view_block into_future
    latest_block c = into_future (view_block c)
