-- ===== src/Ops/Function.antt =====
-- near-fetch/src/ops.rs: `Function`, the name, arguments, deposit and gas of a function call.
-- A failure to serialise the arguments is kept in the field `args` until the call is sent.
use near_fetch.Prelude.{String, List, [], ℕ}
use near_fetch.Near.{Near, Except, value, error}
use near_fetch.Near.Requests.{FunctionCallAction}
use near_fetch.Error.{Result, ok, err, panic, serialization, io, ◌>>=◌}
use near_fetch.Ops.Constants

module _ ⦃near : Near⦄ where
  open near use {Gas, NearToken, SerdeError, IoError}

  pub record Function : Type 0 where
    pub name : String
    pub args : Result (List ℕ)
    pub deposit : NearToken
    pub gas : Gas

  unfoldable pub new : String → Function
  new name = record {
    name = name;
    args = ok [];
    deposit = Constants.default_call_deposit;
    gas = Constants.default_call_fn_gas;
  }

  -- the early return of `args` on a kept error
  abbrev pub keep_error : Result (List ℕ) → List ℕ → Result (List ℕ)
  keep_error (ok _) a = ok a
  keep_error (err e) _ = err e
  keep_error panic a = ok a

  unfoldable pub args : List ℕ → Function → Function
  args a f = record f { args = keep_error f.args a }

  -- `to_vec` is `serde_json::to_vec`
  unfoldable pub args_json :
      {U : Type 0} → (U → Except SerdeError (List ℕ)) → U → Function → Function
  args_json to_vec u f = elim (to_vec u) [
    | value a ↦ record f { args = ok a }
    | error e ↦ record f { args = err (serialization e) }
  ]

  -- `to_vec` is `borsh::to_vec`
  unfoldable pub args_borsh : {U : Type 0} → (U → Except IoError (List ℕ)) → U → Function → Function
  args_borsh to_vec u f = elim (to_vec u) [
    | value a ↦ record f { args = ok a }
    | error e ↦ record f { args = err (io e) }
  ]

  unfoldable pub deposit : NearToken → Function → Function
  deposit d f = record f { deposit = d }

  unfoldable pub gas : Gas → Function → Function
  gas g f = record f { gas = g }

  unfoldable pub max_gas : Function → Function
  unfolding gas
  max_gas f = gas Constants.max_gas f

  unfoldable pub into_action : Function → Result FunctionCallAction
  into_action f = do
    a ← f.args
    ok (record { args = a; method_name = f.name; gas = f.gas; deposit = f.deposit })
