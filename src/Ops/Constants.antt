-- ===== src/Ops/Constants.antt =====
-- near-fetch/src/ops.rs: the constants `MAX_GAS`, `DEFAULT_CALL_FN_GAS`, `DEFAULT_CALL_DEPOSIT`.
use near_fetch.Near.{Near}

module _ ⦃near : Near⦄ where
  abbrev pub max_gas : near.Gas
  max_gas = near.gas_from_teragas 300

  abbrev pub default_call_fn_gas : near.Gas
  default_call_fn_gas = near.gas_from_teragas 10

  abbrev pub default_call_deposit : near.NearToken
  default_call_deposit = near.token_from_near 0
