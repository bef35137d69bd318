-- ===== src/Query/Choice.antt =====
-- near-fetch/src/query.rs: the block that a query asks about.
use near_fetch.Prelude.{none, some, ◌≡◌}
use near_fetch.Near.{Near}
use near_fetch.Near.Requests.{
  Method, query, block, gas_price, Request, BlockReference, block_id, finality, sync_checkpoint,
}
use near_fetch.Error.{ok}
use near_fetch.Query.{ProcessQuery}
use near_fetch.Query.Methods.{
  view_function_query, view_code_query, view_account_query, view_block_query, view_state_query,
  view_access_key_query, view_access_key_list_query, gas_price_query,
}

module _ ⦃near : Near⦄ where
  -- The request is about the block; one for the gas price names a block, or none for a finality.
  abbrev pub IsAbout : (m : Method) → Request m → BlockReference → Type 0
  IsAbout query r b = r.block_reference ≡ b
  IsAbout block r b = r.block_reference ≡ b
  IsAbout gas_price r (block_id id) = r.block_id ≡ some id
  IsAbout gas_price r (finality _) = r.block_id ≡ none
  IsAbout gas_price r (sync_checkpoint _) = ⊥
  IsAbout _ _ _ = ⊥

  -- Every request of this kind of query is about the block that it is made for.
  abbrev pub Respects : {T R : Type 0} → ProcessQuery T R → Type 0
  Respects {T} p =
      (v : T) (b : BlockReference) (request : Request p.method)
      → p.into_request v b ≡ ok request
      → IsAbout p.method request b

  abbrev pub AllRespect : Type 0
  AllRespect =
      Respects view_function_query
      × Respects view_code_query
      × Respects view_account_query
      × Respects view_block_query
      × Respects view_state_query
      × Respects view_access_key_query
      × Respects view_access_key_list_query
      × Respects gas_price_query
