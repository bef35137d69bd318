-- ===== src/Examples/VariousViews.antt =====
-- examples/src/various_views.rs: the program, and the requests that it sends.
use near_fetch.Prelude.{◌∷◌, List, ◌≡◌, refl, sym, ap, ◌∙◌}
use mathlib.Core.Path.{subst}
use near_fetch.Near.{Near, value}
use near_fetch.Near.Views.{BlockView}
use near_fetch.Near.Requests.{
  Method, RpcGasPriceRequest, RpcQueryRequest, RpcBlockRequest, QueryRequest,
}
use near_fetch.Error.{Result, ok}
use near_fetch.Effects.{Event, called, Net, State, M}
use near_fetch.Effects.Laws.{ok_injective}
use near_fetch.Client.{Client, connect_to}
use near_fetch.Query.{into_future}
use near_fetch.Query.Methods as Methods
use near_fetch.Query.Methods.{view_block_query, gas_price_query, view_access_key_list_query}
use near_fetch.Query.Views.{view_block, view_access_keys, gas_price}
use near_fetch.Query.Chunk.{view_chunk, block_hash_and_shard, fetch_chunk}
use near_fetch.Query.Send.{SameCells}
use near_fetch.Query.Traffic.{
  block_request, asks_block, asks_chunk, first_shard, Asks, fetch_chunk-Asks,
}
use near_fetch.Query.Answered.{Answered-log}
use near_fetch.Examples.{Outside, account, Main, Exit, done, finish, ◌>>=◌, await, parse}
use near_fetch.Examples.Laws.{>>=-eq-done, query-eq-done, await-eq-done, parse-eq-done}

module _ ⦃near : Near⦄ ⦃net : Net⦄ ⦃outside : Outside⦄ where
  unfoldable pub various_views : Main (Unit {0})
  unfolding connect_to into_future fetch_chunk view_block view_chunk block_hash_and_shard gas_price
      view_access_keys
  various_views = do
    client ← await (connect_to "https://rpc.testnet.near.org")
    block ← await (into_future ⦃p = view_block_query⦄ (view_block client))
    let shard_id = near.shard_from 0
    _ ← await (fetch_chunk (block_hash_and_shard block.header.hash shard_id (view_chunk client)))
    _ ← await (into_future ⦃p = gas_price_query⦄ (gas_price client))
    testnet_id ← parse account (outside.parse_account "testnet")
    _ ← await (into_future ⦃p = view_access_key_list_query⦄ (view_access_keys client testnet_id))
    finish tt

  abbrev asks_gas : Client → RpcGasPriceRequest → Event
  asks_gas c r = called Method.gas_price c.rpc_client r

  abbrev asks_keys : Client → near.AccountId → Event
  asks_keys c id =
      called Method.query c.rpc_client
        (record { block_reference = net.latest; request = QueryRequest.view_access_key_list id })

  SameCells-trans : {s t u : State} → SameCells s t → SameCells t u → SameCells s u
  SameCells-trans first second = record {
    fresh = second.fresh ∙ first.fresh;
    nonces = second.nonces ∙ first.nonces;
    counters = second.counters ∙ first.counters;
  }

  -- The rest of the program, by what it has.
  abbrev with_testnet : Client → near.AccountId → Main (Unit {0})
  with_testnet c id = do
    _ ← await (into_future ⦃p = view_access_key_list_query⦄ (view_access_keys c id))
    finish tt

  abbrev with_price : Client → near.NearToken → Main (Unit {0})
  with_price c price = parse account (outside.parse_account "testnet") >>= with_testnet c

  abbrev with_chunk : Client → near.ChunkView → Main (Unit {0})
  with_chunk c chunk = await (into_future ⦃p = gas_price_query⦄ (gas_price c)) >>= with_price c

  abbrev query_chunk : Client → BlockView → M near.ChunkView
  query_chunk c block =
      fetch_chunk (block_hash_and_shard block.header.hash (near.shard_from 0) (view_chunk c))

  abbrev with_block : Client → BlockView → Main (Unit {0})
  with_block c block = await (query_chunk c block) >>= with_chunk c

  abbrev with_client : Client → Main (Unit {0})
  with_client c = await (into_future ⦃p = view_block_query⦄ (view_block c)) >>= with_block c

  -- What the parts of the program ask for, from `s` to `t`.
  module _ (c : Client) (s t : State) where
    pub record Lists : Type 0 where
      pub testnet : near.AccountId
      pub parsed : outside.parse_account "testnet" ≡ value testnet
      pub log : t.trace ≡ asks_keys c testnet ∷ s.trace
      pub cells : SameCells s t

    pub record Prices : Type 0 where
      pub testnet : near.AccountId
      pub price : RpcGasPriceRequest
      pub parsed : outside.parse_account "testnet" ≡ value testnet
      pub priced : gas_price_query.into_request Methods.gas_price net.latest ≡ ok price
      pub log : t.trace ≡ asks_keys c testnet ∷ asks_gas c price ∷ s.trace
      pub cells : SameCells s t

    pub record Views : Type 0 where
      pub testnet : near.AccountId
      pub price : RpcGasPriceRequest
      pub block : BlockView
      pub parsed : outside.parse_account "testnet" ≡ value testnet
      pub priced : gas_price_query.into_request Methods.gas_price net.latest ≡ ok price
      pub answered : (net.call Method.block c.rpc_client block_request s.world).0 ≡ value block
      pub log :
          t.trace
          ≡ asks_keys c testnet
            ∷ asks_gas c price
            ∷ asks_chunk c (first_shard block)
            ∷ asks_block c
            ∷ s.trace
      pub cells : SameCells s t

  with_price-Lists :
      (c : Client) (price : near.NearToken) (s t : State)
      → with_price c price s ≡ (done tt, t)
      → Lists c s t
  unfolding view_access_keys
  with_price-Lists c price s t e =
      let (id, s1, e1, e2) =
        >>=-eq-done (with_testnet c) (parse account (outside.parse_account "testnet")) s e in
      let (parsed, same) = parse-eq-done account (outside.parse_account "testnet") s e1 in
      let (keys, s2, asked, e3) =
        query-eq-done view_access_key_list_query (view_access_keys c id) (λ _. finish tt) s1 e2 in
      let request : RpcQueryRequest = record {
        block_reference = net.latest;
        request = QueryRequest.view_access_key_list id;
      } in
      let end : s2 ≡ t = ap (λ (p : Exit (Unit {0}) × State). p.1) e3 in
      let log =
        Answered-log view_access_key_list_query (view_access_keys c id) s1 s2 keys request asked
          refl in
      record {
        testnet = id;
        parsed = parsed;
        log =
            ap (λ (u : State). u.trace) (sym end)
            ∙ log
            ∙ ap (λ (u : State). asks_keys c id ∷ u.trace) (sym same);
        cells = subst (SameCells s) end (subst (λ u. SameCells u s2) (sym same) asked.cells);
      }

  with_chunk-Prices :
      (c : Client) (chunk : near.ChunkView) (s t : State)
      → with_chunk c chunk s ≡ (done tt, t)
      → Prices c s t
  unfolding gas_price
  with_chunk-Prices c chunk s t e =
      let (price, s1, asked, e1) = query-eq-done gas_price_query (gas_price c) (with_price c) s e in
      let lists = with_price-Lists c price s1 t e1 in
      record {
        testnet = lists.testnet;
        price = asked.request;
        parsed = lists.parsed;
        priced = asked.made;
        log = lists.log ∙ ap (λ (es : List Event). asks_keys c lists.testnet ∷ es) asked.log;
        cells = SameCells-trans asked.cells lists.cells;
      }

  -- the query of the chunk, whatever it returns
  chunk_asked :
      (c : Client) (block : BlockView) (s t : State) {r : Result near.ChunkView}
      → fetch_chunk (block_hash_and_shard block.header.hash (near.shard_from 0) (view_chunk c)) s
        ≡ (r, t)
      → Asks (asks_chunk c (first_shard block) ∷ s.trace) s t
  unfolding block_hash_and_shard view_chunk
  chunk_asked c block s t {r} e =
      let asks =
        fetch_chunk-Asks (block_hash_and_shard block.header.hash (near.shard_from 0) (view_chunk c))
          s in
      rw (ap (λ (p : Result near.ChunkView × State). p.1) e) at asks

  with_client-Views : (c : Client) (s t : State) → with_client c s ≡ (done tt, t) → Views c s t
  unfolding view_block
  with_client-Views c s t e =
      let (block, s1, asked, e1) =
        query-eq-done view_block_query (view_block c) (with_block c) s e in
      let (chunk, s2, e2, e3) = >>=-eq-done (with_chunk c) (await (query_chunk c block)) s1 e1 in
      let shard = chunk_asked c block s1 s2 (await-eq-done (query_chunk c block) s1 e2) in
      let prices = with_chunk-Prices c chunk s2 t e3 in
      let request : asked.request ≡ block_request = ok_injective (sym asked.made) in
      record {
        testnet = prices.testnet;
        price = prices.price;
        block = block;
        parsed = prices.parsed;
        priced = prices.priced;
        answered =
            ap (λ (r : RpcBlockRequest). (net.call Method.block c.rpc_client r s.world).0)
              (sym request)
            ∙ asked.answered
            ∙ ap value (ok_injective asked.read);
        log =
            prices.log
            ∙ ap (λ (es : List Event). asks_keys c prices.testnet ∷ asks_gas c prices.price ∷ es)
                (shard.log
                  ∙ ap (λ (es : List Event). asks_chunk c (first_shard block) ∷ es)
                      (Answered-log view_block_query (view_block c) s s1 block block_request asked
                        refl));
        cells = SameCells-trans (SameCells-trans asked.cells shard.cells) prices.cells;
      }

  -- The program, when it ends well, has connected, and then asks in turn for the latest block, for
  -- the chunk of that block's shard 0, for the gas price and for the access keys of `testnet`, and
  -- for nothing else; once connected it writes no shared cell.
  pub various_views-Views :
      (s t : State)
      → various_views s ≡ (done tt, t)
      → (c : Client) × (u : State) × (connect_to "https://rpc.testnet.near.org" s ≡ (ok c, u))
        × Views c u t
  unfolding various_views
  various_views-Views s t e =
      let connect = connect_to "https://rpc.testnet.near.org" in
      let (c, u, connected, rest) = >>=-eq-done with_client (await connect) s e in
      (c, u, await-eq-done connect s connected, with_client-Views c u t rest)
