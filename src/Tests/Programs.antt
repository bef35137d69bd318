-- ===== src/Tests/Programs.antt =====
-- The programs of examples/src in the small world.
use near_fetch.Prelude.{ℕ, String, [], true, ◌≡◌, refl, arith}
use near_fetch.Near.{value}
use near_fetch.Effects.{State}
use near_fetch.Error.{ok}
use near_fetch.Client.{Client, connect_to}
use near_fetch.Query.Methods.{view_block_query, gas_price_query, view_access_key_list_query}
use near_fetch.Query.Traffic.{Asks, asked, fetch_chunk-Asks}
use near_fetch.Query.Chunk.{fetch_chunk, view_chunk}
use near_fetch.Examples.{Outside, done}
use near_fetch.Examples.Laws as Laws
use near_fetch.Examples.VariousViews.{various_views, Views, various_views-Views}
use near_fetch.Examples.SocialCall.{social_call, social_call-AtMost}
use near_fetch.Tests.World.{small, small_net, fresh_state, client, verify}
use near_fetch.Tests.Sends.{retries}

-- every text is the account or the key 1
instance abbrev texts : Outside
texts = record {
  AccountError = ℕ;
  KeyError = ℕ;
  parse_account = λ text. value 1;
  parse_key = λ text. value 1;
  Json = String;
  string = λ text. text;
  array = λ values. "[]";
  object = λ fields. "{}";
  to_vec = λ v. value [];
  profile_of = λ name. name;
}

fetch_chunk-Asks_example :
    Asks
      (asked client (view_chunk client).chunk_ref fresh_state)
      fresh_state
      (fetch_chunk (view_chunk client) fresh_state).1
unfolding view_chunk
fetch_chunk-Asks_example = fetch_chunk-Asks (view_chunk client) fresh_state

abbrev views_state : State
views_state = (various_views fresh_state).1

views_done : various_views fresh_state ≡ (done tt, views_state)
unfolding various_views
views_done = refl

various_views-Views_example :
    (c : Client) × (u : State) × (connect_to "https://rpc.testnet.near.org" fresh_state ≡ (ok c, u))
    × Views c u views_state
various_views-Views_example = various_views-Views fresh_state views_state views_done

verifies : (n : ℕ) → verify n [] n ≡ true
verifies n = ground arith

social_call-AtMost_example : Laws.AtMost 1 social_call
social_call-AtMost_example = social_call-AtMost verify (λ i d. verifies i)
