-- ===== src/Examples/SocialCall.antt =====
-- examples/src/social_call.rs: the program, and how many transactions it sends.
use near_fetch.Prelude.{ℕ, String, List, [], ◌∷◌, ◌+◌, ◌≤◌, Bool, true, none, ◌≡◌, refl, arith}
use near_fetch.Near.{Near}
use near_fetch.Near.Requests.{Request}
use near_fetch.Error.{Result, ok, err, panic}
use near_fetch.Effects.{Net, State, M, pure, lift, called}
use near_fetch.Effects.Sends as Sends
use near_fetch.Effects.Sends.{counts, sends}
use near_fetch.Signer.{SignerExt, plain_signer}
use near_fetch.Client.{Client, connect_to}
use near_fetch.Signer.Lawful.{IsLawful, plain_signer-IsLawful}
use near_fetch.Query.{ProcessQuery, Query, into_future}
use near_fetch.Query.Send.{after_request, into_future-after_request}
use near_fetch.Query.Methods.{ViewFunction, ViewResult, view_function_query}
use near_fetch.Query.Views as Views
use near_fetch.Ops.Call as Call
use near_fetch.Ops.Call.{FunctionCallTransaction, awaited}
use near_fetch.Ops.Retry.{Retry}
use near_fetch.Ops.Retryable as Retryable
use near_fetch.Ops.Retryable.{RetryableTransaction, start_with}
use near_fetch.Execution.{ExecutionFinalResult, from_view}
use near_fetch.Client.Send.{send_tx_once}
use near_fetch.Client.Traffic.{send_tx_once-AtMost}
use near_fetch.Examples.Laws as Laws
use near_fetch.Examples.{Outside, account, key, Main, finish, ◌>>=◌, await, parse}

module _ ⦃near : Near⦄ ⦃outside : Outside⦄ where
  -- `json!({ "keys": [..] })` and `json!({ "data": { my_id: { "test": { "input": .. } } } })`
  abbrev pub keys_of : String → outside.Json
  keys_of my_id =
      outside.object (("keys", outside.array (outside.string (outside.profile_of my_id) ∷ [])) ∷ [])

  abbrev pub data_of : String → outside.Json
  data_of my_id =
      let input : String × outside.Json =
        ("input", outside.string "Hello from near_fetch client") in
      let test : String × outside.Json = ("test", outside.object (input ∷ [])) in
      let mine : String × outside.Json = (my_id, outside.object (test ∷ [])) in
      outside.object (("data", outside.object (mine ∷ [])) ∷ [])

module _ ⦃near : Near⦄ ⦃net : Net⦄ ⦃outside : Outside⦄ ⦃r : Retry⦄ where
  unfoldable pub social_call : Main (Unit {0})
  unfolding connect_to into_future Views.view Views.args_json Call.call Call.args_json Call.transact
  social_call = do
    client ← await (connect_to "https://rpc.mainnet.near.org")
    let my_id : String = "chaotictempest.near"
    let sk : String =
        "Insert your secret key here. Please do not commit your secret key to git! This is just an example"
    id ← parse account (outside.parse_account my_id)
    secret ← parse key (outside.parse_key sk)
    let signer : SignerExt = plain_signer (net.from_secret_key id secret)
    social ← parse account (outside.parse_account "social.near")
    _ ← await (
        into_future ⦃p = view_function_query⦄
          (Views.args_json outside.to_vec (keys_of my_id) (Views.view client social "get")))
    _ ← await (
        Call.transact
          (Call.args_json outside.to_vec (data_of my_id) (Call.call client signer social "set")))
    finish tt

module _ ⦃near : Near⦄ ⦃net : Net⦄ where
  after_request-AtMost :
      {T R : Type 0} (p : ProcessQuery T R) (q : Query T) (made : Result (Request p.method))
      (s : State)
      → ((c : near.JsonRpcClient) (x : Request p.method) → counts (called p.method c x) ≡ 0)
      → sends (after_request p q made s).1.trace ≤ sends s.trace + 0
  after_request-AtMost p q (ok x) s reads = omega (arith, reads q.client.rpc_client x)
  after_request-AtMost p q (err e) s reads = omega arith
  after_request-AtMost p q panic s reads = omega arith

  view-AtMost : (q : Query ViewFunction) → Sends.AtMost 0 (into_future ⦃p = view_function_query⦄ q)
  unfolding view_function_query
  view-AtMost q s =
      rw (into_future-after_request view_function_query q s)
        (after_request-AtMost view_function_query q _ s (λ c x. refl))

  connect_to-AtMost : (addr : String) → Sends.AtMost 0 (connect_to addr)
  unfolding connect_to
  connect_to-AtMost addr s = omega arith

  module _ ⦃r : Retry⦄ {verify : near.PublicKey → List ℕ → near.Signature → Bool} where
    single-AtMost :
        (t : RetryableTransaction)
        → IsLawful verify t.signer
        → t.strategy ≡ none
        → Sends.AtMost 1 (Retryable.into_future t)
    unfolding Retryable.into_future
    single-AtMost t lawful once =
        Sends.>>=-AtMost 0 1 (lift t.actions)
          (λ actions.
            start_with t.strategy
              (send_tx_once t.client t.signer t.receiver_id actions t.wait_until))
          (Sends.lift-AtMost t.actions 0)
          (λ actions s.
            rw once (send_tx_once-AtMost lawful t.client t.receiver_id actions t.wait_until s))

    transact-AtMost :
        (t : FunctionCallTransaction)
        → IsLawful verify t.signer
        → t.retry_strategy ≡ none
        → Sends.AtMost 1 (Call.transact t)
    unfolding Call.transact
    transact-AtMost t lawful once =
        Sends.>>=-AtMost 1 0 (Retryable.into_future (awaited t)) (λ view. pure (from_view view))
          (single-AtMost (awaited t) lawful once) (λ view s. omega arith)

module _ ⦃near : Near⦄ ⦃net : Net⦄ ⦃outside : Outside⦄ ⦃r : Retry⦄ where
  -- The rest of the program, by what it has.
  abbrev set_data : Client → SignerExt → near.AccountId → M ExecutionFinalResult
  set_data client signer social = Call.transact (
      Call.args_json outside.to_vec (data_of "chaotictempest.near")
        (Call.call client signer social "set"))

  abbrev get_profile : Client → near.AccountId → M ViewResult
  get_profile client social = into_future ⦃p = view_function_query⦄ (
      Views.args_json outside.to_vec (keys_of "chaotictempest.near")
        (Views.view client social "get"))

  abbrev with_social : Client → SignerExt → near.AccountId → Main (Unit {0})
  with_social client signer social = do
    _ ← await (get_profile client social)
    _ ← await (set_data client signer social)
    finish tt

  abbrev with_key : Client → near.AccountId → near.SecretKey → Main (Unit {0})
  with_key client id secret =
      parse account (outside.parse_account "social.near")
      >>= with_social client (plain_signer (net.from_secret_key id secret))

  abbrev secret_text : String
  secret_text =
      "Insert your secret key here. Please do not commit your secret key to git! This is just an example"

  abbrev with_id : Client → near.AccountId → Main (Unit {0})
  with_id client id = parse key (outside.parse_key secret_text) >>= with_key client id

  abbrev with_client : Client → Main (Unit {0})
  with_client client =
      parse account (outside.parse_account "chaotictempest.near") >>= with_id client

  module _ {verify : near.PublicKey → List ℕ → near.Signature → Bool} {signer : SignerExt}
      (lawful : IsLawful verify signer) (client : Client) (social : near.AccountId) where
    set_data-AtMost : Sends.AtMost 1 (set_data client signer social)
    unfolding Call.call Call.args_json
    set_data-AtMost =
        transact-AtMost
          (Call.args_json outside.to_vec (data_of "chaotictempest.near")
            (Call.call client signer social "set"))
          lawful refl

    with_social-AtMost : Laws.AtMost 1 (with_social client signer social)
    with_social-AtMost =
        Laws.>>=-AtMost 0 1 (await (get_profile client social))
          (λ _. await (set_data client signer social) >>= λ _. finish tt)
          (Laws.await-AtMost 0 (get_profile client social) (view-AtMost _))
          (λ _.
            Laws.>>=-AtMost 1 0 (await (set_data client signer social)) (λ _. finish tt)
              (Laws.await-AtMost 1 (set_data client signer social) set_data-AtMost)
              (λ _ s. omega arith))

  -- If signatures verify under their keys, the program sends one transaction at most, however it
  -- ends.
  pub social_call-AtMost :
      (verify : near.PublicKey → List ℕ → near.Signature → Bool)
      → ((i : near.InMemorySigner) (d : List ℕ)
          → verify (near.signer_public_key i) d (near.signer_sign i d) ≡ true)
      → Laws.AtMost 1 social_call
  unfolding social_call
  social_call-AtMost verify verifies =
      let connect = connect_to "https://rpc.mainnet.near.org" in
      Laws.>>=-AtMost 0 1 (await connect) with_client
        (Laws.await-AtMost 0 connect (connect_to-AtMost "https://rpc.mainnet.near.org"))
        (λ client.
          Laws.parse-AtMost 1 account (outside.parse_account "chaotictempest.near") (with_id client)
            (λ id.
              Laws.parse-AtMost 1 key (outside.parse_key secret_text) (with_key client id)
                (λ secret.
                  let signer = net.from_secret_key id secret in
                  Laws.parse-AtMost 1 account (outside.parse_account "social.near")
                    (with_social client (plain_signer signer))
                    (with_social-AtMost (plain_signer-IsLawful verify verifies signer) client))))
