-- ===== src/Tests/World.antt =====
-- A small world for the model of near-fetch: every foreign type is a type of numbers, every key
-- signs with its own number, and the node's answers depend on how many requests it has had.
use near_fetch.Prelude.{
  ℕ, zero, suc, ◌+◌, ◌==◌, if◌then◌else◌, Bool, List, [], ◌∷◌, Option, none, some, ℕ_discrete,
}
use near_fetch.Near.{Near, Except, value, error}
use near_fetch.Near.Errors.{
  JsonRpcError, server_error, transport_error, handler_error, InvalidTxError, RpcTransactionError,
  invalid_transaction, timeout_error,
}
use near_fetch.Near.Views.{
  TxExecutionStatus, ExecutionStatusView, FinalExecutionStatus, FinalExecutionOutcomeView,
  FinalExecutionOutcomeViewEnum, RpcTransactionResponse, QueryResponseKind, AccessKeyView,
}
use near_fetch.Near.Requests.{
  QueryRequest, Method, Request, Response, MethodError, BlockReference, Finality,
}
use near_fetch.Effects.{Signer, in_memory, empty, Net, State}
use near_fetch.Client.{Client}
use near_fetch.Client.Errors.{final_outcome}

abbrev next_delay : List ℕ → Option (ℕ × List ℕ)
next_delay [] = none
next_delay (d ∷ ds) = some (d, ds)

abbrev pub take_delays : ℕ → List ℕ → List ℕ
take_delays zero ds = []
take_delays (suc n) [] = []
take_delays (suc n) (d ∷ ds) = d ∷ take_delays n ds

-- an in-memory signer `n` has the account 1 and the key `n`, and signs with `n`
instance abbrev pub small : Near
small = record {
  AccountId = ℕ;
  PublicKey = ℕ;
  SecretKey = ℕ;
  InMemorySigner = ℕ;
  EmptySigner = ℕ;
  Signature = ℕ;
  VrfProof = ℕ;
  CryptoHash = ℕ;
  ShardId = ℕ;
  Gas = ℕ;
  NearToken = ℕ;
  AccessKey = ℕ;
  SyncCheckpoint = ℕ;
  SignedTransactionView = ℕ;
  AccountView = ℕ;
  ViewStateResult = ℕ;
  AccessKeyList = ℕ;
  ChunkView = ℕ;
  Connector = ℕ;
  JsonRpcClient = ℕ;
  RpcBlockError = ℕ;
  RpcQueryError = ℕ;
  RpcChunkError = ℕ;
  RpcGasPriceError = ℕ;
  RpcBroadcastTxAsyncError = ℕ;
  SerdeError = ℕ;
  IoError = ℕ;
  DecodeError = ℕ;
  Opaque = ℕ;
  Duration = ℕ;
  Strategy = List ℕ;
  account_eq = ℕ_discrete;
  key_eq = ℕ_discrete;
  signer_account_id = λ i. 1;
  signer_public_key = λ i. i;
  signer_sign = λ i d. i;
  shard_from = λ n. n;
  gas_from_teragas = λ n. n;
  gas_from_gas = λ n. n;
  as_gas = λ n. n;
  token_from_near = λ n. n;
  new_client = 0;
  connect = λ n addr. n;
  server_addr = λ c. "http://localhost";
  encode = λ b. "AQI=";
  decode = λ t. value (1 ∷ 2 ∷ []);
  checkpoint_message = λ c. "unexpected checkpoint";
  from_millis = λ n. n;
  jittered_backoff = λ n. n ∷ (n + n) ∷ (n + n + n) ∷ [];
  take = take_delays;
  next = next_delay;
}

abbrev pub executed_outcome : FinalExecutionOutcomeView
executed_outcome = record {
  status = FinalExecutionStatus.success_value (1 ∷ 2 ∷ []);
  transaction = 4;
  transaction_outcome = record {
    outcome = record {
      logs = "a" ∷ [];
      gas_burnt = 20;
      status = ExecutionStatusView.other 0;
      rest = 0;
    };
    rest = 0;
  };
  receipts_outcome =
      record {
        outcome = record {
          logs = "b" ∷ [];
          gas_burnt = 22;
          status = ExecutionStatusView.other 0;
          rest = 0;
        };
        rest = 0;
      }
      ∷ [];
}

abbrev pub executed : RpcTransactionResponse
executed = record {
  final_execution_outcome =
      some (FinalExecutionOutcomeViewEnum.final_execution_outcome executed_outcome);
  final_execution_status = TxExecutionStatus.other 0;
}

abbrev pub wrong_nonce : JsonRpcError RpcTransactionError
wrong_nonce = server_error (handler_error (invalid_transaction (InvalidTxError.invalid_nonce 0) 0))

abbrev pub timed_out : JsonRpcError RpcTransactionError
timed_out = server_error (handler_error timeout_error)

abbrev pub chain_key : AccessKeyView
chain_key = record { nonce = 7; rest = 0 }

abbrev pub unreachable : JsonRpcError ℕ
unreachable = transport_error 0

abbrev kind_of : QueryRequest → QueryResponseKind
kind_of (QueryRequest.view_access_key_list _) = QueryResponseKind.access_key_list 0
kind_of (QueryRequest.call_function _ _ _) =
    QueryResponseKind.call_result (record { result = []; logs = [] })
kind_of _ = QueryResponseKind.access_key chain_key

-- The second request of all is refused if it sends a transaction, the first one times out if it
-- asks for a status, and the sixth one fails if it is a query of the state.
abbrev answer_of : (m : Method) → Request m → ℕ → Except (JsonRpcError (MethodError m)) (Response m)
answer_of Method.query r w =
    if w == 5
    then error unreachable
    else value (record { kind = kind_of r.request; block_hash = 5; block_height = 9 })
answer_of Method.block r w =
    value (record { header = record { hash = 6; height = 10; rest = 0 }; rest = 0 })
answer_of Method.chunk r w = value 0
answer_of Method.gas_price r w = value (record { gas_price = 3 })
answer_of Method.send_tx r w = if w == 1 then error wrong_nonce else value executed
answer_of Method.tx r w = if w == 0 then error timed_out else value executed

abbrev pub key_number : Signer → ℕ
key_number (in_memory i) = i
key_number (empty i) = i

instance abbrev pub small_net : Net
small_net = record {
  World = ℕ;
  call = λ m c r w. (answer_of m r w, w + 1);
  pass = λ d w. w;
  default_status = TxExecutionStatus.other 1;
  into_outcome = final_outcome;
  latest = BlockReference.finality (Finality.other 0);
  hash_bytes = λ tx. tx.nonce ∷ [];
  get_hash = λ tx. tx.transaction.nonce;
  from_secret_key = λ id sk. in_memory sk;
  public_key_of = key_number;
  sign_with = λ i d. key_number i;
  vrf_with = λ i d. key_number i;
}

-- a signature is the number of its key
abbrev pub verify : ℕ → List ℕ → ℕ → Bool
verify pk d signature = pk == signature

abbrev pub client : Client
client = record { rpc_client = 0; access_key_nonces = 0 }

-- the cell 0 is the client's cache, the cell 1 a signer's counter
abbrev pub fresh_state : State
fresh_state = record { fresh = 2; nonces = λ i. []; counters = λ i. 0; trace = []; world = 0 }

-- the same after five requests
abbrev pub broken_state : State
broken_state = record fresh_state { world = 5 }

-- the key 2 of the account 1 is cached at 41
abbrev pub warm_state : State
warm_state = record {
  fresh = 2;
  nonces = λ i. ((1, 2), 41) ∷ [];
  counters = λ i. 0;
  trace = [];
  world = 0;
}
