-- ===== src/Effects.antt =====
-- What the asynchronous code does besides computing: it asks the network, sleeps, and reads and
-- writes cells that several values share (`Arc<RwLock<HashMap<CacheKey, AtomicU64>>>` of
-- near-fetch/src/lib.rs, `Arc<AtomicUsize>` of near-fetch/src/signer.rs). A function runs from one
-- state to the next; interleavings of tasks are the subject of Tasks.antt.
pub mod Laws
pub mod Sends
use near_fetch.Prelude.{ℕ, List, ◌∷◌, ◌==◌, if◌then◌else◌}
use near_fetch.Near.{Near, Except}
use near_fetch.Near.Errors.{JsonRpcError}
use near_fetch.Near.Views.{
  TxExecutionStatus, FinalExecutionOutcomeViewEnum, FinalExecutionOutcomeView,
}
use near_fetch.Near.Requests.{
  Method, Request, Response, MethodError, TransactionV0, SignedTransaction, BlockReference,
}
use near_fetch.Error.{Result, ok, err, panic}

-- `near_crypto::Signer`
pub data Signer ⦃near : Near⦄ : Type 0 where
  in_memory : near.InMemorySigner → Signer
  empty : near.EmptySigner → Signer

-- The network and the clock: `call` is `JsonRpcClient::call`, whose answer may depend on all that
-- happened before, and `pass` is what goes on in the world during a sleep. Then functions of the
-- other crates over data types of Near/.
pub record Net ⦃near : Near⦄ : Type 1 where
  pub World : Type 0
  pub call :
      (m : Method)
      → near.JsonRpcClient
      → Request m
      → World
      → Except (JsonRpcError (MethodError m)) (Response m) × World
  pub pass : near.Duration → World → World
  -- `TxExecutionStatus::default`, `FinalExecutionOutcomeViewEnum::into_outcome`
  pub default_status : TxExecutionStatus
  pub into_outcome : FinalExecutionOutcomeViewEnum → FinalExecutionOutcomeView
  -- `BlockReference::latest`
  pub latest : BlockReference
  -- `tx.get_hash_and_size().0.as_ref()`, `SignedTransaction::get_hash`
  pub hash_bytes : TransactionV0 → List ℕ
  pub get_hash : SignedTransaction → near.CryptoHash
  -- `InMemorySigner::from_secret_key`, and the inherent methods of `near_crypto::Signer`
  pub from_secret_key : near.AccountId → near.SecretKey → Signer
  pub public_key_of : Signer → near.PublicKey
  pub sign_with : Signer → List ℕ → near.Signature
  pub vrf_with : Signer → List ℕ → near.VrfProof

-- one cell of a store is written
abbrev pub update {ℓ} : {A : Type ℓ} → (ℕ → A) → ℕ → A → ℕ → A
update f i a j = if i == j then a else f j

module _ ⦃near : Near⦄ where
  open near use {AccountId, PublicKey, JsonRpcClient, Duration, account_eq, key_eq}

  -- `pub type CacheKey = (AccountId, PublicKey)`
  abbrev pub CacheKey : Type 0
  CacheKey = AccountId × PublicKey

  -- the derived equality of a pair
  unfoldable pub cache_key_eq : Discrete CacheKey
  cache_key_eq (a, p) (b, q) = elim (account_eq a b) [
    | yes e ↦ elim (key_eq p q) [
      | yes f ↦ yes (λ i. (e i, f i))
      | no ne ↦ no (λ r. ne (λ i. (r i).1))
    ]
    | no ne ↦ no (λ r. ne (λ i. (r i).0))
  ]

  abbrev pub Nonces : Type 0
  Nonces = List (CacheKey × ℕ)

  -- What the program did that can be seen from outside.
  pub data Event : Type 0 where
    called : (m : Method) → JsonRpcClient → Request m → Event
    slept : Duration → Event

  module _ ⦃net : Net⦄ where
    -- `Arc` cells are named by numbers; a number below `fresh` is taken. `trace` has the latest
    -- event first.
    pub record State : Type 0 where
      pub fresh : ℕ
      pub nonces : ℕ → Nonces
      pub counters : ℕ → ℕ
      pub trace : List Event
      pub world : net.World

    abbrev pub M : Type 0 → Type 0
    M A = State → Result A × State

    abbrev pub pure : {A : Type 0} → A → M A
    pure a s = (ok a, s)

    abbrev pub throw : {A : Type 0} → M A
    throw s = (panic, s)

    -- an ordinary `Result` at the end of an asynchronous function, or under `?`
    abbrev pub lift : {A : Type 0} → Result A → M A
    lift r s = (r, s)

    infixl 5 ◌>>=◌ ◌>>◌
    abbrev pub ◌>>=◌ : {A B : Type 0} → M A → (A → M B) → M B
    ◌>>=◌ m f s =
        let (r, s') = m s in elim r [ ok a ↦ f a s' | err e ↦ (err e, s') | panic ↦ (panic, s') ]

    abbrev pub ◌>>◌ : {B : Type 0} → M (Unit {0}) → M B → M B
    m >> k = m >>= λ _. k

    -- `rpc_client.call(&request).await`
    unfoldable pub call :
        (m : Method)
        → JsonRpcClient
        → Request m
        → M (Except (JsonRpcError (MethodError m)) (Response m))
    call m c r s =
        let (a, w) = net.call m c r s.world in
        (ok a, record s { trace = called m c r ∷ s.trace; world = w })

    -- `tokio::time::sleep(d).await`
    unfoldable pub sleep : Duration → M (Unit {0})
    sleep d s = (ok tt, record s { trace = slept d ∷ s.trace; world = net.pass d s.world })
