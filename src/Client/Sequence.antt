-- ===== src/Client/Sequence.antt =====
-- near-fetch/src/lib.rs: the nonces that a run of calls of `fetch_nonce` issues, by several clients
-- and for several keys, one call after the other.
use near_fetch.Prelude.{
  ℕ, ◌+◌, ◌^◌, ◌<◌, List, [], ◌∷◌, ◌++◌, some, ◌≡◌, refl, sym, ◌∙◌, ◌≢◌, ◌⊎◌, inl, inr, Bool, ◌&&◌,
  ◌==◌, holds, if◌then◌else◌, length, arith, ℕ_discrete, lookup-insert_self,
}
use near_fetch.Near.{Near}
use near_fetch.Error.{Result, ok, err, panic}
use near_fetch.Effects.{CacheKey, cache_key_eq, Net, State}
use near_fetch.Client.{Client}
use near_fetch.Client.Nonce.{next_nonce, fetch_nonce}
use near_fetch.Client.Cache.{cached, fetch_nonce-hit, fetch_nonce-others}

-- A strictly rising list, above `n`.
abbrev pub Above : ℕ → List ℕ → Type 0
Above n [] = Unit
Above n (m ∷ ms) = (n < m) × Above m ms

pub Above-weaken : (n : ℕ) (ms : List ℕ) → Above (n + 1) ms → Above n ms
Above-weaken n [] a = tt
Above-weaken n (m ∷ ms) a = (omega arith, a.1)

module _ ⦃near : Near⦄ ⦃net : Net⦄ where
  abbrev pub FetchCall : Type 0
  FetchCall = Client × CacheKey

  abbrev pub run_call : FetchCall → State → Result (ℕ × near.CryptoHash × ℕ) × State
  run_call (q, k) s = fetch_nonce q k.0 k.1 s

  abbrev pub nonces_of : Result (ℕ × near.CryptoHash × ℕ) → List ℕ
  nonces_of (ok (m, _, _)) = m ∷ []
  nonces_of _ = []

  nonces_of-cases :
      (r : Result (ℕ × near.CryptoHash × ℕ)) (n : ℕ)
      → ((m : ℕ) (hash : near.CryptoHash) (height : ℕ) → r ≡ ok (m, hash, height) → m ≡ n)
      → (nonces_of r ≡ []) ⊎ (nonces_of r ≡ n ∷ [])
  nonces_of-cases (ok (m, hash, height)) n h = inr (rw (h m hash height refl))
  nonces_of-cases (err e) n h = inl refl
  nonces_of-cases panic n h = inl refl

  module _ (c : Client) (k : CacheKey) where
    -- the call is for this key, at a client that shares the cache of `c`
    abbrev pub is_own : FetchCall → Bool
    is_own (q, j) = q.access_key_nonces == c.access_key_nonces && holds (cache_key_eq j k)

    abbrev pub own_nonces : FetchCall → Result (ℕ × near.CryptoHash × ℕ) → List ℕ
    own_nonces call r = if is_own call then nonces_of r else []

    -- the nonces that the calls issue for this key, in their order
    unfoldable pub issued : List FetchCall → State → List ℕ
    issued [] s = []
    issued (call ∷ calls) s = let (r, t) = run_call call s in own_nonces call r ++ issued calls t

    -- One call keeps the cached nonce and issues none for the key, or raises it by one and issues
    -- at most that one.
    abbrev Advance : ℕ → FetchCall → Result (ℕ × near.CryptoHash × ℕ) × State → Type 0
    Advance n call (r, t) =
        ((cached c k t ≡ some n) × (own_nonces call r ≡ []))
        ⊎ ((cached c k t ≡ some (n + 1))
            × ((own_nonces call r ≡ []) ⊎ (own_nonces call r ≡ (n + 1) ∷ [])))

    own-Advance :
        (n : ℕ) (q : Client) (s : State)
        → q.access_key_nonces ≡ c.access_key_nonces
        → cached c k s ≡ some n
        → n + 1 < 2 ^ 64
        → Advance n (q, k) (run_call (q, k) s)
    own-Advance n q s cell e small =
        let e' : cached q k s ≡ some n = rw cell e in
        let (wrote, new) = fetch_nonce-hit q k.0 k.1 s n e' in
        let next : next_nonce n ≡ n + 1 = omega arith in
        inr (
          rw wrote (
              ground
                (arith, lookup-insert_self cache_key_eq k (n + 1) (s.nonces c.access_key_nonces))),
          ground (arith, nonces_of-cases (run_call (q, k) s).0 (next_nonce n) new),
        )

    -- a call for another key, or on another cache
    other-Advance :
        (n : ℕ) (q : Client) (j : CacheKey) (s : State)
        → (c.access_key_nonces ≢ q.access_key_nonces) ⊎ (k ≢ j)
        → cached c k s ≡ some n
        → Advance n (q, j) (run_call (q, j) s)
    other-Advance n q j s other e = inl (fetch_nonce-others q j.0 j.1 s c k other ∙ e, ground arith)

    Advance_lem :
        (n : ℕ) (call : FetchCall) (s : State)
        → cached c k s ≡ some n
        → n + 1 < 2 ^ 64
        → Advance n call (run_call call s)
    Advance_lem n (q, j) s e small = elim (ℕ_discrete q.access_key_nonces c.access_key_nonces) [
      | yes cell ↦ elim (cache_key_eq j k) [
        | yes key ↦ rw key (own-Advance n q s cell e small)
        | no key ↦ other-Advance n q j s (inr (λ p. key (sym p))) e
      ]
      | no cell ↦ other-Advance n q j s (inl (λ p. cell (sym p))) e
    ]

    -- From a cached nonce on, every run of calls issues strictly rising nonces for the key, all of
    -- them above the cached one: none is issued twice, whichever clones make the calls and
    -- whatever the network answers, as long as the counter does not reach the end of `u64`.
    pub issued-Above :
        (calls : List FetchCall) (n : ℕ) (s : State)
        → cached c k s ≡ some n
        → n + length calls < 2 ^ 64
        → Above n (issued calls s)
    unfolding issued
    issued-Above [] n s e small = tt
    issued-Above (call ∷ calls) n s e small = elim (Advance_lem n call s e (omega arith)) [
      | inl (kept, nothing) ↦ rw nothing (issued-Above calls n _ kept (omega arith))
      | inr (raised, some_or_none) ↦
          let later = issued-Above calls (n + 1) _ raised (omega arith) in
          elim some_or_none [
            | inl nothing ↦ rw nothing (Above-weaken n _ later)
            | inr one ↦ rw one (omega arith, later)
          ]
    ]
