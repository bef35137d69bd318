-- ===== src/Tasks/Jobs/Turns.antt =====
-- near-fetch/src/signer.rs and near-fetch/src/lib.rs: what calls of a `KeyRotatingSigner` and of
-- `fetch_nonce` do when they return.
use near_fetch.Prelude.{
  ℕ, ◌+◌, ◌%◌, ◌^◌, List, none, some, ◌≡◌, sym, ◌∙◌, ap, inl, inr, ◌⊎◌, length, Option-cases,
}
use near_fetch.Near.{Near}
use near_fetch.Near.Views.{AccessKeyView}
use near_fetch.Error.{Result, ok}
use near_fetch.Effects.{Signer, CacheKey, Net, State, M, pure, lift, update, ◌>>◌}
use near_fetch.Effects.Laws.{>>=-eq-ok, >>=-ok, ok_injective}
use near_fetch.Signer.{expose_account_id}
use near_fetch.Signer.Rotating as Rotating
use near_fetch.Signer.Rotating.{
  KeyRotatingSigner, index, current_signer, fetch_and_rotate_signer, rotating_signer,
}
use near_fetch.Client.{Client}
use near_fetch.Client.Nonce as Nonce
use near_fetch.Client.Nonce.{next_nonce, access_key, vacant_nonce, write_nonce}
use near_fetch.Client.Cache.{
  cached, with_nonce, fetch_nonce-hit, fetch_nonce-miss, fetch_nonce-eq-vacant,
  fetch_nonce-counters,
}

module _ ⦃near : Near⦄ ⦃net : Net⦄ (k : KeyRotatingSigner) where
  -- the signer that is current in a state
  abbrev pub turn : State → Result Signer
  turn σ = index k.signers (σ.counters k.counter % length k.signers)

  pub account_id-turn :
      (σ : State) {id : near.AccountId} {τ : State}
      → Rotating.account_id k σ ≡ (ok id, τ)
      → (x : Signer) × (turn σ ≡ ok x) × (expose_account_id x ≡ ok id) × (τ ≡ σ)
  unfolding Rotating.account_id current_signer
  account_id-turn σ e =
      let (x, u, got, rest) = >>=-eq-ok (current_signer k) (λ x. lift (expose_account_id x)) σ e in
      (
        x,
        ap (λ (p : Result Signer × State). p.0) got,
        ap (λ (p : Result near.AccountId × State). p.0) rest,
        sym (ap (λ (p : Result near.AccountId × State). p.1) rest)
            ∙ sym (ap (λ (p : Result Signer × State). p.1) got),
      )

  pub public_key-turn :
      (σ : State) {pk : near.PublicKey} {τ : State}
      → Rotating.public_key k σ ≡ (ok pk, τ)
      → (x : Signer) × (turn σ ≡ ok x) × (pk ≡ net.public_key_of x) × (τ ≡ σ)
  unfolding Rotating.public_key current_signer
  public_key-turn σ e =
      let (x, u, got, rest) = >>=-eq-ok (current_signer k) (λ x. pure (net.public_key_of x)) σ e in
      (
        x,
        ap (λ (p : Result Signer × State). p.0) got,
        sym (ok_injective (ap (λ (p : Result near.PublicKey × State). p.0) rest)),
        sym (ap (λ (p : Result near.PublicKey × State). p.1) rest)
            ∙ sym (ap (λ (p : Result Signer × State). p.1) got),
      )

  -- and the other way round
  pub turn-account_id :
      (σ : State) (x : Signer) (id : near.AccountId)
      → turn σ ≡ ok x
      → expose_account_id x ≡ ok id
      → Rotating.account_id k σ ≡ (ok id, σ)
  unfolding Rotating.account_id current_signer
  turn-account_id σ x id now own =
      >>=-ok (current_signer k) (λ y. lift (expose_account_id y)) σ (λ i. (now i, σ))
      ∙ (λ i. (own i, σ))

  pub turn-public_key :
      (σ : State) (x : Signer)
      → turn σ ≡ ok x
      → Rotating.public_key k σ ≡ (ok (net.public_key_of x), σ)
  unfolding Rotating.public_key current_signer
  turn-public_key σ x now =
      >>=-ok (current_signer k) (λ y. pure (net.public_key_of y)) σ (λ i. (now i, σ))

  pub sign-turn :
      (d : List ℕ) (σ : State) {signature : near.Signature} {τ : State}
      → Rotating.sign k d σ ≡ (ok signature, τ)
      → (x : Signer) × (turn σ ≡ ok x)
        × (signature ≡ net.sign_with x d)
        × (τ ≡ record σ {
          counters = update σ.counters k.counter ((σ.counters k.counter + 1) % 2 ^ 64);
        })
  unfolding Rotating.sign fetch_and_rotate_signer
  sign-turn d σ e =
      let (x, u, got, rest) =
        >>=-eq-ok (fetch_and_rotate_signer k) (λ x. pure (net.sign_with x d)) σ e in
      (
        x,
        ap (λ (p : Result Signer × State). p.0) got,
        sym (ok_injective (ap (λ (p : Result near.Signature × State). p.0) rest)),
        sym (ap (λ (p : Result near.Signature × State). p.1) rest)
            ∙ sym (ap (λ (p : Result Signer × State). p.1) got),
      )

module _ ⦃near : Near⦄ ⦃net : Net⦄ (c : Client) (k : CacheKey) (σ : State) where
  abbrev Issued : Type 0
  Issued = ℕ × near.CryptoHash × ℕ

  -- A call of `fetch_nonce` that returns has taken the nonce after `m`, which the cache had or the
  -- network said.
  pub record Takes (issued : Issued) (τ : State) : Type 0 where
    pub last : ℕ
    pub known : (cached c k σ ≡ some last) ⊎ (cached c k σ ≡ none)
    pub nonce : issued.0 ≡ next_nonce last
    pub nonces : τ.nonces ≡ with_nonce c k (next_nonce last) σ.nonces
    pub counters : τ.counters ≡ σ.counters

  miss-Takes :
      (issued : Issued) (τ : State)
      → cached c k σ ≡ none
      → Nonce.fetch_nonce c k.0 k.1 σ ≡ (ok issued, τ)
      → Takes issued τ
  unfolding vacant_nonce
  miss-Takes issued τ absent returned =
      let store : AccessKeyView × near.CryptoHash × ℕ → M Issued =
        λ x. write_nonce c k (next_nonce x.0.nonce) >> pure (next_nonce x.0.nonce, x.1, x.2) in
      let ((key, hash, height), u, got, _) =
        >>=-eq-ok (access_key c k.0 k.1) store σ
          (sym (fetch_nonce-eq-vacant c k.0 k.1 σ absent) ∙ returned) in
      let same = sym (fetch_nonce-miss c k.0 k.1 σ u key hash height absent got) ∙ returned in
      record {
        last = key.nonce;
        known = inr absent;
        nonce =
            ap (λ (i : Issued). i.0)
              (sym (ok_injective (ap (λ (p : Result Issued × State). p.0) same)));
        nonces = sym (ap (λ (p : Result Issued × State). p.1.nonces) same);
        counters =
            sym (ap (λ (p : Result Issued × State). p.1.counters) returned)
            ∙ fetch_nonce-counters c k.0 k.1 σ;
      }

  pub fetch_nonce-Takes :
      (issued : Issued) (τ : State)
      → Nonce.fetch_nonce c k.0 k.1 σ ≡ (ok issued, τ)
      → Takes issued τ
  fetch_nonce-Takes issued τ returned = elim (Option-cases (cached c k σ)) [
    | inl absent ↦ miss-Takes issued τ absent returned
    | inr (n, found) ↦
        let (wrote, new) = fetch_nonce-hit c k.0 k.1 σ n found in
        record {
          last = n;
          known = inl found;
          nonce = new issued.0 issued.1 issued.2 (ap (λ (p : Result Issued × State). p.0) returned);
          nonces = sym (ap (λ (p : Result Issued × State). p.1.nonces) returned) ∙ wrote;
          counters =
              sym (ap (λ (p : Result Issued × State). p.1.counters) returned)
              ∙ fetch_nonce-counters c k.0 k.1 σ;
        }
  ]
