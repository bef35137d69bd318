-- ===== src/Signer/Rotating.antt =====
-- near-fetch/src/signer.rs: `KeyRotatingSigner`, whose clones share one counter.
-- `usize` has 64 bits. On a list of no signers `%` panics; so does the lookup here.
use near_fetch.Prelude.{
  ℕ, ◌+◌, ◌%◌, ◌^◌, List, [], ◌∷◌, map, Bool, true, none, some, ◌&&◌, length, get_elem?, holds,
  if◌then◌else◌,
}
use near_fetch.Near.{Near}
use near_fetch.Error.{Result, ok, err, panic, invalid_args}
use near_fetch.Effects.{Signer, Net, M, pure, lift, update, ◌>>=◌}
use near_fetch.Signer.{SignerExt, expose_account_id}

pub record KeyRotatingSigner ⦃near : Near⦄ : Type 0 where
  pub signers : List Signer
  pub counter : ℕ

module _ ⦃near : Near⦄ where
  open near use {AccountId, SecretKey, account_eq}

  -- `account_ids.all(|item| item == first)`
  abbrev pub all_eq : AccountId → List AccountId → Bool
  all_eq first [] = true
  all_eq first (item ∷ items) = holds (account_eq item first) && all_eq first items

  -- `signers[i]`
  abbrev pub index : List Signer → ℕ → Result Signer
  index signers i = elim (get_elem? signers i) [ some s ↦ ok s | none ↦ panic ]

module _ ⦃near : Near⦄ ⦃net : Net⦄ where
  open near use {AccountId, SecretKey, PublicKey, Signature, VrfProof}

  unfoldable pub from_signers : List Signer → M KeyRotatingSigner
  from_signers signers s = (
    ok (record { signers = signers; counter = s.fresh }),
    record s { fresh = s.fresh + 1; counters = update s.counters s.fresh 0 },
  )

  -- the rest of `try_from_iter`, after the entries have been unzipped
  unfoldable pub from_unzipped : List AccountId → List SecretKey → M KeyRotatingSigner
  unfolding from_signers
  from_unzipped [] secret_keys = lift (err (invalid_args "must have at least one entry"))
  from_unzipped (first ∷ account_ids) secret_keys =
      if all_eq first account_ids
      then from_signers (map (net.from_secret_key first) secret_keys)
      else lift (err (invalid_args "provided account ids are not all the same"))

  unfoldable pub try_from_iter : List (AccountId × SecretKey) → M KeyRotatingSigner
  unfolding from_unzipped
  try_from_iter entries = from_unzipped (map (λ e. e.0) entries) (map (λ e. e.1) entries)

  unfoldable pub current_signer : KeyRotatingSigner → M Signer
  current_signer k s = (index k.signers (s.counters k.counter % length k.signers), s)

  unfoldable pub fetch_and_rotate_signer : KeyRotatingSigner → M Signer
  fetch_and_rotate_signer k s =
      let idx = s.counters k.counter in
      (
        index k.signers (idx % length k.signers),
        record s { counters = update s.counters k.counter ((idx + 1) % 2 ^ 64) },
      )

  unfoldable pub public_key : KeyRotatingSigner → M PublicKey
  unfolding current_signer
  public_key k = do signer ← current_signer k; pure (net.public_key_of signer)

  unfoldable pub sign : KeyRotatingSigner → List ℕ → M Signature
  unfolding fetch_and_rotate_signer
  sign k d = do signer ← fetch_and_rotate_signer k; pure (net.sign_with signer d)

  unfoldable pub compute_vrf_with_proof : KeyRotatingSigner → List ℕ → M VrfProof
  unfolding current_signer
  compute_vrf_with_proof k d = do signer ← current_signer k; pure (net.vrf_with signer d)

  -- `impl ExposeAccountId for KeyRotatingSigner`
  unfoldable pub account_id : KeyRotatingSigner → M AccountId
  unfolding current_signer expose_account_id
  account_id k = do signer ← current_signer k; lift (expose_account_id signer)

  -- `impl SignerExt for KeyRotatingSigner`
  abbrev pub rotating_signer : KeyRotatingSigner → SignerExt
  rotating_signer k = record { account_id = account_id k; sign = sign k; public_key = public_key k }
