-- ===== src/Signer.antt =====
-- near-fetch/src/signer.rs: the trait `SignerExt` with its supertrait `ExposeAccountId`, and the
-- implementations for `InMemorySigner` and `near_crypto::Signer`. `KeyRotatingSigner` is in
-- Signer/Rotating.antt.
pub mod Rotating
pub mod Rotation
pub mod Keys
pub mod Race
pub mod Lawful
use near_fetch.Prelude.{ℕ, List}
use near_fetch.Near.{Near}
use near_fetch.Error.{Result, ok, panic}
use near_fetch.Effects.{Signer, in_memory, empty, Net, M, pure, lift}

module _ ⦃near : Near⦄ ⦃net : Net⦄ where
  open near use {AccountId, PublicKey, Signature, InMemorySigner}

  -- A `dyn SignerExt` is the record of its methods. A method may read and write shared cells.
  pub record SignerExt : Type 0 where
    pub account_id : M AccountId
    pub sign : List ℕ → M Signature
    pub public_key : M PublicKey

  -- `impl ExposeAccountId for InMemorySigner`
  abbrev pub in_memory_account_id : InMemorySigner → AccountId
  in_memory_account_id s = near.signer_account_id s

  -- `impl ExposeAccountId for Signer`
  unfoldable pub expose_account_id : Signer → Result AccountId
  expose_account_id (in_memory s) = ok (in_memory_account_id s)
  expose_account_id (empty _) = panic

  -- `impl SignerExt for InMemorySigner`
  abbrev pub in_memory_signer : InMemorySigner → SignerExt
  in_memory_signer s = record {
    account_id = pure (in_memory_account_id s);
    sign = λ d. pure (near.signer_sign s d);
    public_key = pure (near.signer_public_key s);
  }

  unfoldable pub expose_sign : Signer → List ℕ → Result Signature
  expose_sign (in_memory s) d = ok (near.signer_sign s d)
  expose_sign (empty _) d = panic

  unfoldable pub expose_public_key : Signer → Result PublicKey
  expose_public_key (in_memory s) = ok (near.signer_public_key s)
  expose_public_key (empty _) = panic

  -- `impl SignerExt for Signer`
  abbrev pub plain_signer : Signer → SignerExt
  plain_signer s = record {
    account_id = lift (expose_account_id s);
    sign = λ d. lift (expose_sign s d);
    public_key = lift (expose_public_key s);
  }
