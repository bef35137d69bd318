-- ===== src/Signer/Lawful.antt =====
-- The contract of `SignerExt` (near-fetch/src/signer.rs) that signing a transaction relies on, and
-- its three implementations.
use near_fetch.Prelude.{
  ◌%◌, Option-cases, inl, inr, get_elem?, length, ℕ, List, Bool, true, ◌≡◌, refl, arith, ap, All,
  get_elem?-All,
}
use near_fetch.Near.{Near}
use near_fetch.Error.{ok}
use near_fetch.Effects.{Signer, in_memory, empty, Net, State}
use near_fetch.Signer.{SignerExt, in_memory_signer, plain_signer, expose_sign, expose_public_key}
use near_fetch.Signer.Rotating.{KeyRotatingSigner, rotating_signer, public_key, sign, account_id}

module _ ⦃near : Near⦄ ⦃net : Net⦄ where
  -- `verify` is the check that a signature over some bytes was made with the key's secret half.
  module _ (verify : near.PublicKey → List ℕ → near.Signature → Bool) where
    pub record IsLawful (signer : SignerExt) : Type 0 where
      -- to ask for the key or the account changes nothing
      pub public_key_reads : (s : State) → (signer.public_key s).1 ≡ s
      pub account_id_reads : (s : State) → (signer.account_id s).1 ≡ s
      -- the account depends on the counters alone
      pub account_stable :
          (s t : State)
          → t.counters ≡ s.counters
          → (signer.account_id t).0 ≡ (signer.account_id s).0
      -- to sign touches no cache and sends nothing
      pub sign_keeps :
          (d : List ℕ) (s : State)
          → ((signer.sign d s).1.nonces ≡ s.nonces) × ((signer.sign d s).1.trace ≡ s.trace)
      -- a signature verifies under the key that was current, if no counter has moved since
      pub matched :
          (s t : State) (pk : near.PublicKey) (d : List ℕ) (signature : near.Signature)
          → t.counters ≡ s.counters
          → (signer.public_key s).0 ≡ ok pk
          → (signer.sign d t).0 ≡ ok signature
          → verify pk d signature ≡ true

    -- An `InMemorySigner` keeps the contract of a signer, if its signatures verify under its key.
    pub in_memory_signer-IsLawful :
        (k : near.InMemorySigner)
        → ((d : List ℕ) → verify (near.signer_public_key k) d (near.signer_sign k d) ≡ true)
        → IsLawful (in_memory_signer k)
    in_memory_signer-IsLawful k verifies = record {
      public_key_reads = λ s. refl;
      account_id_reads = λ s. refl;
      account_stable = λ s t same. refl;
      sign_keeps = λ d s. (refl, refl);
      matched = λ s t pk d signature same e f. ground (arith, verifies d);
    }

    plain_matched :
        (k : Signer)
        → ((i : near.InMemorySigner) (d : List ℕ)
            → verify (near.signer_public_key i) d (near.signer_sign i d) ≡ true)
        → (pk : near.PublicKey) (d : List ℕ) (signature : near.Signature)
        → expose_public_key k ≡ ok pk
        → expose_sign k d ≡ ok signature
        → verify pk d signature ≡ true
    unfolding expose_sign expose_public_key
    plain_matched (in_memory i) verifies pk d signature e f = ground (arith, verifies i d)
    plain_matched (empty _) verifies pk d signature e f = cc

    -- A `near_crypto::Signer` keeps the contract of a signer, if the signatures of in-memory signers
    -- verify under their keys; the empty signer has neither key nor signature.
    pub plain_signer-IsLawful :
        ((i : near.InMemorySigner) (d : List ℕ)
          → verify (near.signer_public_key i) d (near.signer_sign i d) ≡ true)
        → (k : Signer) → IsLawful (plain_signer k)
    plain_signer-IsLawful verifies k = record {
      public_key_reads = λ s. refl;
      account_id_reads = λ s. refl;
      account_stable = λ s t same. refl;
      sign_keeps = λ d s. (refl, refl);
      matched = λ s t pk d signature same e f. plain_matched k verifies pk d signature e f;
    }

    -- The signatures of a signer verify under its key.
    abbrev pub Verifies : Signer → Type 0
    Verifies i = (d : List ℕ) → verify (net.public_key_of i) d (net.sign_with i d) ≡ true

    rotating_matched :
        (k : KeyRotatingSigner)
        → All Verifies k.signers
        → (s t : State) (pk : near.PublicKey) (d : List ℕ) (signature : near.Signature)
        → t.counters ≡ s.counters
        → (public_key k s).0 ≡ ok pk
        → (sign k d t).0 ≡ ok signature
        → verify pk d signature ≡ true
    unfolding public_key sign
    rotating_matched k verifies s t pk d signature same e f =
        let current = ap (λ (c : ℕ → ℕ). c k.counter) same in
        elim (Option-cases (get_elem? k.signers (s.counters k.counter % length k.signers))) [
          | inl missing ↦ ground arith
          | inr (i, found) ↦
              ground (arith, current, get_elem?-All Verifies k.signers _ i found verifies d)
        ]

    -- A `KeyRotatingSigner` keeps the contract of a signer, if the signatures of the signers that it
    -- holds verify under their keys: `sign` uses the key that `public_key` gave before.
    pub rotating_signer-IsLawful :
        (k : KeyRotatingSigner) → All Verifies k.signers → IsLawful (rotating_signer k)
    unfolding public_key account_id sign
    rotating_signer-IsLawful k verifies = record {
      public_key_reads = λ s. ground arith;
      account_id_reads = λ s. ground arith;
      account_stable = λ s t same. ground (arith, ap (λ (f : ℕ → ℕ). f k.counter) same);
      sign_keeps = λ d s. (ground arith, ground arith);
      matched = rotating_matched k verifies;
    }
