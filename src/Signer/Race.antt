-- ===== src/Signer/Race.antt =====
-- near-fetch/src/signer.rs: `public_key` and `sign` of a `KeyRotatingSigner` when others that share
-- its counter sign in between, as they can while `sign_tx` of near-fetch/src/lib.rs waits for a
-- nonce.
use near_fetch.Prelude.{ℕ, ◌+◌, ◌%◌, ◌^◌, ◌<◌, List, ◌≡◌, ap, ◌∙◌, arith, length}
use near_fetch.Near.{Near}
use near_fetch.Error.{Result, map_ok}
use near_fetch.Effects.{Net, State, Signer}
use near_fetch.Signer.Rotating.{KeyRotatingSigner, index, public_key, sign}
use near_fetch.Signer.Rotation.{rotate, rotate-round}

module _ ⦃near : Near⦄ ⦃net : Net⦄ where
  -- the signer that is current when the counter is at `c`
  abbrev pub signer_at : KeyRotatingSigner → ℕ → Result Signer
  signer_at k c = index k.signers (c % length k.signers)

  public_key-map_ok :
      (k : KeyRotatingSigner) (s : State)
      → (public_key k s).0 ≡ map_ok net.public_key_of (signer_at k (s.counters k.counter))
  unfolding public_key
  public_key-map_ok k s = ground arith

  sign-map_ok :
      (k : KeyRotatingSigner) (d : List ℕ) (s : State)
      → (sign k d s).0 ≡ map_ok (λ i. net.sign_with i d) (signer_at k (s.counters k.counter))
  unfolding sign
  sign-map_ok k d s = ground arith

  -- If `n` other signatures are made between a `public_key` and a `sign`, the key is that of the
  -- signer at the counter, and the signature that of the signer `n` places further, as long as the
  -- counter stays below 2^64: for other than a multiple of the number of signers, another signer.
  pub sign-rotate :
      (n : ℕ) (k : KeyRotatingSigner) (d : List ℕ) (s : State)
      → s.counters k.counter + n < 2 ^ 64
      → ((public_key k s).0 ≡ map_ok net.public_key_of (signer_at k (s.counters k.counter)))
        × ((sign k d (rotate n k s).1).0
            ≡ map_ok (λ i. net.sign_with i d) (signer_at k (s.counters k.counter + n)))
  sign-rotate n k d s small = (
    public_key-map_ok k s,
    sign-map_ok k d (rotate n k s).1
        ∙ ap (λ c. map_ok (λ i. net.sign_with i d) (signer_at k c)) (rotate-round n k s small).1,
  )
