-- ===== src/Tests/Signers.antt =====
-- The signers of near-fetch/src/signer.rs in the small world.
use near_fetch.Prelude.{ℕ, List, [], ◌∷◌, ◌≡◌, refl, arith, true, All}
use near_fetch.Error.{ok, map_ok}
use near_fetch.Effects.{Signer, in_memory}
use near_fetch.Signer.Rotating.{
  KeyRotatingSigner, from_signers, try_from_iter, rotating_signer, public_key, sign,
}
use near_fetch.Signer.Rotation.{rotate, round, rotate-round}
use near_fetch.Signer.Keys.{try_from_iter-same_account}
use near_fetch.Signer.Race.{sign-rotate}
use near_fetch.Signer.Lawful.{IsLawful, Verifies, rotating_signer-IsLawful}
use near_fetch.Tests.World.{small, small_net, fresh_state, verify, key_number}

abbrev two_signers : List Signer
two_signers = in_memory 2 ∷ in_memory 3 ∷ []

abbrev pub two_keys : KeyRotatingSigner
two_keys = record { signers = two_signers; counter = 1 }

verifies : (n : ℕ) → verify n [] n ≡ true
verifies n = ground arith

rotate-round_example :
    ((rotate 3 two_keys fresh_state).0 ≡ round 3 0 two_signers)
    × ((rotate 3 two_keys fresh_state).1.counters 1 ≡ 3)
rotate-round_example = rotate-round 3 two_keys fresh_state (omega arith)

two_keys-Verify : All (Verifies verify) two_signers
two_keys-Verify =
    (λ d. verifies (key_number (in_memory 2)), (λ d. verifies (key_number (in_memory 3)), tt))

pub lawful_keys : IsLawful verify (rotating_signer two_keys)
lawful_keys = rotating_signer-IsLawful verify two_keys two_keys-Verify

rotating_signer-IsLawful_example : IsLawful verify (rotating_signer two_keys)
rotating_signer-IsLawful_example = rotating_signer-IsLawful verify two_keys two_keys-Verify

try_from_iter-same_account_example :
    try_from_iter ((1, 2) ∷ (1, 3) ∷ []) fresh_state ≡ from_signers two_signers fresh_state
try_from_iter-same_account_example =
    try_from_iter-same_account 1 2 ((1, 3) ∷ []) fresh_state (refl, tt)

-- with one other signature in between, the key is 2 and the signature that of 3
sign-rotate_example :
    ((public_key two_keys fresh_state).0 ≡ map_ok small_net.public_key_of (ok (in_memory 2)))
    × ((sign two_keys [] (rotate 1 two_keys fresh_state).1).0
        ≡ map_ok (λ i. small_net.sign_with i []) (ok (in_memory 3)))
sign-rotate_example = sign-rotate 1 two_keys [] fresh_state (omega arith)
