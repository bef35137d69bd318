-- ===== src/Signer/Rotation.antt =====
-- near-fetch/src/signer.rs: the order in which `KeyRotatingSigner` uses its signers.
use near_fetch.Prelude.{
  ℕ, zero, suc, ◌+◌, ◌%◌, ◌^◌, ◌<◌, List, [], ◌∷◌, ◌++◌, map, ◌≡◌, refl, ap, ◌∙◌, arith, length,
  length-append,
}
use mathlib.Core.Path.{ap₂}
use mathlib.Core.List.{append_assoc}
use native.Mathlib.Nat.{mod-eq_of_lt}
use near_fetch.Near.{Near}
use near_fetch.Error.{Result, ok}
use near_fetch.Effects.{Signer, Net, State}
use near_fetch.Signer.Rotating.{KeyRotatingSigner, index, fetch_and_rotate_signer, from_signers}

module _ ⦃near : Near⦄ ⦃net : Net⦄ where
  -- the signers of `n` calls of `fetch_and_rotate_signer`, one after the other
  pub rotate : ℕ → KeyRotatingSigner → State → List (Result Signer) × State
  rotate zero k s = ([], s)
  rotate (suc n) k s =
      let (r, t) = fetch_and_rotate_signer k s in let (rs, u) = rotate n k t in (r ∷ rs, u)

  -- the signers at `c`, `c + 1`, .., `c + n - 1`, around the list
  abbrev pub round : ℕ → ℕ → List Signer → List (Result Signer)
  round zero c signers = []
  round (suc n) c signers = index signers (c % length signers) ∷ round n (c + 1) signers

  -- As long as the counter does not reach the end of `usize`, `n` calls use the signers one after
  -- the other, from the one at the counter on and around the list, and the counter rises by `n`.
  pub rotate-round :
      (n : ℕ) (k : KeyRotatingSigner) (s : State)
      → s.counters k.counter + n < 2 ^ 64
      → ((rotate n k s).0 ≡ round n (s.counters k.counter) k.signers)
        × ((rotate n k s).1.counters k.counter ≡ s.counters k.counter + n)
  unfolding rotate fetch_and_rotate_signer
  rotate-round zero k s small = (refl, omega arith)
  rotate-round (suc n) k s small =
      let c = s.counters k.counter in
      let t = (fetch_and_rotate_signer k s).1 in
      let e : t.counters k.counter ≡ c + 1 = ground arith in
      let (order, end) = rotate-round n k t (omega arith) in
      (
        ap (◌∷◌ (index k.signers (c % length k.signers))) (order ∙ ap (λ i. round n i k.signers) e),
        omega arith,
      )

  index-append :
      (xs : List Signer) (y : Signer) (ys : List Signer) → index (xs ++ y ∷ ys) (length xs) ≡ ok y
  index-append [] y ys = refl
  index-append (x ∷ xs) y ys = index-append xs y ys

  round-all : (xs ys : List Signer) → round (length ys) (length xs) (xs ++ ys) ≡ map ok ys
  round-all xs [] = refl
  round-all xs (y ∷ ys) =
      let total = length-append xs (y ∷ ys) in
      let here : length xs % length (xs ++ y ∷ ys) ≡ length xs = mod-eq_of_lt (omega arith) in
      ap₂ ◌∷◌ (ap (index (xs ++ y ∷ ys)) here ∙ index-append xs y ys)
        (rw (append_assoc, length-append) at (round-all (xs ++ y ∷ []) ys))

  -- The first calls of `fetch_and_rotate_signer` on a signer that was just made, as many as it has
  -- signers and fewer than 2^64, use each of them once, in their order.
  pub from_signers-rotate :
      (signers : List Signer) (s : State)
      → length signers < 2 ^ 64
      → (k : KeyRotatingSigner) (t : State) → from_signers signers s ≡ (ok k, t)
      → (rotate (length signers) k t).0 ≡ map ok signers
  unfolding from_signers
  from_signers-rotate signers s small k t e =
      let zero_counter : t.counters k.counter ≡ 0 = ground arith in
      let same : k.signers ≡ signers = ground arith in
      let order = (rotate-round (length signers) k t (omega arith)).0 in
      order ∙ ap₂ (round (length signers)) zero_counter same ∙ round-all [] signers
