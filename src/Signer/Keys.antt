-- ===== src/Signer/Keys.antt =====
-- near-fetch/src/signer.rs: which entries `KeyRotatingSigner::try_from_iter` accepts.
use near_fetch.Prelude.{List, [], ◌∷◌, ◌++◌, map, true, false, ◌≡◌, ◌≢◌, refl, ap, arith, All}
use near_fetch.Near.{Near}
use near_fetch.Error.{err, invalid_args}
use near_fetch.Effects.{Net, State, Signer}
use near_fetch.Signer.Rotating.{all_eq, from_signers, try_from_iter}

map-map :
    {A B C : Type 0} (f : A → B) (g : B → C) (xs : List A)
    → map g (map f xs) ≡ map (λ (x : A). g (f x)) xs
map-map f g [] = refl
map-map f g (x ∷ xs) = ap (◌∷◌ (g (f x))) (map-map f g xs)

module _ ⦃near : Near⦄ where
  all_eq-true :
      {S : Type 0} (a : near.AccountId) (es : List (near.AccountId × S))
      → All (λ e. e.0 ≡ a) es
      → all_eq a (map (λ e. e.0) es) ≡ true
  all_eq-true a [] same = refl
  all_eq-true a ((b, k) ∷ es) same = ground (arith, all_eq-true a es same.1)

  all_eq-false :
      {S : Type 0} (a b : near.AccountId) (k : S) (before after : List (near.AccountId × S))
      → b ≢ a
      → all_eq a (map (λ e. e.0) (before ++ (b, k) ∷ after)) ≡ false
  all_eq-false a b k [] after other = ground arith
  all_eq-false a b k ((c, l) ∷ before) after other =
      ground (arith, all_eq-false a b k before after other)

module _ ⦃near : Near⦄ ⦃net : Net⦄ where
  abbrev pub Entry : Type 0
  Entry = near.AccountId × near.SecretKey

  -- Entries of one account make a signer over all their keys, in their order.
  pub try_from_iter-same_account :
      (a : near.AccountId) (k : near.SecretKey) (es : List Entry) (s : State)
      → All (λ (e : Entry). e.0 ≡ a) es
      → try_from_iter ((a, k) ∷ es) s
        ≡ from_signers (map (λ (e : Entry). net.from_secret_key a e.1) ((a, k) ∷ es)) s
  unfolding try_from_iter
  try_from_iter-same_account a k es s same =
      rw (all_eq-true a es same)
        (ap (λ (l : List Signer). from_signers (net.from_secret_key a k ∷ l) s) (map-map _ _ es))

  -- No entries, or an entry of another account than the first, is an error, and no counter is made.
  pub try_from_iter-rejects :
      (a b : near.AccountId) (k l : near.SecretKey) (before after : List Entry) (s : State)
      → b ≢ a
      → (try_from_iter [] s ≡ (err (invalid_args "must have at least one entry"), s))
        × (try_from_iter ((a, k) ∷ before ++ (b, l) ∷ after) s
            ≡ (err (invalid_args "provided account ids are not all the same"), s))
  unfolding try_from_iter
  try_from_iter-rejects a b k l before after s other =
      (refl, rw (all_eq-false a b l before after other))
