-- ===== src/Tasks/Jobs/Fits.antt =====
-- near-fetch/src/lib.rs: where a task is in `fetch_nonce` and where it is in `send_tx_once`, side by
-- side.
use near_fetch.Prelude.{
  ℕ, Option, none, some, ◌≡◌, ◌≢◌, refl, sym, ◌∙◌, ap, arith, ℕ_discrete, ◌⊎◌, inl, inr,
}
use mathlib.Core.Path.{subst}
use mathlib.Core.Option.{some-injective}
use near_fetch.Near.{Near}
use near_fetch.Effects.{CacheKey, update}
use near_fetch.Tasks.Jobs.{Stage, taking, asking, Jobs}
use near_fetch.Tasks.{Place, idle, looking, viewing, upgrading, entering, occupied, fetching}

module _ ⦃near : Near⦄ where
  -- the key that a task has no nonce for yet, inside `fetch_nonce`
  abbrev pub asks : Place → Option CacheKey
  asks (looking k) = some k
  asks (upgrading k) = some k
  asks (entering k) = some k
  asks (fetching k) = some k
  asks _ = none

  -- the key and the nonce that it has taken for it
  abbrev pub takes : Place → Option (CacheKey × ℕ)
  takes (viewing k n) = some (k, n)
  takes (occupied k n) = some (k, n)
  takes _ = none

  abbrev pub Fits : Stage → Place → Type 0
  Fits (asking _ k) q = (q ≡ idle) ⊎ (asks q ≡ some k)
  Fits (taking _ c) q = takes q ≡ some (c.key, c.nonce)
  Fits _ q = q ≡ idle

  asks-takes : (q : Place) (k : CacheKey) → asks q ≡ some k → takes q ≡ none
  asks-takes (viewing j n) k a = ground (arith, a)
  asks-takes (occupied j n) k a = ground (arith, a)
  asks-takes q k a = refl

  -- A task that is inside `fetch_nonce` is not idle.
  pub asks-busy : (q : Place) (k : CacheKey) → asks q ≡ some k → q ≢ idle
  asks-busy q k a e = ground (arith, a, e)

  pub takes-busy : (q : Place) (k : CacheKey) (n : ℕ) → takes q ≡ some (k, n) → q ≢ idle
  takes-busy q k n a e = ground (arith, a, e)

  pub asks-asking :
      (p : Stage) (q : Place) (k : CacheKey)
      → asks q ≡ some k
      → Fits p q
      → (ck : CacheKey) × (p ≡ asking ck k)
  asks-asking (asking ck j) q k a (inl e) = absurd (asks-busy q k a e)
  asks-asking (asking ck j) q k a (inr e) = (ck, ap (asking ck) (some-injective _ _ (sym e ∙ a)))
  asks-asking (taking ck c) q k a e = absurd (ground (arith, asks-takes q k a, e))
  asks-asking p q k a e = absurd (asks-busy q k a e)

  pub takes-taking :
      (p : Stage) (q : Place) (k : CacheKey) (n : ℕ)
      → takes q ≡ some (k, n)
      → Fits p q
      → (ck : CacheKey) × (e : ℕ) × (p ≡ taking ck (record { key = k; epoch = e; nonce = n }))
  takes-taking (asking ck j) q k n a (inl e) = absurd (takes-busy q k n a e)
  takes-taking (asking ck j) q k n a (inr e) = absurd (ground (arith, asks-takes q j e, a))
  takes-taking (taking ck c) q k n a e =
      let same = some-injective _ _ (sym e ∙ a) in
      (
        ck,
        c.epoch,
        λ i. taking ck (record { key = (same i).0; epoch = c.epoch; nonce = (same i).1 }),
      )
  takes-taking p q k n a e = absurd (takes-busy q k n a e)

  -- Every task's place fits its stage.
  abbrev pub AllFit : Jobs → Type 0
  AllFit s = (i : ℕ) → Fits (s.stage i) (s.cache.place i)

  -- One task goes on, in its stage and at its place.
  pub both_fit :
      (i : ℕ) (p : Stage) (q : Place) (stage : ℕ → Stage) (place : ℕ → Place)
      → Fits p q
      → ((j : ℕ) → Fits (stage j) (place j))
      → (j : ℕ) → Fits (update stage i p j) (update place i q j)
  both_fit i p q stage place new fits j = elim (ℕ_discrete i j) [
    | yes e ↦
        let staged : update stage i p j ≡ p = ground (arith, e) in
        let placed : update place i q j ≡ q = ground (arith, e) in
        subst (λ x. Fits x (update place i q j)) (sym staged) (subst (Fits p) (sym placed) new)
    | no ne ↦
        let staged : update stage i p j ≡ stage j = ground (arith, ne) in
        let placed : update place i q j ≡ place j = ground (arith, ne) in
        subst (λ x. Fits x (update place i q j)) (sym staged)
          (subst (Fits (stage j)) (sym placed) (fits j))
  ]

  pub place-Fits :
      (i : ℕ) (q : Place) (stage : ℕ → Stage) (place : ℕ → Place)
      → Fits (stage i) q
      → ((j : ℕ) → Fits (stage j) (place j))
      → (j : ℕ) → Fits (stage j) (update place i q j)
  place-Fits i q stage place new fits j = elim (ℕ_discrete i j) [
    | yes e ↦
        let placed : update place i q j ≡ q = ground (arith, e) in
        subst (Fits (stage j)) (sym placed) (subst (λ l. Fits (stage l) q) e new)
    | no ne ↦
        let placed : update place i q j ≡ place j = ground (arith, ne) in
        subst (Fits (stage j)) (sym placed) (fits j)
  ]

  -- the same for a stage of one's own: not in `fetch_nonce`, so idle there
  pub stage-Fits :
      (i : ℕ) (p : Stage) (stage : ℕ → Stage) (place : ℕ → Place)
      → Fits p (place i)
      → ((j : ℕ) → Fits (stage j) (place j))
      → (j : ℕ) → Fits (update stage i p j) (place j)
  stage-Fits i p stage place new fits j = elim (ℕ_discrete i j) [
    | yes e ↦
        let staged : update stage i p j ≡ p = ground (arith, e) in
        subst (λ x. Fits x (place j)) (sym staged) (subst (λ l. Fits p (place l)) e new)
    | no ne ↦
        let staged : update stage i p j ≡ stage j = ground (arith, ne) in
        subst (λ x. Fits x (place j)) (sym staged) (fits j)
  ]
