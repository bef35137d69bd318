-- ===== src/Effects/Laws.antt =====
-- What follows from the outcome of a chain of effects (Effects.antt) for its parts.
use near_fetch.Prelude.{◌≡◌, refl, ap, sym, ◌∙◌, arith}
use mathlib.Core.Path.{subst}
use near_fetch.Near.{Near}
use near_fetch.Error.{Error, Result, ok, err, panic}
use near_fetch.Effects.{Net, State, M, ◌>>=◌}

module _ ⦃near : Near⦄ where
  pub ok_injective : {A : Type 0} {a b : A} → ◌≡◌ {A = Result A} (ok a) (ok b) → a ≡ b
  ok_injective e = ground arith

module _ ⦃near : Near⦄ ⦃net : Net⦄ {A B : Type 0} where
  after : (A → M B) → Result A × State → Result B × State
  after f (ok a, s) = f a s
  after f (err e, s) = (err e, s)
  after f (panic, s) = (panic, s)

  after-eq-ok :
      (p : Result A × State) (f : A → M B) {b : B} {t : State}
      → after f p ≡ (ok b, t)
      → (a : A) × (u : State) × (p ≡ (ok a, u)) × (f a u ≡ (ok b, t))
  unfolding after
  after-eq-ok (ok a, s) f e = (a, s, refl, e)
  after-eq-ok (err x, s) f e = absurd (ground (arith, ap (λ (p : Result B × State). p.0) e))
  after-eq-ok (panic, s) f e = absurd (ground (arith, ap (λ (p : Result B × State). p.0) e))

  bind_after :
      (p : Result A × State) (m : M A) (f : A → M B) (s : State) → m s ≡ p → (m >>= f) s ≡ after f p
  unfolding after
  bind_after (ok a, t) m f s e = rw (e, ◌>>=◌) (rw e)
  bind_after (err x, t) m f s e = rw (e, ◌>>=◌) (rw e)
  bind_after (panic, t) m f s e = rw (e, ◌>>=◌) (rw e)

  -- A chain that succeeds has a first part that does.
  pub >>=-eq-ok :
      (m : M A) (f : A → M B) (s : State) {b : B} {t : State}
      → (m >>= f) s ≡ (ok b, t)
      → (a : A) × (u : State) × (m s ≡ (ok a, u)) × (f a u ≡ (ok b, t))
  >>=-eq-ok m f s e = after-eq-ok (m s) f (sym (bind_after (m s) m f s refl) ∙ e)

  -- A chain whose first part succeeds goes on with its value and its state.
  pub >>=-ok :
      (m : M A) (f : A → M B) (s : State) {a : A} {t : State}
      → m s ≡ (ok a, t)
      → (m >>= f) s ≡ f a t
  unfolding after
  >>=-ok m f s {a} {t} e = bind_after (ok a, t) m f s e

  -- A chain whose first part fails ends with that failure.
  pub >>=-err :
      (m : M A) (f : A → M B) (s : State) {x : Error} {t : State}
      → m s ≡ (err x, t)
      → (m >>= f) s ≡ (err x, t)
  unfolding after
  >>=-err m f s {x} {t} e = bind_after (err x, t) m f s e

  -- What holds of every end of a chain: a rule for each end of its first part.
  pub >>=-elim :
      (G : Result B × State → Type 0) (m : M A) (f : A → M B) (s : State)
      → ((a : A) (t : State) → m s ≡ (ok a, t) → G (f a t))
      → ((r : Result B) → ((b : B) → ¬ (r ≡ ok b)) → G (r, (m s).1))
      → G ((m >>= f) s)
  unfolding after
  >>=-elim G m f s goes ends = ends_by (m s) refl
    where
      ends_by : (p : Result A × State) → m s ≡ p → G ((m >>= f) s)
      ends_by (ok a, t) e = rw (>>=-ok m f s e) (goes a t e)
      ends_by (err x, t) e =
          rw (>>=-err m f s e)
            (rw (ap (λ (p : Result A × State). p.1) e) at (ends (err x) (λ b q. cc)))
      ends_by (panic, t) e =
          rw (bind_after (panic, t) m f s e)
            (rw (ap (λ (p : Result A × State). p.1) e) at (ends panic (λ b q. cc)))

  -- The same, where the first part leaves the state as it was.
  pub >>=-elim_of_reads :
      (G : Result B × State → Type 0) (m : M A) (f : A → M B) (s : State)
      → (m s).1 ≡ s
      → ((a : A) → (m s).0 ≡ ok a → G (f a s))
      → ((r : Result B) → ((b : B) → ¬ (r ≡ ok b)) → G (r, s))
      → G ((m >>= f) s)
  >>=-elim_of_reads G m f s reads goes ends =
      >>=-elim G m f s
        (λ a t e.
          subst (λ u. G (f a u)) (sym reads ∙ ap (λ (p : Result A × State). p.1) e)
            (goes a (ap (λ (p : Result A × State). p.0) e)))
        (λ r not_ok. subst (λ u. G (r, u)) (sym reads) (ends r not_ok))
