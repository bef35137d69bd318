-- ===== src/Ops/Waiting.antt =====
-- near-fetch/src/ops.rs: the loop of `AsyncTransactionStatus::wait`, against a relation that
-- describes its runs.
use near_fetch.Prelude.{
  ℕ, zero, suc, ◌<◌, Option, none, some, ◌≡◌, refl, sym, ap, ◌∙◌, arith, ◌⊎◌, inl, inr,
}
use mathlib.Core.Option.{some-injective}
use near_fetch.Near.{Near}
use near_fetch.Error.{Result, ok, err, panic}
use near_fetch.Effects.{Net, State, sleep}
use near_fetch.Execution.{ExecutionFinalResult}
use near_fetch.Ops.Status.{Poll, ready, pending, AsyncTransactionStatus, status, wait}

module _ ⦃near : Near⦄ where
  -- What a poll that is not pending ends the loop with.
  abbrev pub final : Result (Poll ExecutionFinalResult) → Option (Result ExecutionFinalResult)
  final (ok (ready val)) = some (ok val)
  final (ok pending) = none
  final (err e) = some (err e)
  final panic = some panic

  Poll-cases :
      (r : Result (Poll ExecutionFinalResult))
      → (r ≡ ok pending) ⊎ ((o : Result ExecutionFinalResult) × (final r ≡ some o))
  Poll-cases (ok (ready val)) = inr (ok val, refl)
  Poll-cases (ok pending) = inl refl
  Poll-cases (err e) = inr (err e, refl)
  Poll-cases panic = inr (panic, refl)

module _ ⦃near : Near⦄ ⦃net : Net⦄ (interval : near.Duration) (t : AsyncTransactionStatus) where
  -- The loop from a state to its end, with the number of polls that were pending: it polls, ends
  -- if the poll is not pending, and else sleeps for the interval and goes on.
  pub data Waits : ℕ → State → Result ExecutionFinalResult × State → Type 0 where
    stop :
        {s : State} {out : Result ExecutionFinalResult × State}
        → final (status t s).0 ≡ some out.0
        → (status t s).1 ≡ out.1
        → Waits zero s out
    again :
        {n : ℕ} {s : State} {out : Result ExecutionFinalResult × State}
        → (status t s).0 ≡ ok pending
        → Waits n (sleep interval (status t s).1).1 out
        → Waits (suc n) s out

  -- If the loop ends after some pending polls, `wait` returns that end, given more rounds than
  -- there are pending polls.
  pub wait-eq-some_of-Waits :
      (fuel n : ℕ) (s : State) (out : Result ExecutionFinalResult × State)
      → Waits n s out
      → n < fuel
      → wait fuel interval t s ≡ some out
  unfolding wait
  wait-eq-some_of-Waits zero n s out w h = absurd (omega arith)
  wait-eq-some_of-Waits (suc fuel) zero s out (stop e u) h = ground (arith, e, u)
  wait-eq-some_of-Waits (suc fuel) (suc n) s out (again e w) h =
      rw (e, wait) (wait-eq-some_of-Waits fuel n _ out w (omega arith))

  wait-pending :
      (fuel : ℕ) (s : State)
      → (status t s).0 ≡ ok pending
      → wait (suc fuel) interval t s ≡ wait fuel interval t (sleep interval (status t s).1).1
  unfolding wait
  wait-pending fuel s e = rw (e, wait)

  wait-final :
      (fuel : ℕ) (s : State) (r : Result ExecutionFinalResult)
      → final (status t s).0 ≡ some r
      → wait (suc fuel) interval t s ≡ some (r, (status t s).1)
  unfolding wait
  wait-final fuel s r e = ground (arith, e)

  -- Whenever `wait` returns, the loop ends there, after fewer pending polls than rounds.
  pub Waits-of-wait :
      (fuel : ℕ) (s : State) (out : Result ExecutionFinalResult × State)
      → wait fuel interval t s ≡ some out
      → (n : ℕ) × (n < fuel) × Waits n s out
  unfolding wait
  Waits-of-wait zero s out e = absurd (ground arith)
  Waits-of-wait (suc fuel) s out e = elim (Poll-cases (status t s).0) [
    | inl waiting ↦
        let (n, less, w) = Waits-of-wait fuel _ out (sym (wait-pending fuel s waiting) ∙ e) in
        (suc n, omega arith, again waiting w)
    | inr (r, ended) ↦
        let same : (r, (status t s).1) ≡ out =
          some-injective _ _ (sym (wait-final fuel s r ended) ∙ e) in
        (
          zero,
          omega arith,
          stop (ended ∙ ap (λ (p : Result ExecutionFinalResult × State). some p.0) same)
              (ap (λ (p : Result ExecutionFinalResult × State). p.1) same),
        )
  ]
