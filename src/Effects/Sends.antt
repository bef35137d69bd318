-- ===== src/Effects/Sends.antt =====
-- How many transactions a chain of effects (Effects.antt) sends at most.
use near_fetch.Prelude.{ℕ, ◌+◌, ◌≤◌, List, [], ◌∷◌, arith}
use near_fetch.Near.{Near}
use near_fetch.Near.Requests.{Method, Request}
use near_fetch.Error.{Result, ok, err, panic}
use near_fetch.Effects.{Net, Event, called, State, M, lift, call, sleep, ◌>>=◌}

module _ ⦃near : Near⦄ where
  abbrev pub counts : Event → ℕ
  counts (called Method.send_tx c r) = 1
  counts _ = 0

  -- the number of transactions in a trace
  abbrev pub sends : List Event → ℕ
  sends [] = 0
  sends (e ∷ es) = counts e + sends es

module _ ⦃near : Near⦄ ⦃net : Net⦄ where
  -- From every state, `m` sends `n` transactions at most.
  abbrev pub AtMost : {A : Type 0} → ℕ → M A → Type 0
  AtMost n m = (s : State) → sends (m s).1.trace ≤ sends s.trace + n

  pub lift-AtMost : {A : Type 0} (r : Result A) (n : ℕ) → AtMost n (lift r)
  lift-AtMost r n s = omega arith

  pub sleep-AtMost : (d : near.Duration) → AtMost 0 (sleep d)
  unfolding sleep
  sleep-AtMost d s = omega arith

  pub call-AtMost :
      (m : Method) (c : near.JsonRpcClient) (r : Request m)
      → AtMost (counts (called m c r)) (call m c r)
  unfolding call
  call-AtMost m c r s = omega arith

  pub >>=-AtMost :
      {A B : Type 0} (a b : ℕ) (m : M A) (f : A → M B)
      → AtMost a m
      → ((x : A) → AtMost b (f x))
      → AtMost (a + b) (m >>= f)
  >>=-AtMost {A} {B} a b m f first rest s = go (m s) (first s)
    where
      go :
          (p : Result A × State)
          → sends p.1.trace ≤ sends s.trace + a
          → sends
              (elim p.0 as (λ _. Result B × State) [
                | ok x ↦ f x p.1
                | err e ↦ (err e, p.1)
                | panic ↦ (panic, p.1)
              ]).1.trace
            ≤ sends s.trace + (a + b)
      go (ok x, t) h = omega (arith, rest x t)
      go (err e, t) h = omega arith
      go (panic, t) h = omega arith

  pub AtMost-weaken : {A : Type 0} (a b : ℕ) (m : M A) → a ≤ b → AtMost a m → AtMost b m
  AtMost-weaken a b m le h s = omega (arith, h s)
