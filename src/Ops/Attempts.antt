-- ===== src/Ops/Attempts.antt =====
-- near-fetch/src/ops.rs: how often a transaction is sent when it is awaited, with a retry strategy
-- and without.
use near_fetch.Prelude.{
  ℕ, suc, ◌+◌, ◌≤◌, List, [], ◌∷◌, Bool, Option, none, some, ◌≡◌, refl, ◌∙◌, arith, length,
}
use near_fetch.Near.{Near}
use near_fetch.Near.Requests.{Action}
use near_fetch.Error.{Result, ok, err, panic}
use near_fetch.Effects.{Net, State, M, sleep, lift}
use near_fetch.Effects.Sends.{sends, AtMost, sleep-AtMost, lift-AtMost, >>=-AtMost}
use near_fetch.Signer.Lawful.{IsLawful}
use near_fetch.Client.Send.{send_tx_once}
use near_fetch.Client.Traffic.{send_tx_once-AtMost}
use near_fetch.Ops.Retry.{Retry, Starts, Yields, done, more, after_attempt}
use near_fetch.Ops.Retryable.{RetryableTransaction, into_future, start_with, retry_exponential}

module _ ⦃near : Near⦄ ⦃net : Net⦄ where
  -- What to do after an attempt, with what is left to do on an error.
  abbrev pub or_else : {A : Type 0} → M A → Result A × State → Result A × State
  or_else next (ok a, s) = (ok a, s)
  or_else next (err e, s) = next s
  or_else next (panic, s) = (panic, s)

  -- The attempts that a list of delays allows: the action is run until it succeeds, with a delay
  -- before each run but the first, and its last error is returned when no delay is left.
  unfoldable pub attempts : {A : Type 0} → List near.Duration → M A → M A
  attempts [] action s = action s
  attempts (d ∷ ds) action s = or_else (λ t. attempts ds action (sleep d t).1) (action s)

  pub after_done :
      {A : Type 0} (start : near.Strategy → M A → M A) (action : M A) (p : Result A × State)
      → after_attempt start none action p ≡ p
  after_done start action (ok a, s) = refl
  after_done start action (err e, s) = refl
  after_done start action (panic, s) = refl

  pub after_more :
      {A : Type 0} (start : near.Strategy → M A → M A) (action : M A) (d : near.Duration)
      (u : near.Strategy) (ds : List near.Duration)
      → ((s : State) → start u action s ≡ attempts ds action s)
      → (p : Result A × State)
      → after_attempt start (some (d, u)) action p
        ≡ or_else (λ t. attempts ds action (sleep d t).1) p
  unfolding sleep
  after_more start action d u ds same (ok a, s) = refl
  after_more start action d u ds same (err e, s) = same (sleep d s).1
  after_more start action d u ds same (panic, s) = refl

  -- `Retry::start`, as tokio-retry documents it, makes the attempts that its strategy allows.
  pub start-attempts :
      {A : Type 0} (r : Retry) (t : near.Strategy) (ds : List near.Duration)
      → Starts r
      → Yields t ds
      → (action : M A) (s : State) → r.start t action s ≡ attempts ds action s
  unfolding attempts
  start-attempts {A} r t [] starts (done e) action s =
      starts A t action s ∙ rw e (after_done r.start action (action s))
  start-attempts {A} r t (d ∷ ds) starts (more {u = u} e y) action s =
      starts A t action s
      ∙ rw e (after_more r.start action d u ds (start-attempts r u ds starts y action) (action s))

  or_else-AtMost :
      {A : Type 0} (n : ℕ) (d : near.Duration) (next : M A) (s : State) (p : Result A × State)
      → AtMost n next
      → sends p.1.trace ≤ sends s.trace + 1
      → sends (or_else (λ t. next (sleep d t).1) p).1.trace ≤ sends s.trace + suc n
  or_else-AtMost n d next s (ok a, t) bound h = omega arith
  or_else-AtMost n d next s (err e, t) bound h =
      omega (arith, bound (sleep d t).1, sleep-AtMost d t)
  or_else-AtMost n d next s (panic, t) bound h = omega arith

  attempts-AtMost :
      {A : Type 0} (ds : List near.Duration) (action : M A)
      → AtMost 1 action
      → AtMost (suc (length ds)) (attempts ds action)
  unfolding attempts
  attempts-AtMost [] action bound s = bound s
  attempts-AtMost (d ∷ ds) action bound s =
      or_else-AtMost (suc (length ds)) d (attempts ds action) s (action s)
        (attempts-AtMost ds action bound) (bound s)

  -- The delays that a transaction may wait: none without a strategy.
  abbrev pub Allows : Option near.Strategy → List near.Duration → Type 0
  Allows none ds = ds ≡ []
  Allows (some t) ds = Yields t ds

  module _ ⦃r : Retry⦄ (starts : Starts r) where
    start_with-AtMost :
        {A : Type 0} (strategy : Option near.Strategy) (ds : List near.Duration) (action : M A)
        → Allows strategy ds
        → AtMost 1 action
        → AtMost (suc (length ds)) (start_with strategy action)
    start_with-AtMost none ds action none_left bound s = omega (arith, bound s)
    start_with-AtMost (some t) ds action y bound s =
        rw (start-attempts r t ds starts y action s) (attempts-AtMost ds action bound s)

    -- A transaction that is awaited is sent once at most, and once more for each delay of its retry
    -- strategy, if the signer keeps its contract and `Retry::start` behaves as documented.
    pub into_future-AtMost :
        {verify : near.PublicKey → List ℕ → near.Signature → Bool} (t : RetryableTransaction)
        (ds : List near.Duration)
        → IsLawful verify t.signer
        → Allows t.strategy ds
        → AtMost (suc (length ds)) (into_future t)
    unfolding into_future
    into_future-AtMost t ds lawful allowed s =
        let once = λ (actions : List Action).
          send_tx_once t.client t.signer t.receiver_id actions t.wait_until in
        omega (
          arith,
          >>=-AtMost 0 (suc (length ds)) (lift t.actions)
              (λ actions. start_with t.strategy (once actions)) (lift-AtMost t.actions 0)
              (λ actions.
                start_with-AtMost t.strategy ds (once actions) allowed
                  (send_tx_once-AtMost lawful t.client t.receiver_id actions t.wait_until))
              s,
        )

    -- With `retry_exponential` it is sent `max_retries + 1` times at most, if `Iterator::take` cuts
    -- its iterator off, the signer keeps its contract and `Retry::start` behaves as documented.
    pub retry_exponential-AtMost :
        {verify : near.PublicKey → List ℕ → near.Signature → Bool} (base_millis max_retries : ℕ)
        (t : RetryableTransaction) (ds : List near.Duration)
        → IsLawful verify t.signer
        → Yields (near.take max_retries (near.jittered_backoff base_millis)) ds
        → ((n : ℕ) (st : near.Strategy) (l : List near.Duration)
            → Yields (near.take n st) l
            → length l ≤ n)
        → AtMost (suc max_retries) (into_future (retry_exponential base_millis max_retries t))
    unfolding retry_exponential
    retry_exponential-AtMost base_millis max_retries t ds lawful y cut s = omega (
      arith,
      into_future-AtMost (retry_exponential base_millis max_retries t) ds lawful y s,
      cut max_retries (near.jittered_backoff base_millis) ds y,
    )
