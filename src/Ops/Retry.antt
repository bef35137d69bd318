-- ===== src/Ops/Retry.antt =====
-- The part of tokio-retry that near-fetch/src/ops.rs calls: `Retry::start`. It is a parameter;
-- `Starts` is its documented behaviour: the action is run, an error waits for the next duration
-- of the strategy and starts again, and the last error is returned when no duration is left.
use near_fetch.Prelude.{List, [], ◌∷◌, Option, none, some, ◌≡◌}
use near_fetch.Near.{Near}
use near_fetch.Error.{Result, ok, err, panic}
use near_fetch.Effects.{Net, M, State, sleep, ◌>>◌}

module _ ⦃near : Near⦄ ⦃net : Net⦄ where
  open near use {Duration, Strategy}

  pub record Retry : Type 1 where
    pub start : {A : Type 0} → Strategy → M A → M A

  -- what `start` does with the outcome of an attempt
  abbrev pub after_attempt :
      {A : Type 0}
      → (Strategy → M A → M A)
      → Option (Duration × Strategy)
      → M A
      → Result A × State
      → Result A × State
  after_attempt start left action (ok a, s) = (ok a, s)
  after_attempt start left action (panic, s) = (panic, s)
  after_attempt start none action (err e, s) = (err e, s)
  after_attempt start (some (d, strategy)) action (err e, s) = (sleep d >> start strategy action) s

  abbrev pub Starts : Retry → Type 1
  Starts r =
      (A : Type 0) (strategy : Strategy) (action : M A) (s : State)
      → r.start strategy action s ≡ after_attempt r.start (near.next strategy) action (action s)

  -- the strategy yields these durations, and then ends
  pub data Yields : Strategy → List Duration → Type 0 where
    done : {t : Strategy} → near.next t ≡ none → Yields t []
    more :
        {t u : Strategy} {d : Duration} {ds : List Duration}
        → near.next t ≡ some (d, u)
        → Yields u ds
        → Yields t (d ∷ ds)
