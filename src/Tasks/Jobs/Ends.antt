-- ===== src/Tasks/Jobs/Ends.antt =====
-- near-fetch/src/lib.rs: the sending of transactions comes to its end.
use near_fetch.Prelude.{ℕ, true, false, Bool, zero, ◌+◌, ◌≤◌, ◌≡◌, sym, arith, suc, ◌*◌}
use mathlib.Core.Path.{subst}
use near_fetch.Near.{Near}
use near_fetch.Effects.{Net}
use near_fetch.Tasks.Jobs.{
  Stage, ready, asking, sending, Jobs, Work, Step, account, public_key, sign_tx, fetch_nonce, fetch,
  signer_id, sign, send, refused, finished, dropped, Reach, next, has_key, signed,
}
use near_fetch.Tasks.{Place, idle}
use near_fetch.Tasks.Jobs.Fits.{AllFit}
use near_fetch.Tasks.Jobs.Places.{Reach-AllFit, at-Fits}
use near_fetch.Prelude.Sums.{sum_to-le}
use near_fetch.Tasks.Jobs.Load.{steps_left, load, AreBelow, Lowers, stage-Lowers}
use near_fetch.Tasks.Jobs.Fetching.{is_fetching, Fetches-Lowers}

module _ ⦃near : Near⦄ ⦃net : Net⦄ (work : Work) where
  -- The steps of transactions that were begun: not the first step of a new one, and no
  -- invalidations.
  abbrev pub is_work : {s t : Jobs} → Step work s t → Bool
  is_work (account _ _ _ _ _ _ _) = false
  is_work (refused _ _ _ _ _ _) = false
  is_work (fetch st _) = is_fetching st
  is_work _ = true

  -- A run of so many such steps.
  pub data Sends : ℕ → Jobs → Jobs → Type 0 where
    done : {s : Jobs} → Sends zero s s
    more :
        {m : ℕ} {s t u : Jobs} (st : Step work s t)
        → is_work st ≡ true
        → Sends m t u
        → Sends (suc m) s u

  module _ (n : ℕ) where
    Step-Lowers :
        {s t : Jobs} (st : Step work s t)
        → is_work st ≡ true
        → AllFit s
        → AreBelow n s
        → Lowers n s t
    Step-Lowers {s} {t} (fetch st f) w fits below = Fetches-Lowers n s t st w f fits below
    Step-Lowers (refused i ck at free e f) w fits below = cc
    Step-Lowers (account i signer id at now acc e) w fits below = cc
    Step-Lowers {s} (public_key i signer id at now e) w fits below =
        subst (Lowers n s) (sym e) (stage-Lowers n i _ _ s below at (omega arith))
    Step-Lowers {s} (sign_tx i signer ck at now e) w fits below =
        subst (Lowers n s) (sym e) (stage-Lowers n i _ _ s below at (omega arith))
    Step-Lowers {s} (fetch_nonce i signer ck pk id at now acc e) w fits below =
        let out = at-Fits i (has_key ck pk) s at fits in
        subst (Lowers n s) (sym e) (stage-Lowers n i _ _ s below at (rw out (omega arith)))
    Step-Lowers {s} (signer_id i signer ck c hash id at now acc e) w fits below =
        subst (Lowers n s) (sym e) (stage-Lowers n i _ _ s below at (omega arith))
    Step-Lowers {s} (sign i signer ck c hash id at now e) w fits below =
        let lowers =
          stage-Lowers n i _ (ready ck c (signed work i signer c hash id)) s below at
            (omega arith) in
        subst (Lowers n s) (sym e) (record { below = lowers.below; less = lowers.less })
    Step-Lowers {s} (send i ck c tx at e) w fits below =
        let lowers = stage-Lowers n i _ (sending ck) s below at (omega arith) in
        subst (Lowers n s) (sym e) (record { below = lowers.below; less = lowers.less })
    Step-Lowers {s} (finished i ck at e) w fits below =
        subst (Lowers n s) (sym e) (stage-Lowers n i _ _ s below at (omega arith))
    Step-Lowers {s} (dropped i ck k at out e) w fits below =
        subst (Lowers n s) (sym e) (stage-Lowers n i _ _ s below at (rw out (omega arith)))

    Sends-load :
        {m : ℕ} {s t : Jobs}
        → Sends m s t
        → Reach work s
        → AreBelow n s
        → Reach work t × AreBelow n t × (m + load n t ≤ load n s)
    Sends-load done r below = (r, below, omega arith)
    Sends-load (more st w rest) r below =
        let lowers = Step-Lowers st w (Reach-AllFit work r) below in
        let (r', below', bound) = Sends-load rest (next r st) lowers.below in
        (r', below', omega (arith, lowers.less))

    left-le : (p : Stage) (q : Place) → steps_left p q ≤ 13
    left-le (asking _ _) idle = omega arith
    left-le (asking _ _) q = ground arith
    left-le p q = omega arith

    -- However the tasks of one client take turns, the network answers and calls are dropped, the
    -- sending of transactions by finitely many tasks is over after at most as many steps as were
    -- left to each of them, thirteen for each task, but for invalidations: no transaction is sent
    -- for ever.
    pub Sends-bounded :
        {m : ℕ} {s t : Jobs}
        → Sends m s t
        → Reach work s
        → AreBelow n s
        → (m + load n t ≤ load n s) × (m ≤ 13 * n)
    Sends-bounded {s} run r below =
        let (_, _, bound) = Sends-load run r below in
        let most =
          sum_to-le (λ i. steps_left (s.stage i) (s.cache.place i)) 13
            (λ i. left-le (s.stage i) (s.cache.place i)) n in
        (bound, omega (arith, bound, most))
