-- ===== src/Tasks/Jobs/Progress.antt =====
-- near-fetch/src/lib.rs: tasks that send transactions with one client never block each other for
-- good.
use near_fetch.Prelude.{
  dec_lt, ℕ, true, false, Bool, ◌%◌, ◌≤◌, ◌≡◌, ◌≢◌, refl, ap, arith, inl, inr, length,
}
use near_fetch.Near.{Near}
use near_fetch.Error.{ok}
use near_fetch.Signer.{expose_account_id}
use near_fetch.Signer.Rotating.{index}
use near_fetch.Effects.{Signer, CacheKey, Net}
use near_fetch.Tasks as Tasks
use near_fetch.Tasks.{
  acquire_read, hit, miss, acquire_write, find_occupied, find_vacant, fetched, failed, viewed,
  viewed_occupied, cancelled, invalidate, Place, idle, looking, viewing, upgrading, entering,
  occupied, fetching,
}
use near_fetch.Tasks.Jobs.{
  Stage, taking, holding, has_signer_id, ready, resting, asking, sending, Jobs, put, Work, Fetches,
  Returns, Step, account, public_key, sign_tx, fetch_nonce, fetch, signer_id, sign, send, refused,
  finished, dropped, Reach, has_account, has_cache_key, has_key,
}
use near_fetch.Tasks.Jobs.Fits.{asks, takes-busy, asks-busy, asks-asking, AllFit}
use near_fetch.Tasks.Jobs.Places.{Reach-AllFit, at-Fits}
use near_fetch.Tasks.Load.{IsBelow}
use near_fetch.Tasks.Progress.{goes_on, GoesOn, guard-GoesOn, find_guard, no_deadlock, idle-stuck}

module _ ⦃near : Near⦄ where
  Returns-total :
      (i : ℕ) (k : CacheKey) (n : ℕ) (s : Jobs) (c : Tasks.System)
      → (t : Jobs) × Returns i k n s c t
  Returns-total i k n s c = (record (put i resting s) { cache = c }, inr refl)

  -- A step of a call of `fetch_nonce` is a step of the task that made the call.
  Fetches-total :
      (hash : near.CryptoHash) (s : Jobs) {c : Tasks.System} (st : Tasks.Step s.cache c)
      → AllFit s
      → goes_on st ≡ true
      → (t : Jobs) × Fetches s st t
  Fetches-total hash s (acquire_read i k p free e) fits on = cc
  Fetches-total hash s (hit i k n p found e) fits on =
      let (ck, at) = asks-asking (s.stage i) (s.cache.place i) k (ap asks p) (fits i) in
      (_, (ck, at, refl))
  Fetches-total hash s (miss i k p absent e) fits on = (_, refl)
  Fetches-total hash s (acquire_write i k p free e) fits on = (_, refl)
  Fetches-total hash s (find_occupied i k n p found e) fits on =
      let (ck, at) = asks-asking (s.stage i) (s.cache.place i) k (ap asks p) (fits i) in
      (_, (ck, at, refl))
  Fetches-total hash s (find_vacant i k p absent e) fits on = (_, refl)
  Fetches-total hash s (fetched i k n p e) fits on =
      let (ck, at) = asks-asking (s.stage i) (s.cache.place i) k (ap asks p) (fits i) in
      (_, (ck, hash, at, refl))
  Fetches-total hash s (failed i k p e) fits on = (_, refl)
  Fetches-total hash s {c} (viewed i k n p e) fits on = Returns-total i k n s c
  Fetches-total hash s {c} (viewed_occupied i k n p e) fits on = Returns-total i k n s c
  Fetches-total hash s (cancelled i k p e) fits on = cc
  Fetches-total hash s (invalidate k free e) fits on = cc

  -- Each signer of each task can sign, and there is one.
  abbrev pub CanSign : ⦃net : Net⦄ → Work → Type 0
  CanSign work =
      (i j : ℕ)
      → let signers = (work.signer i).signers in
        (signer : Signer) × (id : near.AccountId) × (index signers (j % length signers) ≡ ok signer)
        × (expose_account_id signer ≡ ok id)

  -- The steps inside `fetch_nonce` with which a call goes on: the first one included, which
  -- `Tasks.Progress.goes_on` leaves to the caller.
  abbrev pub fetch_goes_on : {s t : Tasks.System} → Tasks.Step s t → Bool
  fetch_goes_on (acquire_read _ _ _ _ _) = true
  fetch_goes_on st = goes_on st

module _ ⦃near : Near⦄ ⦃net : Net⦄ (work : Work) where
  -- The steps with which a task goes on sending a transaction that it has begun: not those of a
  -- new one, nor invalidations, nor dropped calls.
  abbrev pub moves_on : {s t : Jobs} → Step work s t → Bool
  moves_on (account _ _ _ _ _ _ _) = false
  moves_on (refused _ _ _ _ _ _) = false
  moves_on (dropped _ _ _ _ _ _) = false
  moves_on (fetch st _) = fetch_goes_on st
  moves_on _ = true

  abbrev pub MovesOn : Jobs → Type 0
  MovesOn s = (t : Jobs) × (st : Step work s t) × (moves_on st ≡ true)

  goes_on-fetch_goes_on :
      {s t : Tasks.System} (st : Tasks.Step s t) → goes_on st ≡ true → fetch_goes_on st ≡ true
  goes_on-fetch_goes_on (acquire_read i k p free e) on = refl
  goes_on-fetch_goes_on st on = on

  lift-MovesOn : near.CryptoHash → (s : Jobs) → AllFit s → GoesOn s.cache → MovesOn s
  lift-MovesOn hash s fits (c, st, on) =
      let (t, f) = Fetches-total hash s st fits on in (t, fetch st f, goes_on-fetch_goes_on st on)

  module _ (can_sign : CanSign work) (hash : near.CryptoHash) (n : ℕ) (s : Jobs) (fits : AllFit s)
      (rests : (j : ℕ) → n ≤ j → s.stage j ≡ resting) where
    idle_above : IsBelow n s.cache
    idle_above j ge = at-Fits j resting s (rests j ge) fits

    inside-MovesOn : (i : ℕ) → s.cache.place i ≢ Tasks.idle → MovesOn s
    inside-MovesOn i busy = lift-MovesOn hash s fits (no_deadlock n s.cache idle_above i busy)

    -- The call takes its first guard, or a task that has a guard goes on.
    enter-MovesOn :
        (i : ℕ) (ck k : CacheKey)
        → s.stage i ≡ asking ck k
        → s.cache.place i ≡ Tasks.idle
        → MovesOn s
    enter-MovesOn i ck k at out = elim (find_guard n s.cache) [
      | inl (j, g) ↦ lift-MovesOn hash s fits (guard-GoesOn j (s.cache.place j) s.cache refl g)
      | inr clear ↦
          let free : Tasks.NoWriter s.cache = λ j. elim (dec_lt j n) [
            | yes lt ↦ (clear j lt).1
            | no ge ↦ rw (idle_above j (omega arith)) refl
          ] in
          (_, fetch (acquire_read i k out free refl) (ck, at, refl), refl)
    ]

    stage-MovesOn : (i : ℕ) (p : Stage) → p ≢ resting → s.stage i ≡ p → MovesOn s
    stage-MovesOn i resting ne at = absurd (ne refl)
    stage-MovesOn i (has_account id) ne at =
        let (signer, own, now, acc) = can_sign i (s.counters (work.signer i).counter) in
        (_, public_key i signer id at now refl, refl)
    stage-MovesOn i (has_cache_key ck) ne at =
        let (signer, own, now, acc) = can_sign i (s.counters (work.signer i).counter) in
        (_, sign_tx i signer ck at now refl, refl)
    stage-MovesOn i (has_key ck pk) ne at =
        let (signer, own, now, acc) = can_sign i (s.counters (work.signer i).counter) in
        (_, fetch_nonce i signer ck pk own at now acc refl, refl)
    stage-MovesOn i (asking ck k) ne at = elim (at-Fits i (asking ck k) s at fits) [
      | inl out ↦ enter-MovesOn i ck k at out
      | inr inside ↦ inside-MovesOn i (asks-busy (s.cache.place i) k inside)
    ]
    stage-MovesOn i (taking ck c) ne at =
        inside-MovesOn i
          (takes-busy (s.cache.place i) c.key c.nonce (at-Fits i (taking ck c) s at fits))
    stage-MovesOn i (holding ck c h) ne at =
        let (signer, own, now, acc) = can_sign i (s.counters (work.signer i).counter) in
        (_, signer_id i signer ck c h own at now acc refl, refl)
    stage-MovesOn i (has_signer_id ck c h id) ne at =
        let (signer, own, now, acc) = can_sign i (s.counters (work.signer i).counter) in
        (_, sign i signer ck c h id at now refl, refl)
    stage-MovesOn i (ready ck c tx) ne at = (_, send i ck c tx at refl, refl)
    stage-MovesOn i (sending ck) ne at = (_, finished i ck at refl, refl)

  -- Tasks that send transactions with one client do not block each other: in every state that they
  -- reach, while one of finitely many tasks is sending, some task can go on with what it sends, if
  -- there is a signer at every turn of the counters, and a block hash for the network to answer
  -- with.
  pub Reach-MovesOn :
      CanSign work
      → near.CryptoHash
      → (n : ℕ) {s : Jobs} → Reach work s
      → ((j : ℕ) → n ≤ j → s.stage j ≡ resting)
      → (i : ℕ) → s.stage i ≢ resting
      → MovesOn s
  Reach-MovesOn can_sign hash n {s} r rests i busy =
      stage-MovesOn can_sign hash n s (Reach-AllFit work r) rests i (s.stage i) busy refl

  -- Where no task is sending, none goes on.
  pub resting-stuck : (s : Jobs) → AllFit s → ((i : ℕ) → s.stage i ≡ resting) → ¬ MovesOn s
  resting-stuck s fits rests (t, st, on) = nowhere st on
    where
      inside :
          (t : Jobs) {c : Tasks.System} (st : Tasks.Step s.cache c)
          → Fetches s st t
          → ¬ (fetch_goes_on st ≡ true)
      inside t (acquire_read i k p free e) (ck, at, f) on = ground (arith, rests i, at)
      inside t st f on = idle-stuck s.cache (λ i. at-Fits i resting s (rests i) fits) (_, st, on)

      nowhere : {t : Jobs} (st : Step work s t) → ¬ (moves_on st ≡ true)
      nowhere {t} (fetch st f) on = inside t st f on
      nowhere (account i signer id at now acc e) on = cc
      nowhere (public_key i signer id at now e) on = ground (arith, rests i, at)
      nowhere (sign_tx i signer ck at now e) on = ground (arith, rests i, at)
      nowhere (fetch_nonce i signer ck pk id at now acc e) on = ground (arith, rests i, at)
      nowhere (signer_id i signer ck c h id at now acc e) on = ground (arith, rests i, at)
      nowhere (sign i signer ck c h id at now e) on = ground (arith, rests i, at)
      nowhere (send i ck c tx at e) on = ground (arith, rests i, at)
      nowhere (refused i ck at free e f) on = cc
      nowhere (finished i ck at e) on = ground (arith, rests i, at)
      nowhere (dropped i ck k at out e) on = cc
