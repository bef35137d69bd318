-- ===== src/Tasks/Progress.antt =====
-- near-fetch/src/lib.rs: calls of `fetch_nonce` by any number of tasks come to their ends, if the
-- network answers and tokio goes on with a task that can go on.
use near_fetch.Prelude.{
  ℕ, zero, suc, ◌<◌, Bool, true, false, ◌||◌, ◌≡◌, ◌≢◌, refl, arith, ◌⊎◌, inl, inr, Bool-cases,
  Option-cases, lookup, dec_lt,
}
use near_fetch.Near.{Near}
use near_fetch.Effects.{CacheKey, cache_key_eq}
use near_fetch.Tasks.{
  Place, idle, looking, viewing, upgrading, entering, occupied, fetching, reads, writes, System,
  IsFree, Step, acquire_read, hit, miss, acquire_write, find_occupied, find_vacant, fetched, failed,
  viewed, viewed_occupied, cancelled, invalidate,
}
use near_fetch.Tasks.Load.{rank, IsBelow, Works, Works-load}

module _ ⦃near : Near⦄ where
  -- The steps that go on with a call of their own accord: a dropped call does not.
  abbrev pub goes_on : {s t : System} → Step s t → Bool
  goes_on (acquire_read _ _ _ _ _) = false
  goes_on (cancelled _ _ _ _) = false
  goes_on (invalidate _ _ _) = false
  goes_on _ = true

  -- Some task goes on with its call.
  abbrev pub GoesOn : System → Type 0
  GoesOn s = (t : System) × (st : Step s t) × (goes_on st ≡ true)

  -- A task that has a guard goes on by itself.
  pub guard-GoesOn :
      (i : ℕ) (p : Place) (s : System) → s.place i ≡ p → (reads p || writes p) ≡ true → GoesOn s
  guard-GoesOn i idle s e g = cc
  guard-GoesOn i (looking k) s e g = elim (Option-cases (lookup cache_key_eq k s.nonces)) [
    | inl absent ↦ (_, miss i k e absent refl, refl)
    | inr (m, found) ↦ (_, hit i k m e found refl, refl)
  ]
  guard-GoesOn i (viewing k m) s e g = (_, viewed i k m e refl, refl)
  guard-GoesOn i (upgrading k) s e g = cc
  guard-GoesOn i (entering k) s e g = elim (Option-cases (lookup cache_key_eq k s.nonces)) [
    | inl absent ↦ (_, find_vacant i k e absent refl, refl)
    | inr (m, found) ↦ (_, find_occupied i k m e found refl, refl)
  ]
  guard-GoesOn i (occupied k m) s e g = (_, viewed_occupied i k m e refl, refl)
  guard-GoesOn i (fetching k) s e g = (_, failed i k e refl, refl)

  -- One of the first `n` tasks has a guard, or none has.
  pub find_guard :
      (n : ℕ) (s : System)
      → ((i : ℕ) × ((reads (s.place i) || writes (s.place i)) ≡ true))
        ⊎ ((j : ℕ) → j < n → (reads (s.place j) ≡ false) × (writes (s.place j) ≡ false))
  find_guard zero s = inr (λ j lt. absurd (omega arith))
  find_guard (suc n) s = elim (Bool-cases (reads (s.place n) || writes (s.place n))) [
    | inl here ↦ inl (n, here)
    | inr clear ↦ elim (find_guard n s) [
      | inl found ↦ inl found
      | inr none_below ↦ inr (λ j lt. elim (dec_lt j n) [
        | yes below ↦ none_below j below
        | no last ↦ let here : j ≡ n = omega arith in rw here (ground arith, ground arith)
      ])
    ]
  ]

  module _ (n : ℕ) (s : System) (below : IsBelow n s) where
    upgrading-GoesOn : (i : ℕ) (k : CacheKey) → s.place i ≡ upgrading k → GoesOn s
    upgrading-GoesOn i k e = elim (find_guard n s) [
      | inl (j, g) ↦ guard-GoesOn j (s.place j) s refl g
      | inr clear ↦
          let free : IsFree s = λ j. elim (dec_lt j n) [
            | yes lt ↦ clear j lt
            | no ge ↦ rw (below j (omega arith)) (refl, refl)
          ] in
          (_, acquire_write i k e free refl, refl)
    ]

    busy-GoesOn : (i : ℕ) (p : Place) → s.place i ≡ p → 0 < rank p → GoesOn s
    busy-GoesOn i idle e busy = absurd (omega arith)
    busy-GoesOn i (upgrading k) e busy = upgrading-GoesOn i k e
    busy-GoesOn i (looking k) e busy = guard-GoesOn i (looking k) s e refl
    busy-GoesOn i (viewing k m) e busy = guard-GoesOn i (viewing k m) s e refl
    busy-GoesOn i (entering k) e busy = guard-GoesOn i (entering k) s e refl
    busy-GoesOn i (occupied k m) e busy = guard-GoesOn i (occupied k m) s e refl
    busy-GoesOn i (fetching k) e busy = guard-GoesOn i (fetching k) s e refl

    -- There is no deadlock: while one of finitely many tasks is in a call, some task can go on with
    -- its call.
    pub no_deadlock : (i : ℕ) → s.place i ≢ idle → GoesOn s
    no_deadlock i busy = busy-GoesOn i (s.place i) refl (rank_pos (s.place i) busy)
      where
        rank_pos : (p : Place) → p ≢ idle → 0 < rank p
        rank_pos idle ne = absurd (ne refl)
        rank_pos p ne = omega arith

  -- No task is in a call.
  abbrev pub AllIdle : System → Type 0
  AllIdle s = (i : ℕ) → s.place i ≡ idle

  -- Where no task is in a call, none goes on.
  pub idle-stuck : (s : System) → AllIdle s → ¬ GoesOn s
  idle-stuck s idles (t, st, w) = nowhere st w
    where
      nowhere : {t : System} (st : Step s t) → ¬ (goes_on st ≡ true)
      nowhere (acquire_read i k p free e) w = cc
      nowhere (hit i k m p found e) w = ground (arith, idles i)
      nowhere (miss i k p absent e) w = ground (arith, idles i)
      nowhere (acquire_write i k p free e) w = ground (arith, idles i)
      nowhere (find_occupied i k m p found e) w = ground (arith, idles i)
      nowhere (find_vacant i k p absent e) w = ground (arith, idles i)
      nowhere (fetched i k m p e) w = ground (arith, idles i)
      nowhere (failed i k p e) w = ground (arith, idles i)
      nowhere (viewed i k m p e) w = ground (arith, idles i)
      nowhere (viewed_occupied i k m p e) w = ground (arith, idles i)
      nowhere (cancelled i k p e) w = cc
      nowhere (invalidate k free e) w = cc

  -- Every call that has its first guard ends: a run of finitely many tasks, without new calls, that
  -- cannot go on has come to a state where no task is in a call, whichever way the tasks took turns
  -- and the network answered.
  pub Works-ends :
      (n : ℕ) {m : ℕ} {s t : System} → IsBelow n s → Works m s t → ¬ GoesOn t → AllIdle t
  Works-ends n {t} below w stuck i = place_cases (t.place i) refl
    where
      below' : IsBelow n t
      below' = (Works-load n w below).0

      place_cases : (p : Place) → t.place i ≡ p → t.place i ≡ idle
      place_cases idle e = e
      place_cases p e = absurd (stuck (busy-GoesOn n t below' i p e (omega arith)))
