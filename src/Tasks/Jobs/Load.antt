-- ===== src/Tasks/Jobs/Load.antt =====
-- near-fetch/src/lib.rs: how many steps the sending of transactions takes.
use near_fetch.Prelude.{dec_lt, ℕ, ◌+◌, ◌<◌, ◌≤◌, ◌≡◌, ◌≢◌, refl, ◌∙◌, ap, arith}
use near_fetch.Near.{Near}
use near_fetch.Effects.{update}
use near_fetch.Tasks as Tasks
use near_fetch.Tasks.{
  acquire_read, hit, miss, acquire_write, find_occupied, find_vacant, fetched, failed, viewed,
  viewed_occupied, cancelled, invalidate, Place, idle, looking, viewing, upgrading, entering,
  occupied, fetching,
}
use near_fetch.Tasks.Jobs.{
  Stage, taking, holding, has_signer_id, ready, resting, asking, sending, Jobs, put, has_account,
  has_cache_key, has_key,
}
use near_fetch.Prelude.Sums.{sum_to, sum_to-lt}
use near_fetch.Tasks.Load.{rank}

module _ ⦃near : Near⦄ where
  -- how many steps a task needs at most until it rests
  abbrev pub steps_left : Stage → Place → ℕ
  steps_left resting _ = 0
  steps_left (has_account _) _ = 13
  steps_left (has_cache_key _) _ = 12
  steps_left (has_key _ _) _ = 11
  steps_left (asking _ _) idle = 10
  steps_left (asking _ _) q = 5 + rank q
  steps_left (taking _ _) _ = 5
  steps_left (holding _ _ _) _ = 4
  steps_left (has_signer_id _ _ _ _) _ = 3
  steps_left (ready _ _ _) _ = 2
  steps_left (sending _) _ = 1

  abbrev left_at : Jobs → ℕ → ℕ
  left_at s i = steps_left (s.stage i) (s.cache.place i)

  abbrev pub load : ℕ → Jobs → ℕ
  load n s = sum_to (left_at s) n

  -- Only the first `n` tasks are sending.
  abbrev pub AreBelow : ℕ → Jobs → Type 0
  AreBelow n s = (j : ℕ) → n ≤ j → s.stage j ≡ resting

  module _ (n : ℕ) where
    -- A task goes on, and the others stay.
    pub record Lowers (s t : Jobs) : Type 0 where
      pub below : AreBelow n t
      pub less : load n t < load n s

    busy-lt : (i : ℕ) (s : Jobs) → AreBelow n s → 0 < left_at s i → i < n
    busy-lt i s below busy = elim (dec_lt i n) [
      | yes lt ↦ lt
      | no ge ↦ absurd (
          let none_left : left_at s i ≡ 0 =
            ap (λ p. steps_left p (s.cache.place i)) (below i (omega arith)) in
          omega (arith, none_left, busy))
    ]

    -- The task `i` goes from a stage and a place to others.
    one-Lowers :
        (i : ℕ) (p p' : Stage) (q q' : Place) (s t : Jobs)
        → AreBelow n s
        → ((j : ℕ) → j ≢ i → t.stage j ≡ s.stage j)
        → ((j : ℕ) → j ≢ i → t.cache.place j ≡ s.cache.place j)
        → (s.stage i ≡ p) × (s.cache.place i ≡ q)
        → (t.stage i ≡ p') × (t.cache.place i ≡ q')
        → steps_left p' q' < steps_left p q
        → Lowers s t
    one-Lowers i p p' q q' s t below stages places (at, is) (at', is') less =
        let before = ap (λ x. steps_left x (s.cache.place i)) at ∙ ap (steps_left p) is in
        let after = ap (λ x. steps_left x (t.cache.place i)) at' ∙ ap (steps_left p') is' in
        let fewer : left_at t i < left_at s i = omega (arith, before, after, less) in
        let lt = busy-lt i s below (omega (arith, fewer)) in
        record {
          below = λ j ge. stages j (λ e. omega (arith, e, ge, lt)) ∙ below j ge;
          less =
              sum_to-lt (left_at t) (left_at s) i n lt
                (λ j ne.
                  ap (λ x. steps_left x (t.cache.place j)) (stages j ne)
                  ∙ ap (steps_left (s.stage j)) (places j ne))
                fewer;
        }

    -- It goes on inside `fetch_nonce`, where it leaves its stage or not.
    pub both-Lowers :
        (i : ℕ) (p p' : Stage) (q q' : Place) (s : Jobs) (c : Tasks.System)
        → AreBelow n s
        → c.place ≡ update s.cache.place i q'
        → (s.stage i ≡ p) × (s.cache.place i ≡ q)
        → steps_left p' q' < steps_left p q
        → Lowers s (record (put i p' s) { cache = c })
    both-Lowers i p p' q q' s c below e was less =
        one-Lowers i p p' q q' s (record (put i p' s) { cache = c }) below
          (λ j ne. ground (arith, ne)) (λ j ne. ap (λ (f : ℕ → Place). f j) e ∙ ground (arith, ne))
          was (ground arith, ap (λ (f : ℕ → Place). f i) e ∙ ground arith) less

    pub place-Lowers :
        (i : ℕ) (p : Stage) (q q' : Place) (s : Jobs) (c : Tasks.System)
        → AreBelow n s
        → c.place ≡ update s.cache.place i q'
        → (s.stage i ≡ p) × (s.cache.place i ≡ q)
        → steps_left p q' < steps_left p q
        → Lowers s (record s { cache = c })
    place-Lowers i p q q' s c below e was less =
        one-Lowers i p p q q' s (record s { cache = c }) below (λ j ne. refl)
          (λ j ne. ap (λ (f : ℕ → Place). f j) e ∙ ground (arith, ne)) was
          (was.0, ap (λ (f : ℕ → Place). f i) e ∙ ground arith) less

    -- It goes on outside.
    pub stage-Lowers :
        (i : ℕ) (p p' : Stage) (s : Jobs)
        → AreBelow n s
        → s.stage i ≡ p
        → steps_left p' (s.cache.place i) < steps_left p (s.cache.place i)
        → Lowers s (put i p' s)
    stage-Lowers i p p' s below at less =
        one-Lowers i p p' (s.cache.place i) (s.cache.place i) s (put i p' s) below
          (λ j ne. ground (arith, ne)) (λ j ne. refl) (at, refl) (ground arith, refl) less
