-- ===== src/Tasks/Load.antt =====
-- near-fetch/src/lib.rs: how many steps calls of `fetch_nonce` by any number of tasks take.
use near_fetch.Prelude.{ℕ, zero, suc, ◌+◌, ◌*◌, ◌<◌, ◌≤◌, Bool, true, false, ◌≡◌, ap, arith, dec_lt}
use near_fetch.Near.{Near}
use near_fetch.Effects.{update}
use near_fetch.Client.Nonce.{next_nonce}
use near_fetch.Tasks.{
  Place, idle, looking, viewing, upgrading, entering, occupied, fetching, System, Step,
  acquire_read, hit, miss, acquire_write, find_occupied, find_vacant, fetched, failed, viewed,
  viewed_occupied, cancelled, invalidate,
}
use near_fetch.Prelude.Sums.{sum_to, sum_to-le, sum_to-lt}

module _ ⦃near : Near⦄ where
  -- how many steps a task needs at most until its call ends
  abbrev pub rank : Place → ℕ
  rank idle = 0
  rank (looking _) = 4
  rank (viewing _ _) = 1
  rank (upgrading _) = 3
  rank (entering _) = 2
  rank (occupied _ _) = 1
  rank (fetching _) = 1

  -- The steps that go on with a call: all but a new call, and the cache's invalidation.
  abbrev pub is_work : {s t : System} → Step s t → Bool
  is_work (acquire_read _ _ _ _ _) = false
  is_work (invalidate _ _ _) = false
  is_work _ = true

  -- Only the first `n` tasks are in calls.
  abbrev pub IsBelow : ℕ → System → Type 0
  IsBelow n s = (j : ℕ) → n ≤ j → s.place j ≡ idle

  abbrev pub load : ℕ → System → ℕ
  load n s = sum_to (λ j. rank (s.place j)) n

  -- A run of so many such steps.
  pub data Works : ℕ → System → System → Type 0 where
    done : {s : System} → Works zero s s
    more :
        {m : ℕ} {s t u : System} (st : Step s t)
        → is_work st ≡ true
        → Works m t u
        → Works (suc m) s u

  same_places : {s t : System} → s ≡ t → s.place ≡ t.place
  same_places e = ap (λ (u : System). u.place) e

  module _ (n : ℕ) where
    below-lt : (s : System) (i : ℕ) → IsBelow n s → 0 < rank (s.place i) → i < n
    below-lt s i below busy = elim (dec_lt i n) [
      | yes lt ↦ lt
      | no ge ↦ absurd (ground (arith, below i (omega arith)))
    ]

    -- A task moves on, and the others stay.
    record Lowers (s t : System) : Type 0 where
      below : IsBelow n t
      less : load n t < load n s

    move-Lowers :
        (i : ℕ) (p : Place) (s t : System)
        → IsBelow n s
        → rank p < rank (s.place i)
        → t.place ≡ update s.place i p
        → Lowers s t
    move-Lowers i p s t below less e =
        let lt = below-lt s i below (omega arith) in
        record {
          below = λ j ge. rw e (ground (arith, below j ge));
          less = rw e (
              sum_to-lt (λ j. rank (update s.place i p j)) (λ j. rank (s.place j)) i n lt
                (λ j ne. ground arith) (ground arith));
        }

    Step-Lowers : {s t : System} (st : Step s t) → is_work st ≡ true → IsBelow n s → Lowers s t
    Step-Lowers (acquire_read i k p free e) w below = cc
    Step-Lowers {s} {t} (hit i k m p found e) w below =
        move-Lowers i (viewing k (next_nonce m)) s t below (ground arith) (same_places e)
    Step-Lowers {s} {t} (miss i k p absent e) w below =
        move-Lowers i (upgrading k) s t below (ground arith) (same_places e)
    Step-Lowers {s} {t} (acquire_write i k p free e) w below =
        move-Lowers i (entering k) s t below (ground arith) (same_places e)
    Step-Lowers {s} {t} (find_occupied i k m p found e) w below =
        move-Lowers i (occupied k (next_nonce m)) s t below (ground arith) (same_places e)
    Step-Lowers {s} {t} (find_vacant i k p absent e) w below =
        move-Lowers i (fetching k) s t below (ground arith) (same_places e)
    Step-Lowers {s} {t} (fetched i k m p e) w below =
        move-Lowers i idle s t below (ground arith) (same_places e)
    Step-Lowers {s} {t} (failed i k p e) w below =
        move-Lowers i idle s t below (ground arith) (same_places e)
    Step-Lowers {s} {t} (viewed i k m p e) w below =
        move-Lowers i idle s t below (ground arith) (same_places e)
    Step-Lowers {s} {t} (viewed_occupied i k m p e) w below =
        move-Lowers i idle s t below (ground arith) (same_places e)
    Step-Lowers {s} {t} (cancelled i k p e) w below =
        move-Lowers i idle s t below (ground arith) (same_places e)
    Step-Lowers (invalidate k free e) w below = cc

    pub Works-load :
        {m : ℕ} {s t : System} → Works m s t → IsBelow n s → IsBelow n t × (m + load n t ≤ load n s)
    Works-load done below = (below, omega arith)
    Works-load (more st w rest) below =
        let lowers = Step-Lowers st w below in
        let (below', bound) = Works-load rest lowers.below in (below', omega (arith, lowers.less))

    load-le : (s : System) → load n s ≤ 4 * n
    load-le s = sum_to-le (λ j. rank (s.place j)) 4 (λ j. ground arith) n

    -- However the network answers and whichever tasks go on, a run without new calls and without
    -- invalidations has at most as many steps as the places of the tasks add up to, four for each
    -- task: no call goes on for ever.
    pub Works-bounded :
        {m : ℕ} {s t : System} → Works m s t → IsBelow n s → (m + load n t ≤ load n s) × (m ≤ 4 * n)
    Works-bounded {s} w below =
        let (_, bound) = Works-load w below in (bound, omega (arith, load-le s))
