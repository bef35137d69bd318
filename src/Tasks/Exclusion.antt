-- ===== src/Tasks/Exclusion.antt =====
-- near-fetch/src/lib.rs: the guards that tasks have on the cache at the same time.
use near_fetch.Prelude.{ℕ, true, false, ◌≡◌, ◌≢◌, arith}
use near_fetch.Near.{Near}
use near_fetch.Tasks.{
  reads, writes, System, Step, acquire_read, hit, miss, acquire_write, find_occupied, find_vacant,
  fetched, failed, viewed, viewed_occupied, cancelled, invalidate, Reach, here, next,
}

module _ ⦃near : Near⦄ where
  abbrev pub IsExclusive : System → Type 0
  IsExclusive s =
      (i j : ℕ)
      → i ≢ j
      → writes (s.place i) ≡ true
      → (reads (s.place j) ≡ false) × (writes (s.place j) ≡ false)

  Step-IsExclusive : {s t : System} → Step s t → IsExclusive s → IsExclusive t
  Step-IsExclusive (acquire_read a k p free e) x i j ne w = ground (arith, x i j ne, free i, free j)
  Step-IsExclusive (hit a k n p found e) x i j ne w = ground (arith, x i j ne)
  Step-IsExclusive (miss a k p absent e) x i j ne w = ground (arith, x i j ne)
  Step-IsExclusive (acquire_write a k p free e) x i j ne w =
      ground (arith, x i j ne, free i, free j)
  Step-IsExclusive (find_occupied a k n p found e) x i j ne w = ground (arith, x i j ne)
  Step-IsExclusive (find_vacant a k p absent e) x i j ne w = ground (arith, x i j ne)
  Step-IsExclusive (fetched a k n p e) x i j ne w = ground (arith, x i j ne)
  Step-IsExclusive (failed a k p e) x i j ne w = ground (arith, x i j ne)
  Step-IsExclusive (viewed a k n p e) x i j ne w = ground (arith, x i j ne)
  Step-IsExclusive (viewed_occupied a k n p e) x i j ne w = ground (arith, x i j ne)
  Step-IsExclusive (cancelled a k p e) x i j ne w = ground (arith, x i j ne)
  Step-IsExclusive (invalidate k free e) x i j ne w = ground (arith, x i j ne)

  -- In every reachable state, while a task has the write guard of the cache, no other task has a
  -- guard.
  pub Reach-IsExclusive : {s : System} → Reach s → IsExclusive s
  Reach-IsExclusive here = λ i j ne w. ground arith
  Reach-IsExclusive (next r st) = Step-IsExclusive st (Reach-IsExclusive r)
