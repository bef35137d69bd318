-- ===== src/Tests/Interleavings.antt =====
-- Tasks that share a cache (Tasks.antt) in the small world: a task asks the chain for an access key,
-- and then another one takes the next nonce from the cache.
use near_fetch.Prelude.{refl, arith, ℕ_discrete}
use near_fetch.Effects.{CacheKey, cache_key_eq}
use near_fetch.Tasks.{
  System, start, Reach, here, next, IsWithin, acquire_read, miss, acquire_write, find_vacant,
  fetched, hit, move, take, idle, looking, upgrading, entering, fetching, viewing,
}
use near_fetch.Tasks.Unique.{IsRising, Reach-IsRising}
use near_fetch.Tasks.Load.{IsBelow, Works, done, more}
use near_fetch.Tasks.Progress as Progress
use near_fetch.Tasks.Progress.{idle-stuck, Works-ends}
use near_fetch.Tasks.Alone.{Simulates, fetch_nonce-Simulates}
use near_fetch.Client.Nonce.{fetch_nonce}
use near_fetch.Tests.World.{small, small_net, client, fresh_state}

abbrev key : CacheKey
key = (1, 2)

abbrev looks : System
looks = move 0 (looking key) start

abbrev upgrades : System
upgrades = move 0 (upgrading key) looks

abbrev enters : System
enters = move 0 (entering key) upgrades

-- the task 0 has the write guard and waits for the network
abbrev fetches : System
fetches = move 0 (fetching key) enters

abbrev first_issued : System
first_issued = move 0 idle (take key 7 fetches)

abbrev looks_again : System
looks_again = move 1 (looking key) first_issued

-- the nonces 8 and 9 were issued
abbrev second_issued : System
second_issued = move 1 (viewing key 9) (take key 8 looks_again)

unfoldable reach_fetches : Reach fetches
unfolding cache_key_eq ℕ_discrete
reach_fetches =
    next
      (next
        (next (next here (acquire_read 0 key refl (λ j. refl) refl)) (miss 0 key refl refl refl))
        (acquire_write 0 key refl (λ j. ground arith) refl))
      (find_vacant 0 key refl refl refl)

unfoldable reach_first : Reach first_issued
reach_first = next reach_fetches (fetched 0 key 7 refl refl)

unfoldable reach_second : Reach second_issued
unfolding cache_key_eq ℕ_discrete
reach_second =
    next (next reach_first (acquire_read 1 key refl (λ j. ground arith) refl))
      (hit 1 key 8 refl refl refl)

second-IsWithin : IsWithin reach_second
unfolding reach_second reach_first reach_fetches
second-IsWithin = (((((((tt, tt), tt), tt), tt), omega arith), tt), omega arith)

Reach-IsRising_example : IsRising second_issued.issued
Reach-IsRising_example = Reach-IsRising reach_second second-IsWithin

fetch_nonce-Simulates_example :
    Simulates client key fresh_state 0 start (fetch_nonce client 1 2 fresh_state)
fetch_nonce-Simulates_example =
    fetch_nonce-Simulates client key fresh_state 0 start refl (λ j. (refl, refl)) refl

-- the four steps of the task 0, to the end of its call
looks-Works : Works 4 looks first_issued
unfolding cache_key_eq ℕ_discrete
looks-Works = more (miss 0 key refl refl refl) refl (
    more (acquire_write 0 key refl (λ j. ground arith) refl) refl
      (more (find_vacant 0 key refl refl refl) refl (more (fetched 0 key 7 refl refl) refl done)))

looks-IsBelow : IsBelow 1 looks
looks-IsBelow j ge = ground arith

first_idle : Progress.AllIdle first_issued
first_idle i = ground arith

Works-ends_example : Progress.AllIdle first_issued
Works-ends_example = Works-ends 1 looks-IsBelow looks-Works (idle-stuck first_issued first_idle)
