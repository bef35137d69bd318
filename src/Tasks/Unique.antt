-- ===== src/Tasks/Unique.antt =====
-- near-fetch/src/lib.rs: the nonces that tasks take from one cache, whichever way their steps
-- interleave.
use near_fetch.Prelude.{
  ℕ, ◌+◌, ◌^◌, ◌<◌, ◌≤◌, List, [], ◌∷◌, none, some, ◌≡◌, ◌≢◌, refl, sym, ◌∙◌, ap, arith, All,
  lookup, insert, remove, lookup-insert_self, lookup-insert_ne, lookup-remove_ne, holds,
  if◌then◌else◌,
}
use mathlib.Core.Path.{subst}
use mathlib.Core.Option.{some-injective}
use near_fetch.Near.{Near}
use near_fetch.Effects.{CacheKey, cache_key_eq, Nonces, update}
use near_fetch.Client.Nonce.{next_nonce}
use near_fetch.Tasks.{
  Place, fetching, System, move, take, Step, acquire_read, hit, miss, acquire_write, find_occupied,
  find_vacant, fetched, failed, viewed, viewed_occupied, cancelled, invalidate, NoWrap, Reach, here,
  next, IsWithin,
}
use near_fetch.Tasks.Exclusion.{IsExclusive, Reach-IsExclusive}

module _ ⦃near : Near⦄ where
  abbrev pub Issue : Type 0
  Issue = CacheKey × ℕ

  abbrev pub IsBelow : Issue → Issue → Type 0
  IsBelow (k, n) (j, m) = j ≡ k → m < n

  -- Each entry of a list, the latest first, is above the older ones of its key.
  abbrev pub IsRising : List Issue → Type 0
  IsRising [] = Unit
  IsRising (e ∷ es) = All (IsBelow e) es × IsRising es

  -- the cache holds a nonce for the key that is at least this one
  abbrev IsHeld : Nonces → Issue → Type 0
  IsHeld nonces (k, m) = (n : ℕ) × (lookup cache_key_eq k nonces ≡ some n) × (m ≤ n)

  All-weaken :
      {P Q : Issue → Type 0} (es : List Issue) → ((e : Issue) → P e → Q e) → All P es → All Q es
  All-weaken [] f a = tt
  All-weaken (e ∷ es) f a = (f e a.0, All-weaken es f a.1)

  All-remove :
      {P Q : Issue → Type 0} (k : CacheKey) (es : List Issue)
      → ((e : Issue) → e.0 ≢ k → P e → Q e)
      → All P es
      → All Q (remove cache_key_eq k es)
  All-remove k [] f a = tt
  All-remove {Q = Q} k ((j, m) ∷ es) f a =
      elim (cache_key_eq k j)
        as (λ (d : Dec (k ≡ j)).
          All Q (if holds d then remove cache_key_eq k es else (j, m) ∷ remove cache_key_eq k es)) [
            | yes e ↦ All-remove k es f a.1
            | no ne ↦ (f (j, m) (λ p. ne (sym p)) a.0, All-remove k es f a.1)
          ]

  IsRising-remove :
      (k : CacheKey) (es : List Issue) → IsRising es → IsRising (remove cache_key_eq k es)
  IsRising-remove k [] a = tt
  IsRising-remove k ((j, m) ∷ es) a =
      elim (cache_key_eq k j)
        as (λ (d : Dec (k ≡ j)).
          IsRising
            (if holds d then remove cache_key_eq k es else (j, m) ∷ remove cache_key_eq k es)) [
              | yes e ↦ IsRising-remove k es a.1
              | no ne ↦ (All-remove k es (λ e other below. below) a.0, IsRising-remove k es a.1)
            ]

  IsHeld-take :
      (k : CacheKey) (n : ℕ) (nonces : Nonces) (e : Issue)
      → ((m : ℕ) → lookup cache_key_eq k nonces ≡ some m → m ≤ n)
      → IsHeld nonces e
      → IsHeld (insert cache_key_eq k n nonces) e
  IsHeld-take k n nonces (j, m) rises (h, found, le) = elim (cache_key_eq j k) [
    | yes same ↦ (
      n,
      rw same (lookup-insert_self cache_key_eq k n nonces),
      omega (arith, rises h (ap (λ q. lookup cache_key_eq q nonces) (sym same) ∙ found)),
    )
    | no other ↦ (h, lookup-insert_ne cache_key_eq j k n nonces other ∙ found, le)
  ]

  IsHeld-remove :
      (k : CacheKey) (nonces : Nonces) (e : Issue)
      → e.0 ≢ k
      → IsHeld nonces e
      → IsHeld (remove cache_key_eq k nonces) e
  IsHeld-remove k nonces (j, m) other (h, found, le) =
      (h, lookup-remove_ne cache_key_eq j k nonces other ∙ found, le)

  -- What holds of the cache in every reachable state.
  record IsSound (s : System) : Type 0 where
    rising : IsRising s.issued
    held : All (IsHeld s.nonces) s.issued
    vacant : (i : ℕ) (k : CacheKey) → s.place i ≡ fetching k → lookup cache_key_eq k s.nonces ≡ none

  take-IsSound :
      (k : CacheKey) (n : ℕ) (s : System)
      → IsSound s
      → ((h : ℕ) → lookup cache_key_eq k s.nonces ≡ some h → h < next_nonce n)
      → IsRising (take k n s).issued × All (IsHeld (take k n s).nonces) (take k n s).issued
  take-IsSound k n s sound rises = (
    (
      All-weaken s.issued
          (λ (e : Issue) (h : IsHeld s.nonces e) (same : e.0 ≡ k).
            omega
              (arith, h.2, rises h.0 (ap (λ q. lookup cache_key_eq q s.nonces) (sym same) ∙ h.1)))
          sound.held,
      sound.rising,
    ),
    (
      (next_nonce n, lookup-insert_self cache_key_eq k (next_nonce n) s.nonces, omega arith),
      All-weaken s.issued
          (λ e. IsHeld-take k (next_nonce n) s.nonces e (λ m found. omega (arith, rises m found)))
          sound.held,
    ),
  )

  pub next_rises :
      (k : CacheKey) (n : ℕ) (nonces : Nonces)
      → lookup cache_key_eq k nonces ≡ some n
      → n + 1 < 2 ^ 64
      → (h : ℕ) → lookup cache_key_eq k nonces ≡ some h
      → h < next_nonce n
  next_rises k n nonces found small h again = omega (arith, some-injective _ _ (sym found ∙ again))

  move-IsSound :
      (i : ℕ) (p : Place) (s : System)
      → IsSound s
      → ((k : CacheKey) → p ≡ fetching k → lookup cache_key_eq k s.nonces ≡ none)
      → IsSound (move i p s)
  move-IsSound i p s sound absent = record {
    rising = sound.rising;
    held = sound.held;
    vacant = λ j k f. ground (arith, sound.vacant j k, absent k);
  }

  -- A task takes a nonce and moves on, while no other task waits for an access key.
  issue-IsSound :
      (i : ℕ) (p : Place) (k : CacheKey) (n : ℕ) (s : System)
      → IsSound s
      → ((h : ℕ) → lookup cache_key_eq k s.nonces ≡ some h → h < next_nonce n)
      → ((j : ℕ) (q : CacheKey) → update s.place i p j ≢ fetching q)
      → IsSound (move i p (take k n s))
  issue-IsSound i p k n s sound rises alone =
      let (rising, held) = take-IsSound k n s sound rises in
      record { rising = rising; held = held; vacant = λ j q f. absurd (alone j q f) }

  Step-IsSound : {s t : System} (st : Step s t) → IsExclusive s → NoWrap st → IsSound s → IsSound t
  Step-IsSound {s} (acquire_read i k p free e) x small sound =
      subst IsSound (sym e) (move-IsSound i _ s sound (λ q f. ground arith))
  Step-IsSound {s} (hit i k n p found e) x small sound = subst IsSound (sym e) (
      issue-IsSound i _ k n s sound (next_rises k n s.nonces found small)
        (λ j q f. ground (arith, x j i)))
  Step-IsSound {s} (miss i k p absent e) x small sound =
      subst IsSound (sym e) (move-IsSound i _ s sound (λ q f. ground arith))
  Step-IsSound {s} (acquire_write i k p free e) x small sound =
      subst IsSound (sym e) (move-IsSound i _ s sound (λ q f. ground arith))
  Step-IsSound {s} (find_occupied i k n p found e) x small sound = subst IsSound (sym e) (
      issue-IsSound i _ k n s sound (next_rises k n s.nonces found small)
        (λ j q f. ground (arith, x j i)))
  Step-IsSound {s} (find_vacant i k p absent e) x small sound =
      subst IsSound (sym e) (move-IsSound i _ s sound (λ q f. ground (arith, absent)))
  Step-IsSound {s} (fetched i k n p e) x small sound = subst IsSound (sym e) (
      issue-IsSound i _ k n s sound (λ h found. absurd (ground (arith, sound.vacant i k p)))
        (λ j q f. ground (arith, x j i)))
  Step-IsSound {s} (failed i k p e) x small sound =
      subst IsSound (sym e) (move-IsSound i _ s sound (λ q f. ground arith))
  Step-IsSound {s} (viewed i k n p e) x small sound =
      subst IsSound (sym e) (move-IsSound i _ s sound (λ q f. ground arith))
  Step-IsSound {s} (viewed_occupied i k n p e) x small sound =
      subst IsSound (sym e) (move-IsSound i _ s sound (λ q f. ground arith))
  Step-IsSound {s} (cancelled i k p e) x small sound =
      subst IsSound (sym e) (move-IsSound i _ s sound (λ q f. ground arith))
  Step-IsSound {s} (invalidate k free e) x small sound = subst IsSound (sym e) (record {
    rising = IsRising-remove k s.issued sound.rising;
    held = All-remove k s.issued (IsHeld-remove k s.nonces) sound.held;
    vacant = λ j q f. ground (arith, free j);
  })

  Reach-IsSound : {s : System} (r : Reach s) → IsWithin r → IsSound s
  Reach-IsSound here within = record { rising = tt; held = tt; vacant = λ i k f. refl }
  Reach-IsSound (next r st) within =
      Step-IsSound st (Reach-IsExclusive r) within.1 (Reach-IsSound r within.0)

  -- In every state that is reached without a counter at its end, each nonce that was issued for a
  -- key since its last invalidation is above those issued for it before: so however the calls of
  -- the tasks interleave, no nonce of a key is issued twice between two invalidations of it.
  pub Reach-IsRising : {s : System} (r : Reach s) → IsWithin r → IsRising s.issued
  Reach-IsRising r within = (Reach-IsSound r within).rising

  -- While a task waits for the access key of a key, the cache has no nonce for it.
  pub Reach-vacant :
      {s : System} (r : Reach s)
      → IsWithin r
      → (i : ℕ) (k : CacheKey) → s.place i ≡ fetching k
      → lookup cache_key_eq k s.nonces ≡ none
  Reach-vacant r within = (Reach-IsSound r within).vacant
