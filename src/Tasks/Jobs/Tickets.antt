-- ===== src/Tasks/Jobs/Tickets.antt =====
-- near-fetch/src/lib.rs: the nonces that tasks have taken, from `fetch_add` to the sending of the
-- transaction.
use near_fetch.Prelude.{
  ℕ, ◌<◌, ◌≤◌, List, [], ◌∷◌, Option, none, some, ◌≡◌, ◌≢◌, sym, ◌∙◌, ap, arith, All, insert,
  ℕ_discrete, ◌⊎◌, lookup, lookup-insert_self, lookup-insert_ne, inl, inr,
}
use mathlib.Core.Path.{subst}
use mathlib.Core.Option.{some-injective}
use near_fetch.Near.{Near}
use near_fetch.Near.Requests.{SignedTransaction}
use near_fetch.Effects.{CacheKey, cache_key_eq, Nonces, update}
use near_fetch.Tasks.Jobs.{Ticket, Stage, taking, holding, has_signer_id, ready}

module _ ⦃near : Near⦄ where
  abbrev pub Sent : Type 0
  Sent = Ticket × SignedTransaction

  -- the ticket that a task has, from `fetch_add` to the sending of the transaction
  abbrev pub ticket_of : Stage → Option Ticket
  ticket_of (taking _ c) = some c
  ticket_of (holding _ c _) = some c
  ticket_of (has_signer_id _ c _ _) = some c
  ticket_of (ready _ c _) = some c
  ticket_of _ = none

  -- Not the same nonce of the same key, unless the key was invalidated in between.
  abbrev pub IsApart : Ticket → Ticket → Type 0
  IsApart c d = c.key ≡ d.key → c.epoch ≡ d.epoch → c.nonce ≢ d.nonce

  abbrev pub ArePairwiseApart : List Sent → Type 0
  ArePairwiseApart [] = Unit
  ArePairwiseApart (x ∷ xs) = All (λ y. IsApart x.0 y.0) xs × ArePairwiseApart xs

  -- The key was invalidated since, or the cache still holds a nonce for it that is at least this
  -- one.
  abbrev pub IsOld : Nonces → (CacheKey → ℕ) → Ticket → Type 0
  IsOld nonces epoch c =
      (c.epoch ≤ epoch c.key)
      × (c.epoch ≡ epoch c.key
          → (h : ℕ) × (lookup cache_key_eq c.key nonces ≡ some h) × (c.nonce ≤ h))

  -- What holds of the tickets in every reachable state.
  pub record IsSound (nonces : Nonces) (epoch : CacheKey → ℕ) (stage : ℕ → Stage) (sent : List Sent)
      : Type 0 where
    pub old : (i : ℕ) (c : Ticket) → ticket_of (stage i) ≡ some c → IsOld nonces epoch c
    pub sent_old : All (λ x. IsOld nonces epoch x.0) sent
    pub apart :
        (i j : ℕ) (c d : Ticket)
        → i ≢ j
        → ticket_of (stage i) ≡ some c
        → ticket_of (stage j) ≡ some d
        → IsApart c d
    pub unsent : (i : ℕ) (c : Ticket) → ticket_of (stage i) ≡ some c → All (λ x. IsApart c x.0) sent
    pub pairwise : ArePairwiseApart sent

  pub All-weaken :
      {P Q : Sent → Type 0} (xs : List Sent) → ((x : Sent) → P x → Q x) → All P xs → All Q xs
  All-weaken [] f a = tt
  All-weaken (x ∷ xs) f a = (f x a.0, All-weaken xs f a.1)

  -- No task has a ticket that it had not, and those are as old.
  pub weaken-IsSound :
      {nonces nonces' : Nonces} {epoch epoch' : CacheKey → ℕ} {stage stage' : ℕ → Stage}
      {sent : List Sent}
      → ((c : Ticket) → IsOld nonces epoch c → IsOld nonces' epoch' c)
      → ((j : ℕ) (c : Ticket) → ticket_of (stage' j) ≡ some c → ticket_of (stage j) ≡ some c)
      → IsSound nonces epoch stage sent
      → IsSound nonces' epoch' stage' sent
  weaken-IsSound {sent} stays had sound = record {
    old = λ j c has. stays c (sound.old j c (had j c has));
    sent_old = All-weaken sent (λ x. stays x.0) sound.sent_old;
    apart = λ j l c d ne has other. sound.apart j l c d ne (had j c has) (had l d other);
    unsent = λ j c has. sound.unsent j c (had j c has);
    pairwise = sound.pairwise;
  }

  -- The task keeps its ticket, or drops it.
  pub keep-had :
      (stage : ℕ → Stage) (i : ℕ) (p : Stage)
      → ((c : Ticket) → ticket_of p ≡ some c → ticket_of (stage i) ≡ some c)
      → (j : ℕ) (c : Ticket) → ticket_of (update stage i p j) ≡ some c
      → ticket_of (stage j) ≡ some c
  keep-had stage i p keeps j c has = ground (arith, keeps c)

  -- The nonce is above the one in the cache.
  module _ (k : CacheKey) (n : ℕ) (nonces : Nonces) (epoch : CacheKey → ℕ)
      (above : (h : ℕ) → lookup cache_key_eq k nonces ≡ some h → h < n) where
    abbrev pub new : Ticket
    new = record { key = k; epoch = epoch k; nonce = n }

    old-IsApart : (c : Ticket) → IsOld nonces epoch c → IsApart c new
    old-IsApart c old key same nonce =
        let (h, found, le) = old.1 (same ∙ ap epoch (sym key)) in
        omega (arith, above h (ap (λ q. lookup cache_key_eq q nonces) (sym key) ∙ found))

    insert-IsOld :
        (c : Ticket) → IsOld nonces epoch c → IsOld (insert cache_key_eq k n nonces) epoch c
    insert-IsOld c old = (
      old.0,
      λ same.
          let (h, found, le) = old.1 same in
          elim (cache_key_eq c.key k) [
            | yes key ↦ (
              n,
              rw key (lookup-insert_self cache_key_eq k n nonces),
              omega (arith, above h (ap (λ q. lookup cache_key_eq q nonces) (sym key) ∙ found)),
            )
            | no other ↦ (h, lookup-insert_ne cache_key_eq c.key k n nonces other ∙ found, le)
          ],
    )

    new-IsOld : IsOld (insert cache_key_eq k n nonces) epoch new
    new-IsOld = (omega arith, λ same. (n, lookup-insert_self cache_key_eq k n nonces, omega arith))

  IsApart-sym : (c d : Ticket) → IsApart c d → IsApart d c
  IsApart-sym c d x key epoch nonce = x (sym key) (sym epoch) (sym nonce)

  -- what is at the cell that was written, and at the others
  pub update-cases :
      (stage : ℕ → Stage) (i : ℕ) (p : Stage) (j : ℕ) (c : Ticket)
      → ticket_of (update stage i p j) ≡ some c
      → ((i ≡ j) × (ticket_of p ≡ some c)) ⊎ ((i ≢ j) × (ticket_of (stage j) ≡ some c))
  update-cases stage i p j c has = elim (ℕ_discrete i j) [
    | yes e ↦ inl (e, ground arith)
    | no ne ↦ inr (ne, ground arith)
  ]

  module _ (k : CacheKey) (n : ℕ) (nonces : Nonces) (epoch : CacheKey → ℕ)
      (above : (h : ℕ) → lookup cache_key_eq k nonces ≡ some h → h < n) (p : Stage)
      (is_new : ticket_of p ≡ some (record { key = k; epoch = epoch k; nonce = n })) where
    is_new-IsOld :
        (c : Ticket) → ticket_of p ≡ some c → IsOld (insert cache_key_eq k n nonces) epoch c
    is_new-IsOld c has =
        subst (IsOld (insert cache_key_eq k n nonces) epoch) (some-injective _ _ (sym is_new ∙ has))
          (new-IsOld k n nonces epoch above)

    is_new-IsApart : (c d : Ticket) → ticket_of p ≡ some c → IsOld nonces epoch d → IsApart c d
    is_new-IsApart c d has old =
        subst (λ t. IsApart t d) (some-injective _ _ (sym is_new ∙ has))
          (IsApart-sym d _ (old-IsApart k n nonces epoch above d old))

    -- The task takes a nonce that is above the one in the cache.
    pub take-IsSound :
        (i : ℕ) (stage : ℕ → Stage) (sent : List Sent)
        → IsSound nonces epoch stage sent
        → IsSound (insert cache_key_eq k n nonces) epoch (update stage i p) sent
    take-IsSound i stage sent sound = record {
      old = λ j c has. elim (update-cases stage i p j c has) [
        | inl (e, has) ↦ is_new-IsOld c has
        | inr (ne, has) ↦ insert-IsOld k n nonces epoch above c (sound.old j c has)
      ];
      sent_old = All-weaken sent (λ x. insert-IsOld k n nonces epoch above x.0) sound.sent_old;
      apart = λ j l c d ne has other. elim (update-cases stage i p j c has) [
        | inl (e, has) ↦ elim (update-cases stage i p l d other) [
          | inl (f, other) ↦ absurd (ne (sym e ∙ f))
          | inr (f, other) ↦ is_new-IsApart c d has (sound.old l d other)
        ]
        | inr (e, has) ↦ elim (update-cases stage i p l d other) [
          | inl (f, other) ↦ IsApart-sym d c (is_new-IsApart d c other (sound.old j c has))
          | inr (f, other) ↦ sound.apart j l c d ne has other
        ]
      ];
      unsent = λ j c has. elim (update-cases stage i p j c has) [
        | inl (e, has) ↦ All-weaken sent (λ x. is_new-IsApart c x.0 has) sound.sent_old
        | inr (ne, has) ↦ sound.unsent j c has
      ];
      pairwise = sound.pairwise;
    }
