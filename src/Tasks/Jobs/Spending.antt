-- ===== src/Tasks/Jobs/Spending.antt =====
-- near-fetch/src/lib.rs: the nonces that tasks have taken, when a transaction is sent and when a key
-- is invalidated.
use near_fetch.Prelude.{
  ℕ, List, ◌∷◌, none, some, ◌≡◌, ◌≢◌, sym, ◌∙◌, ap, arith, suc, remove, lookup-remove_ne, inl, inr,
}
use near_fetch.Near.{Near}
use near_fetch.Near.Requests.{SignedTransaction}
use near_fetch.Effects.{CacheKey, cache_key_eq, Nonces, update}
use near_fetch.Tasks.Jobs.{Ticket, bump, Stage, Jobs, put}
use near_fetch.Tasks.Jobs.Tickets.{
  Sent, ticket_of, IsOld, IsSound, weaken-IsSound, keep-had, update-cases,
}

module _ ⦃near : Near⦄ where
  -- The task sends what it has the ticket for.
  pub send-IsSound :
      {nonces : Nonces} {epoch : CacheKey → ℕ} {stage : ℕ → Stage} {sent : List Sent} (i : ℕ)
      (p : Stage) (c : Ticket) (tx : SignedTransaction)
      → ticket_of (stage i) ≡ some c
      → ticket_of p ≡ none
      → IsSound nonces epoch stage sent
      → IsSound nonces epoch (update stage i p) ((c, tx) ∷ sent)
  send-IsSound {stage} i p c tx has gone sound =
      let kept =
        weaken-IsSound (λ d old. old) (keep-had stage i p (λ d got. ground (arith, gone))) sound in
      record {
        old = kept.old;
        sent_old = (sound.old i c has, sound.sent_old);
        apart = kept.apart;
        unsent = λ j d got. (
          elim (update-cases stage i p j d got) [
            | inl (e, got) ↦ absurd (ground (arith, gone))
            | inr (ne, got) ↦ sound.apart j i d c (λ e. ne (sym e)) got has
          ],
          kept.unsent j d got,
        );
        pairwise = (sound.unsent i c has, sound.pairwise);
      }

  bump_self : (k : CacheKey) (epoch : CacheKey → ℕ) → bump k epoch k ≡ suc (epoch k)
  bump_self k epoch = ground arith

  bump_ne : (q k : CacheKey) (epoch : CacheKey → ℕ) → q ≢ k → bump k epoch q ≡ epoch q
  bump_ne q k epoch ne = ground arith

  -- The key is invalidated.
  pub forget-IsOld :
      (k : CacheKey) (nonces : Nonces) (epoch : CacheKey → ℕ) (c : Ticket)
      → IsOld nonces epoch c
      → IsOld (remove cache_key_eq k nonces) (bump k epoch) c
  forget-IsOld k nonces epoch c old = elim (cache_key_eq c.key k) [
    | yes e ↦
        let bumped : bump k epoch c.key ≡ suc (epoch c.key) =
          ap (λ q. bump k epoch q) e ∙ bump_self k epoch ∙ ap (λ q. suc (epoch q)) (sym e) in
        (omega (arith, old.0, bumped), λ same. absurd (omega (arith, old.0, bumped, same)))
    | no ne ↦
        let bumped = bump_ne c.key k epoch ne in
        (
          omega (arith, old.0, bumped),
          λ same.
              let (h, found, le) = old.1 (same ∙ bumped) in
              (h, lookup-remove_ne cache_key_eq c.key k nonces ne ∙ found, le),
        )
  ]

  abbrev pub IsSoundAt : Jobs → Type 0
  IsSoundAt s = IsSound s.cache.nonces s.epoch s.stage s.sent

  -- The cache keeps its nonces, and the task its ticket, or drops it.
  pub put-IsSoundAt :
      (i : ℕ) (p : Stage) (s : Jobs)
      → ((c : Ticket) → ticket_of p ≡ some c → ticket_of (s.stage i) ≡ some c)
      → IsSoundAt s
      → IsSoundAt (put i p s)
  put-IsSoundAt i p s keeps sound = weaken-IsSound (λ c old. old) (keep-had s.stage i p keeps) sound
