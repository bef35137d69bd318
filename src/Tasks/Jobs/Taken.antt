-- ===== src/Tasks/Jobs/Taken.antt =====
-- near-fetch/src/lib.rs: `fetch_nonce` as one task runs it alone while it signs a transaction, against
-- its steps among others.
use near_fetch.Prelude.{
  ℕ, ◌%◌, ◌≡◌, refl, sym, some, ◌∙◌, ap, arith, inl, inr, length, lookup, insert,
}
use mathlib.Core.Path.{subst}
use near_fetch.Near.{Near}
use near_fetch.Effects.{Nonces, CacheKey, cache_key_eq, Net, State}
use near_fetch.Signer.Rotating.{index}
use near_fetch.Client.{Client}
use near_fetch.Client.Nonce.{next_nonce}
use near_fetch.Client.Cache.{with_nonce}
use near_fetch.Tasks as Tasks
use near_fetch.Tasks.Jobs.{ticket, holding, asking, Jobs, Work, Step, actor, current}
use near_fetch.Tasks.Jobs.Runs.{
  after_fetching, after_hitting, fetching_run, hitting_run, update_self,
}
use near_fetch.Tasks.Jobs.Turns.{turn, Takes}

module _ ⦃near : Near⦄ ⦃net : Net⦄ (work : Work) where
  -- What some steps of one task lead to, with no step of another one and no invalidation but its
  -- own in between.
  pub data Runs (i : ℕ) : Jobs → Jobs → Type 0 where
    done : {s : Jobs} → Runs i s s
    more : {s t u : Jobs} → Runs i s t → (st : Step work t u) → actor work st ≡ some i → Runs i s u

  -- The counters and the client's cache are those of a state, and no task has a guard.
  pub record Agrees (c : Client) (i : ℕ) (s : Jobs) (σ : State) : Type 0 where
    pub counters : s.counters ≡ σ.counters
    pub nonces : s.cache.nonces ≡ σ.nonces c.access_key_nonces
    pub free : Tasks.IsFree s.cache
    pub out : s.cache.place i ≡ Tasks.idle

  module _ (c : Client) (i : ℕ) (s : Jobs) (σ : State) (agrees : Agrees c i s σ) where
    pub current-eq-turn : current work i s ≡ turn (work.signer i) σ
    current-eq-turn =
        ap
          (λ (f : ℕ → ℕ).
            index (work.signer i).signers
              (f (work.signer i).counter % length (work.signer i).signers))
          agrees.counters

  pub onward :
      (i : ℕ) (s t u : Jobs)
      → Runs i s t
      → (st : Step work t u) → actor work st ≡ some i
      → Runs i s u
  onward i s t u run st own = more run st own

  -- The call of `fetch_nonce` ends, and the task has the nonce.
  pub record Holds (c : Client) (i : ℕ) (k : CacheKey) (hash : near.CryptoHash) (n : ℕ) (s : Jobs)
      (τ : State) (o : Jobs) : Type 0 where
    pub end : Jobs
    pub run : Runs i o end
    pub agrees : Agrees c i end τ
    pub sent : end.sent ≡ s.sent
    pub at_hash : end.stage i ≡ holding k (ticket k n s) hash

  -- The cache has got the nonce, and the task is out of `fetch_nonce` again.
  stored-Agrees :
      (c : Client) (i : ℕ) (k : CacheKey) (s t : Jobs) (σ τ : State) (n : ℕ)
      → Agrees c i s σ
      → t.counters ≡ s.counters
      → t.cache.nonces ≡ insert cache_key_eq k n s.cache.nonces
      → Tasks.IsFree t.cache
      → t.cache.place i ≡ Tasks.idle
      → τ.nonces ≡ with_nonce c k n σ.nonces
      → τ.counters ≡ σ.counters
      → Agrees c i t τ
  stored-Agrees c i k s t σ τ n agrees same nonces free out wrote counters = record {
    counters = same ∙ agrees.counters ∙ sym counters;
    nonces =
        nonces
        ∙ ap (insert cache_key_eq k n) agrees.nonces
        ∙ sym (update_self σ.nonces c.access_key_nonces _)
        ∙ sym (ap (λ (f : ℕ → Nonces). f c.access_key_nonces) wrote);
    free = free;
    out = out;
  }

  pub taken-Holds :
      (c : Client) (i : ℕ) (k : CacheKey) (s : Jobs) (σ : State) (o : Jobs)
      → Runs i o s
      → Agrees c i s σ
      → s.stage i ≡ asking k k
      → (issued : ℕ × near.CryptoHash × ℕ) (τ : State) → Takes c k σ issued τ
      → Holds c i k issued.1 issued.0 s τ o
  taken-Holds c i k s σ o before agrees asked issued τ takes =
      subst (λ n. Holds c i k issued.1 n s τ o) (sym takes.nonce)
        (elim takes.known [
          | inl found ↦
              let end : Jobs = after_hitting i k takes.last issued.1 s in
              record {
                end = end;
                run =
                    hitting_run work (Runs i o) i (onward i o) k takes.last issued.1 s asked
                      agrees.out (λ j. (agrees.free j).1)
                      (ap (lookup cache_key_eq k) agrees.nonces ∙ found) before;
                agrees =
                    stored-Agrees c i k s end σ τ (next_nonce takes.last) agrees refl refl
                      (λ j. (ground (arith, agrees.free j), ground (arith, agrees.free j)))
                      (ground arith) takes.nonces takes.counters;
                sent = refl;
                at_hash = ground arith;
              }
          | inr absent ↦
              let end : Jobs = after_fetching i k k takes.last issued.1 s in
              record {
                end = end;
                run =
                    fetching_run work (Runs i o) i (onward i o) k k takes.last issued.1 s asked
                      agrees.out agrees.free (ap (lookup cache_key_eq k) agrees.nonces ∙ absent)
                      before;
                agrees =
                    stored-Agrees c i k s end σ τ (next_nonce takes.last) agrees refl refl
                      (λ j. (ground (arith, agrees.free j), ground (arith, agrees.free j)))
                      (ground arith) takes.nonces takes.counters;
                sent = refl;
                at_hash = ground arith;
              }
        ])
