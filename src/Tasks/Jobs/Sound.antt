-- ===== src/Tasks/Jobs/Sound.antt =====
-- near-fetch/src/lib.rs: the nonces that tasks have taken are the tasks' own in every state that they
-- reach.
use near_fetch.Prelude.{
  ℕ, ◌<◌, none, some, ◌≡◌, refl, sym, ◌∙◌, ap, arith, insert, remove, lookup, inl, inr,
}
use mathlib.Core.Path.{subst}
use near_fetch.Near.{Near}
use near_fetch.Effects.{CacheKey, cache_key_eq, Nonces, Net}
use near_fetch.Client.Nonce.{next_nonce}
use near_fetch.Tasks as Tasks
use near_fetch.Tasks.{
  acquire_read, hit, miss, acquire_write, find_occupied, find_vacant, fetched, failed, viewed,
  viewed_occupied, cancelled, invalidate,
}
use near_fetch.Tasks.Jobs.{
  Ticket, ticket, bump, Stage, Jobs, put, Work, Fetches, Returns, Step, account, public_key,
  sign_tx, fetch_nonce, fetch, signer_id, sign, send, refused, finished, dropped, NoWrap, Reach,
  here, next, IsWithin,
}
use near_fetch.Tasks.Jobs.Tickets.{ticket_of, IsSound, weaken-IsSound, take-IsSound}
use near_fetch.Tasks.Jobs.Spending.{send-IsSound, forget-IsOld, IsSoundAt, put-IsSoundAt}
use near_fetch.Tasks.Jobs.Cache.{Reach-IsReached}
use near_fetch.Tasks.Unique.{next_rises, Reach-vacant}

module _ ⦃near : Near⦄ where
  -- While a task waits for an access key, the cache has no nonce for it.
  abbrev IsVacant : Tasks.System → Type 0
  IsVacant c =
      (i : ℕ) (k : CacheKey) → c.place i ≡ Tasks.fetching k → lookup cache_key_eq k c.nonces ≡ none

  abbrev nonces_of : Tasks.System → Nonces
  nonces_of c = c.nonces

  -- In the cache, only places change.
  cache-IsSoundAt :
      (s : Jobs) (c : Tasks.System)
      → c.nonces ≡ s.cache.nonces
      → IsSoundAt s
      → IsSoundAt (record s { cache = c })
  cache-IsSoundAt s c same sound =
      subst (λ nonces. IsSound nonces s.epoch s.stage s.sent) (sym same) sound

  -- The call ends, with its ticket or without.
  ended-IsSoundAt :
      (i : ℕ) (p : Stage) (s : Jobs) (c : Tasks.System)
      → c.nonces ≡ s.cache.nonces
      → ((d : Ticket) → ticket_of p ≡ some d → ticket_of (s.stage i) ≡ some d)
      → IsSoundAt s
      → IsSoundAt (record (put i p s) { cache = c })
  ended-IsSoundAt i p s c same keeps sound =
      cache-IsSoundAt (put i p s) c same (put-IsSoundAt i p s keeps sound)

  -- The call takes a nonce.
  taken-IsSoundAt :
      (i : ℕ) (p : Stage) (k : CacheKey) (n : ℕ) (s : Jobs) (c : Tasks.System)
      → c.nonces ≡ insert cache_key_eq k n s.cache.nonces
      → ((h : ℕ) → lookup cache_key_eq k s.cache.nonces ≡ some h → h < n)
      → ticket_of p ≡ some (ticket k n s)
      → IsSoundAt s
      → IsSoundAt (record (put i p s) { cache = c })
  taken-IsSoundAt i p k n s c same above is_new sound =
      subst (λ nonces. IsSound nonces s.epoch (put i p s).stage s.sent) (sym same)
        (take-IsSound k n s.cache.nonces s.epoch above p is_new i s.stage s.sent sound)

  forgotten-IsSoundAt :
      (k : CacheKey) (s : Jobs) (c : Tasks.System)
      → c.nonces ≡ remove cache_key_eq k s.cache.nonces
      → IsSoundAt s
      → IsSoundAt (record s { cache = c; epoch = bump k s.epoch })
  forgotten-IsSoundAt k s c same sound =
      subst (λ nonces. IsSound nonces (bump k s.epoch) s.stage s.sent) (sym same)
        (weaken-IsSound (forget-IsOld k s.cache.nonces s.epoch) (λ j d has. has) sound)

  Returns-IsSoundAt :
      (i : ℕ) (k : CacheKey) (n : ℕ) (s : Jobs) (c : Tasks.System) {t : Jobs}
      → c.nonces ≡ s.cache.nonces
      → Returns i k n s c t
      → IsSoundAt s
      → IsSoundAt t
  Returns-IsSoundAt i k n s c same (inl (ck, e, hash, at, f)) sound =
      subst IsSoundAt (sym f) (ended-IsSoundAt i _ s c same (λ d has. ap ticket_of at ∙ has) sound)
  Returns-IsSoundAt i k n s c same (inr f) sound =
      subst IsSoundAt (sym f) (ended-IsSoundAt i _ s c same (λ d has. ground arith) sound)

  Fetches-IsSoundAt :
      (s t : Jobs) {c : Tasks.System} (st : Tasks.Step s.cache c)
      → IsVacant s.cache
      → Tasks.NoWrap st
      → Fetches s st t
      → IsSoundAt s
      → IsSoundAt t
  Fetches-IsSoundAt s t {c} (acquire_read i k p free e) v small (ck, at, f) sound =
      subst IsSoundAt (sym f) (cache-IsSoundAt s c (ap nonces_of e) sound)
  Fetches-IsSoundAt s t {c} (hit i k n p found e) v small (ck, at, f) sound =
      subst IsSoundAt (sym f) (
        taken-IsSoundAt i _ k (next_nonce n) s c (ap nonces_of e)
          (next_rises k n s.cache.nonces found small) refl sound)
  Fetches-IsSoundAt s t {c} (miss i k p absent e) v small f sound =
      subst IsSoundAt (sym f) (cache-IsSoundAt s c (ap nonces_of e) sound)
  Fetches-IsSoundAt s t {c} (acquire_write i k p free e) v small f sound =
      subst IsSoundAt (sym f) (cache-IsSoundAt s c (ap nonces_of e) sound)
  Fetches-IsSoundAt s t {c} (find_occupied i k n p found e) v small (ck, at, f) sound =
      subst IsSoundAt (sym f) (
        taken-IsSoundAt i _ k (next_nonce n) s c (ap nonces_of e)
          (next_rises k n s.cache.nonces found small) refl sound)
  Fetches-IsSoundAt s t {c} (find_vacant i k p absent e) v small f sound =
      subst IsSoundAt (sym f) (cache-IsSoundAt s c (ap nonces_of e) sound)
  Fetches-IsSoundAt s t {c} (fetched i k n p e) v small (ck, hash, at, f) sound =
      subst IsSoundAt (sym f) (
        taken-IsSoundAt i _ k (next_nonce n) s c (ap nonces_of e)
          (λ h found. absurd (ground (arith, v i k p, found))) refl sound)
  Fetches-IsSoundAt s t {c} (failed i k p e) v small f sound =
      subst IsSoundAt (sym f)
        (ended-IsSoundAt i _ s c (ap nonces_of e) (λ d has. ground arith) sound)
  Fetches-IsSoundAt s t {c} (viewed i k n p e) v small f sound =
      Returns-IsSoundAt i k n s c (ap nonces_of e) f sound
  Fetches-IsSoundAt s t {c} (viewed_occupied i k n p e) v small f sound =
      Returns-IsSoundAt i k n s c (ap nonces_of e) f sound
  Fetches-IsSoundAt s t {c} (cancelled i k p e) v small f sound =
      subst IsSoundAt (sym f)
        (ended-IsSoundAt i _ s c (ap nonces_of e) (λ d has. ground arith) sound)
  Fetches-IsSoundAt s t {c} (invalidate k free e) v small f sound =
      subst IsSoundAt (sym f) (forgotten-IsSoundAt k s c (ap nonces_of e) sound)

module _ ⦃near : Near⦄ ⦃net : Net⦄ (work : Work) where
  Step-IsSoundAt :
      {s t : Jobs} (st : Step work s t)
      → IsVacant s.cache
      → NoWrap work st
      → IsSoundAt s
      → IsSoundAt t
  Step-IsSoundAt {s} {t} (account i signer id at now acc e) v small sound =
      subst IsSoundAt (sym e) (put-IsSoundAt i _ s (λ c has. ground arith) sound)
  Step-IsSoundAt {s} {t} (public_key i signer id at now e) v small sound =
      subst IsSoundAt (sym e) (put-IsSoundAt i _ s (λ c has. ground arith) sound)
  Step-IsSoundAt {s} {t} (sign_tx i signer ck at now e) v small sound =
      subst IsSoundAt (sym e) (put-IsSoundAt i _ s (λ c has. ground arith) sound)
  Step-IsSoundAt {s} {t} (fetch_nonce i signer ck pk id at now acc e) v small sound =
      subst IsSoundAt (sym e) (put-IsSoundAt i _ s (λ c has. ground arith) sound)
  Step-IsSoundAt {s} {t} (fetch st f) v small sound = Fetches-IsSoundAt s t st v small f sound
  Step-IsSoundAt {s} {t} (signer_id i signer ck c hash id at now acc e) v small sound =
      subst IsSoundAt (sym e) (put-IsSoundAt i _ s (λ d has. ap ticket_of at ∙ has) sound)
  Step-IsSoundAt {s} {t} (sign i signer ck c hash id at now e) v small sound =
      subst IsSoundAt (sym e) (put-IsSoundAt i _ s (λ d has. ap ticket_of at ∙ has) sound)
  Step-IsSoundAt {s} {t} (send i ck c tx at e) v small sound =
      subst IsSoundAt (sym e) (send-IsSound i _ c tx (ap ticket_of at) refl sound)
  Step-IsSoundAt {s} {t} (refused i ck at free e f) v small sound =
      Fetches-IsSoundAt s t (invalidate ck free e) v tt f sound
  Step-IsSoundAt {s} {t} (finished i ck at e) v small sound =
      subst IsSoundAt (sym e) (put-IsSoundAt i _ s (λ c has. ground arith) sound)
  Step-IsSoundAt {s} {t} (dropped i ck k at out e) v small sound =
      subst IsSoundAt (sym e) (put-IsSoundAt i _ s (λ c has. ground arith) sound)

  pub Reach-IsSoundAt : {s : Jobs} (r : Reach work s) → IsWithin work r → IsSoundAt s
  Reach-IsSoundAt (here counters) within = record {
    old = λ j c has. ground arith;
    sent_old = tt;
    apart = λ j l c d ne has other. ground arith;
    unsent = λ j c has. tt;
    pairwise = tt;
  }
  Reach-IsSoundAt (next r st) within =
      let (reached, small) = Reach-IsReached work r within.0 in
      Step-IsSoundAt st (Reach-vacant reached small) within.1 (Reach-IsSoundAt r within.0)
