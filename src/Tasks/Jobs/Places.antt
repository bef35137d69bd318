-- ===== src/Tasks/Jobs/Places.antt =====
-- near-fetch/src/lib.rs: where a task is in `fetch_nonce` agrees with where it is in `send_tx_once`.
use near_fetch.Prelude.{ℕ, some, ◌≡◌, refl, sym, ap, inl, inr}
use mathlib.Core.Path.{subst}
use near_fetch.Near.{Near}
use near_fetch.Effects.{CacheKey, Net, update}
use near_fetch.Tasks as Tasks
use near_fetch.Tasks.{
  acquire_read, hit, miss, acquire_write, find_occupied, find_vacant, fetched, failed, viewed,
  viewed_occupied, cancelled, invalidate, Place, idle, looking, viewing, upgrading, entering,
  occupied, fetching,
}
use near_fetch.Tasks.Jobs.{
  Stage, has_account, has_cache_key, has_key, holding, has_signer_id, ready, resting, sending, Jobs,
  put, Work, Fetches, Returns, Step, account, public_key, sign_tx, fetch_nonce, fetch, signer_id,
  sign, send, refused, finished, dropped, Reach, here, next,
}
use near_fetch.Tasks.Jobs.Fits.{asks, Fits, asks-asking, AllFit, both_fit, place-Fits, stage-Fits}

module _ ⦃near : Near⦄ where
  -- A task goes on inside `fetch_nonce`, without a nonce.
  asks_fit :
      (i : ℕ) (k : CacheKey) (q : Place) (s : Jobs) (c : Tasks.System)
      → c ≡ Tasks.move i q s.cache
      → asks (s.cache.place i) ≡ some k
      → asks q ≡ some k
      → AllFit s
      → AllFit (record s { cache = c })
  asks_fit i k q s c e before after fits =
      let (ck, at) = asks-asking (s.stage i) (s.cache.place i) k before (fits i) in
      subst (λ (d : Tasks.System). AllFit (record s { cache = d })) (sym e)
        (place-Fits i q s.stage s.cache.place (subst (λ p. Fits p q) (sym at) (inr after)) fits)

  -- It goes on there and in its stage.
  ends_fit :
      (i : ℕ) (p : Stage) (q : Place) (s : Jobs) (c : Tasks.System)
      → c.place ≡ update s.cache.place i q
      → Fits p q
      → AllFit s
      → AllFit (record (put i p s) { cache = c })
  ends_fit i p q s c e new fits j =
      subst (λ (place : ℕ → Place). Fits (update s.stage i p j) (place j)) (sym e)
        (both_fit i p q s.stage s.cache.place new fits j)

  Returns-AllFit :
      (i : ℕ) (k : CacheKey) (n : ℕ) (s : Jobs) (c : Tasks.System) (t : Jobs)
      → c.place ≡ update s.cache.place i idle
      → Returns i k n s c t
      → AllFit s
      → AllFit t
  Returns-AllFit i k n s c t e (inl (ck, epoch, hash, at, f)) fits =
      subst AllFit (sym f) (ends_fit i _ idle s c e refl fits)
  Returns-AllFit i k n s c t e (inr f) fits =
      subst AllFit (sym f) (ends_fit i resting idle s c e refl fits)

  abbrev place_of : Tasks.System → ℕ → Place
  place_of c = c.place

  Fetches-AllFit :
      (s t : Jobs) {c : Tasks.System} (st : Tasks.Step s.cache c)
      → Fetches s st t
      → AllFit s
      → AllFit t
  Fetches-AllFit s t {c} (acquire_read i k p free e) (ck, at, f) fits = subst AllFit (sym f) (
      subst (λ (d : Tasks.System). AllFit (record s { cache = d })) (sym e)
        (place-Fits i (looking k) s.stage s.cache.place
          (subst (λ x. Fits x (looking k)) (sym at) (inr refl)) fits))
  Fetches-AllFit s t {c} (hit i k n p found e) (ck, at, f) fits =
      subst AllFit (sym f) (ends_fit i _ _ s c (ap place_of e) refl fits)
  Fetches-AllFit s t {c} (miss i k p absent e) f fits =
      subst AllFit (sym f) (asks_fit i k _ s c e (ap asks p) refl fits)
  Fetches-AllFit s t {c} (acquire_write i k p free e) f fits =
      subst AllFit (sym f) (asks_fit i k _ s c e (ap asks p) refl fits)
  Fetches-AllFit s t {c} (find_occupied i k n p found e) (ck, at, f) fits =
      subst AllFit (sym f) (ends_fit i _ _ s c (ap place_of e) refl fits)
  Fetches-AllFit s t {c} (find_vacant i k p absent e) f fits =
      subst AllFit (sym f) (asks_fit i k _ s c e (ap asks p) refl fits)
  Fetches-AllFit s t {c} (fetched i k n p e) (ck, hash, at, f) fits =
      subst AllFit (sym f) (ends_fit i _ _ s c (ap place_of e) refl fits)
  Fetches-AllFit s t {c} (failed i k p e) f fits =
      subst AllFit (sym f) (ends_fit i _ _ s c (ap place_of e) refl fits)
  Fetches-AllFit s t {c} (viewed i k n p e) f fits =
      Returns-AllFit i k n s c t (ap place_of e) f fits
  Fetches-AllFit s t {c} (viewed_occupied i k n p e) f fits =
      Returns-AllFit i k n s c t (ap place_of e) f fits
  Fetches-AllFit s t {c} (cancelled i k p e) f fits =
      subst AllFit (sym f) (ends_fit i _ _ s c (ap place_of e) refl fits)
  Fetches-AllFit s t {c} (invalidate k free e) f fits =
      subst AllFit (sym f)
        (subst (λ (d : Tasks.System). AllFit (record s { cache = d })) (sym e) fits)

  -- A task outside `fetch_nonce` goes on there.
  put-AllFit :
      (i : ℕ) (p : Stage) (s : Jobs) → Fits p (s.cache.place i) → AllFit s → AllFit (put i p s)
  put-AllFit i p s new fits = stage-Fits i p s.stage s.cache.place new fits

  pub at-Fits : (i : ℕ) (p : Stage) (s : Jobs) → s.stage i ≡ p → AllFit s → Fits p (s.cache.place i)
  at-Fits i p s at fits = subst (λ x. Fits x (s.cache.place i)) at (fits i)

module _ ⦃near : Near⦄ ⦃net : Net⦄ (work : Work) where
  Step-AllFit : {s t : Jobs} → Step work s t → AllFit s → AllFit t
  Step-AllFit {s} {t} (fetch st f) fits = Fetches-AllFit s t st f fits
  Step-AllFit {s} {t} (refused i ck at free e f) fits =
      Fetches-AllFit s t (invalidate ck free e) f fits
  Step-AllFit {s} (account i signer id at now acc e) fits =
      subst AllFit (sym e) (put-AllFit i _ s (at-Fits i resting s at fits) fits)
  Step-AllFit {s} (public_key i signer id at now e) fits =
      subst AllFit (sym e) (put-AllFit i _ s (at-Fits i (has_account id) s at fits) fits)
  Step-AllFit {s} (sign_tx i signer ck at now e) fits =
      subst AllFit (sym e) (put-AllFit i _ s (at-Fits i (has_cache_key ck) s at fits) fits)
  Step-AllFit {s} (fetch_nonce i signer ck pk id at now acc e) fits =
      subst AllFit (sym e) (put-AllFit i _ s (inl (at-Fits i (has_key ck pk) s at fits)) fits)
  Step-AllFit {s} (signer_id i signer ck c hash id at now acc e) fits =
      subst AllFit (sym e) (put-AllFit i _ s (at-Fits i (holding ck c hash) s at fits) fits)
  Step-AllFit {s} (sign i signer ck c hash id at now e) fits =
      subst AllFit (sym e)
        (put-AllFit i _ s (at-Fits i (has_signer_id ck c hash id) s at fits) fits)
  Step-AllFit {s} (send i ck c tx at e) fits =
      subst AllFit (sym e) (put-AllFit i _ s (at-Fits i (ready ck c tx) s at fits) fits)
  Step-AllFit {s} (finished i ck at e) fits =
      subst AllFit (sym e) (put-AllFit i _ s (at-Fits i (sending ck) s at fits) fits)
  Step-AllFit {s} (dropped i ck k at out e) fits = subst AllFit (sym e) (put-AllFit i _ s out fits)

  pub Reach-AllFit : {s : Jobs} → Reach work s → AllFit s
  Reach-AllFit (here counters) = λ i. refl
  Reach-AllFit (next r st) = Step-AllFit st (Reach-AllFit r)
