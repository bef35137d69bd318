-- ===== src/Tasks/Jobs/Cache.antt =====
-- near-fetch/src/lib.rs: what happens to the cache while tasks send transactions is a run of
-- Tasks.antt.
use near_fetch.Prelude.{ℕ, ◌≡◌, sym, ap, inl, inr}
use mathlib.Core.Path.{subst}
use near_fetch.Near.{Near}
use near_fetch.Effects.{CacheKey, Net}
use near_fetch.Tasks as Tasks
use near_fetch.Tasks.{
  acquire_read, hit, miss, acquire_write, find_occupied, find_vacant, fetched, failed, viewed,
  viewed_occupied, cancelled, invalidate,
}
use near_fetch.Tasks.Jobs.{
  Jobs, Work, Fetches, Returns, Step, account, public_key, sign_tx, fetch_nonce, fetch, signer_id,
  sign, send, refused, finished, dropped, NoWrap, Reach, here, next, IsWithin,
}

module _ ⦃near : Near⦄ where
  abbrev cache_of : Jobs → Tasks.System
  cache_of s = s.cache

  Returns-cache :
      (i : ℕ) (k : CacheKey) (n : ℕ) (s : Jobs) (c : Tasks.System) {t : Jobs}
      → Returns i k n s c t
      → t.cache ≡ c
  Returns-cache i k n s c (inl (ck, e, hash, at, f)) = ap cache_of f
  Returns-cache i k n s c (inr f) = ap cache_of f

  pub Fetches-cache :
      (s t : Jobs) {c : Tasks.System} (st : Tasks.Step s.cache c) → Fetches s st t → t.cache ≡ c
  Fetches-cache s t (acquire_read i k p free e) (ck, at, f) = ap cache_of f
  Fetches-cache s t (hit i k n p found e) (ck, at, f) = ap cache_of f
  Fetches-cache s t (miss i k p absent e) f = ap cache_of f
  Fetches-cache s t (acquire_write i k p free e) f = ap cache_of f
  Fetches-cache s t (find_occupied i k n p found e) (ck, at, f) = ap cache_of f
  Fetches-cache s t (find_vacant i k p absent e) f = ap cache_of f
  Fetches-cache s t (fetched i k n p e) (ck, hash, at, f) = ap cache_of f
  Fetches-cache s t (failed i k p e) f = ap cache_of f
  Fetches-cache s t {c} (viewed i k n p e) f = Returns-cache i k n s c f
  Fetches-cache s t {c} (viewed_occupied i k n p e) f = Returns-cache i k n s c f
  Fetches-cache s t (cancelled i k p e) f = ap cache_of f
  Fetches-cache s t (invalidate k free e) f = ap cache_of f

  -- The cache was reached, with no counter wrapped around on the way.
  abbrev pub IsReached : Tasks.System → Type 0
  IsReached c = (r : Tasks.Reach c) × Tasks.IsWithin r

  Fetches-IsReached :
      (s t : Jobs) {c : Tasks.System} (st : Tasks.Step s.cache c)
      → Fetches s st t
      → Tasks.NoWrap st
      → IsReached s.cache
      → IsReached t.cache
  Fetches-IsReached s t st f small (r, within) =
      subst IsReached (sym (Fetches-cache s t st f)) (Tasks.next r st, (within, small))

module _ ⦃near : Near⦄ ⦃net : Net⦄ (work : Work) where
  -- A step outside `fetch_nonce` and `invalidate_cache` leaves the cache as it is.
  Step-IsReached :
      {s t : Jobs} (st : Step work s t) → NoWrap work st → IsReached s.cache → IsReached t.cache
  Step-IsReached {s} {t} (fetch st f) small r = Fetches-IsReached s t st f small r
  Step-IsReached {s} {t} (refused i ck at free e f) small r =
      Fetches-IsReached s t (invalidate ck free e) f tt r
  Step-IsReached (account i signer id at now acc e) small r =
      subst IsReached (sym (ap cache_of e)) r
  Step-IsReached (public_key i signer id at now e) small r = subst IsReached (sym (ap cache_of e)) r
  Step-IsReached (sign_tx i signer ck at now e) small r = subst IsReached (sym (ap cache_of e)) r
  Step-IsReached (fetch_nonce i signer ck pk id at now acc e) small r =
      subst IsReached (sym (ap cache_of e)) r
  Step-IsReached (signer_id i signer ck c hash id at now acc e) small r =
      subst IsReached (sym (ap cache_of e)) r
  Step-IsReached (sign i signer ck c hash id at now e) small r =
      subst IsReached (sym (ap cache_of e)) r
  Step-IsReached (send i ck c tx at e) small r = subst IsReached (sym (ap cache_of e)) r
  Step-IsReached (finished i ck at e) small r = subst IsReached (sym (ap cache_of e)) r
  Step-IsReached (dropped i ck k at out e) small r = subst IsReached (sym (ap cache_of e)) r

  pub Reach-IsReached : {s : Jobs} (r : Reach work s) → IsWithin work r → IsReached s.cache
  Reach-IsReached (here counters) within = (Tasks.here, tt)
  Reach-IsReached (next r st) within = Step-IsReached st within.1 (Reach-IsReached r within.0)
