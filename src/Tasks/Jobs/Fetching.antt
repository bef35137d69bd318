-- ===== src/Tasks/Jobs/Fetching.antt =====
-- near-fetch/src/lib.rs: every step inside `fetch_nonce` brings the sending of a transaction nearer
-- to its end.
use near_fetch.Prelude.{ℕ, true, false, Bool, some, ◌≡◌, refl, sym, ◌∙◌, ap, arith, inl, inr}
use mathlib.Core.Path.{subst}
use near_fetch.Near.{Near}
use near_fetch.Effects.{CacheKey, update}
use near_fetch.Tasks as Tasks
use near_fetch.Tasks.{
  acquire_read, hit, miss, acquire_write, find_occupied, find_vacant, fetched, failed, viewed,
  viewed_occupied, cancelled, invalidate, Place, idle, looking, viewing, upgrading, entering,
  occupied, fetching,
}
use near_fetch.Tasks.Jobs.{resting, asking, Jobs, Fetches, Returns}
use near_fetch.Tasks.Jobs.Fits.{asks, takes, asks-asking, takes-taking, AllFit}
use near_fetch.Tasks.Jobs.Load.{AreBelow, Lowers, both-Lowers, place-Lowers}

module _ ⦃near : Near⦄ where
  -- The steps inside `fetch_nonce`; `invalidate_cache` is not a step of a call.
  abbrev pub is_fetching : {s t : Tasks.System} → Tasks.Step s t → Bool
  is_fetching (invalidate _ _ _) = false
  is_fetching _ = true

module _ ⦃near : Near⦄ (n : ℕ) where
  -- At a place without a nonce the stage is `asking`.
  asked :
      (i : ℕ) (k : CacheKey) (q : Place) (s : Jobs)
      → AllFit s
      → s.cache.place i ≡ q
      → asks q ≡ some k
      → (ck : CacheKey) × (s.stage i ≡ asking ck k)
  asked i k q s fits is a = asks-asking (s.stage i) (s.cache.place i) k (ap asks is ∙ a) (fits i)

  Returns-Lowers :
      (i : ℕ) (k : CacheKey) (m : ℕ) (q : Place) (s : Jobs) (c : Tasks.System) (t : Jobs)
      → AllFit s
      → AreBelow n s
      → c.place ≡ update s.cache.place i idle
      → s.cache.place i ≡ q
      → takes q ≡ some (k, m)
      → Returns i k m s c t
      → Lowers n s t
  Returns-Lowers i k m q s c t fits below e is a (inl (ck, epoch, hash, at, f)) =
      subst (Lowers n s) (sym f) (both-Lowers n i _ _ q idle s c below e (at, is) (omega arith))
  Returns-Lowers i k m q s c t fits below e is a (inr f) =
      let (ck, epoch, at) =
        takes-taking (s.stage i) (s.cache.place i) k m (ap takes is ∙ a) (fits i) in
      subst (Lowers n s) (sym f)
        (both-Lowers n i _ resting q idle s c below e (at, is) (omega arith))

  abbrev place_of : Tasks.System → ℕ → Place
  place_of c = c.place

  pub Fetches-Lowers :
      (s t : Jobs) {c : Tasks.System} (st : Tasks.Step s.cache c)
      → is_fetching st ≡ true
      → Fetches s st t
      → AllFit s
      → AreBelow n s
      → Lowers n s t
  Fetches-Lowers s t {c} (acquire_read i k p free e) w (ck, at, f) fits below =
      subst (Lowers n s) (sym f)
        (place-Lowers n i _ idle (looking k) s c below (ap place_of e) (at, p) (omega arith))
  Fetches-Lowers s t {c} (hit i k m p found e) w (ck, at, f) fits below =
      subst (Lowers n s) (sym f)
        (both-Lowers n i _ _ (looking k) _ s c below (ap place_of e) (at, p) (omega arith))
  Fetches-Lowers s t {c} (miss i k p absent e) w f fits below =
      let (ck, at) = asked i k (looking k) s fits p refl in
      subst (Lowers n s) (sym f) (
        place-Lowers n i _ (looking k) (upgrading k) s c below (ap place_of e) (at, p)
          (omega arith))
  Fetches-Lowers s t {c} (acquire_write i k p free e) w f fits below =
      let (ck, at) = asked i k (upgrading k) s fits p refl in
      subst (Lowers n s) (sym f) (
        place-Lowers n i _ (upgrading k) (entering k) s c below (ap place_of e) (at, p)
          (omega arith))
  Fetches-Lowers s t {c} (find_occupied i k m p found e) w (ck, at, f) fits below =
      subst (Lowers n s) (sym f)
        (both-Lowers n i _ _ (entering k) _ s c below (ap place_of e) (at, p) (omega arith))
  Fetches-Lowers s t {c} (find_vacant i k p absent e) w f fits below =
      let (ck, at) = asked i k (entering k) s fits p refl in
      subst (Lowers n s) (sym f) (
        place-Lowers n i _ (entering k) (fetching k) s c below (ap place_of e) (at, p)
          (omega arith))
  Fetches-Lowers s t {c} (fetched i k m p e) w (ck, hash, at, f) fits below =
      subst (Lowers n s) (sym f)
        (both-Lowers n i _ _ (fetching k) idle s c below (ap place_of e) (at, p) (omega arith))
  Fetches-Lowers s t {c} (failed i k p e) w f fits below =
      let (ck, at) = asked i k (fetching k) s fits p refl in
      subst (Lowers n s) (sym f) (
        both-Lowers n i _ resting (fetching k) idle s c below (ap place_of e) (at, p) (omega arith))
  Fetches-Lowers s t {c} (viewed i k m p e) w f fits below =
      Returns-Lowers i k m (viewing k m) s c t fits below (ap place_of e) p refl f
  Fetches-Lowers s t {c} (viewed_occupied i k m p e) w f fits below =
      Returns-Lowers i k m (occupied k m) s c t fits below (ap place_of e) p refl f
  Fetches-Lowers s t {c} (cancelled i k p e) w f fits below =
      let (ck, at) = asked i k (upgrading k) s fits p refl in
      subst (Lowers n s) (sym f) (
        both-Lowers n i _ resting (upgrading k) idle s c below (ap place_of e) (at, p)
          (omega arith))
  Fetches-Lowers s t {c} (invalidate k free e) w f fits below = cc
