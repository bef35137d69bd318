-- ===== src/Tasks/Jobs/Others.antt =====
-- near-fetch/src/lib.rs: the steps of one task leave the other tasks where they are.
use near_fetch.Prelude.{ℕ, some, ◌≡◌, ◌≢◌, refl, ap, ◌∙◌, arith, inl, inr}
use near_fetch.Near.{Near}
use near_fetch.Effects.{Net}
use near_fetch.Tasks as Tasks
use near_fetch.Tasks.{
  acquire_read, hit, miss, acquire_write, find_occupied, find_vacant, fetched, failed, viewed,
  viewed_occupied, cancelled, invalidate,
}
use near_fetch.Tasks.Jobs.{
  Jobs, Work, Fetches, Step, actor, account, public_key, sign_tx, fetch_nonce, fetch, signer_id,
  sign, send, refused, finished, dropped,
}
use near_fetch.Tasks.Jobs.Taken.{Runs, done, more}

module _ ⦃near : Near⦄ where
  -- The task `j` is at the same place of its call, and of `fetch_nonce`.
  abbrev pub IsSame : ℕ → Jobs → Jobs → Type 0
  IsSame j s t = (t.stage j ≡ s.stage j) × (t.cache.place j ≡ s.cache.place j)

  module _ (i j : ℕ) (other : j ≢ i) where
    Step-same_place :
        {s t : Tasks.System} (st : Tasks.Step s t) → Tasks.actor st ≡ some i → t.place j ≡ s.place j
    Step-same_place (acquire_read _ _ _ _ e) own = ground (arith, e, own, other)
    Step-same_place (hit _ _ _ _ _ e) own = ground (arith, e, own, other)
    Step-same_place (miss _ _ _ _ e) own = ground (arith, e, own, other)
    Step-same_place (acquire_write _ _ _ _ e) own = ground (arith, e, own, other)
    Step-same_place (find_occupied _ _ _ _ _ e) own = ground (arith, e, own, other)
    Step-same_place (find_vacant _ _ _ _ e) own = ground (arith, e, own, other)
    Step-same_place (fetched _ _ _ _ e) own = ground (arith, e, own, other)
    Step-same_place (failed _ _ _ e) own = ground (arith, e, own, other)
    Step-same_place (viewed _ _ _ _ e) own = ground (arith, e, own, other)
    Step-same_place (viewed_occupied _ _ _ _ e) own = ground (arith, e, own, other)
    Step-same_place (cancelled _ _ _ e) own = ground (arith, e, own, other)
    Step-same_place (invalidate _ _ _) own = absurd (ground arith)

    -- what the step inside `fetch_nonce` does to the call around it
    Fetches-same_stage :
        (s : Jobs) {c : Tasks.System} (st : Tasks.Step s.cache c) (t : Jobs)
        → Fetches s st t
        → Tasks.actor st ≡ some i
        → (t.stage j ≡ s.stage j) × (t.cache ≡ c)
    Fetches-same_stage s (acquire_read _ _ _ _ _) t (_, _, f) own = ground (arith, f)
    Fetches-same_stage s (hit _ _ _ _ _ _) t (_, _, f) own = ground (arith, f, own, other)
    Fetches-same_stage s (miss _ _ _ _ _) t f own = ground (arith, f)
    Fetches-same_stage s (acquire_write _ _ _ _ _) t f own = ground (arith, f)
    Fetches-same_stage s (find_occupied _ _ _ _ _ _) t (_, _, f) own = ground (arith, f, own, other)
    Fetches-same_stage s (find_vacant _ _ _ _ _) t f own = ground (arith, f)
    Fetches-same_stage s (fetched _ _ _ _ _) t (_, _, _, f) own = ground (arith, f, own, other)
    Fetches-same_stage s (failed _ _ _ _) t f own = ground (arith, f, own, other)
    Fetches-same_stage s (viewed _ _ _ _ _) t (inl (_, _, _, _, f)) own =
        ground (arith, f, own, other)
    Fetches-same_stage s (viewed _ _ _ _ _) t (inr f) own = ground (arith, f, own, other)
    Fetches-same_stage s (viewed_occupied _ _ _ _ _) t (inl (_, _, _, _, f)) own =
        ground (arith, f, own, other)
    Fetches-same_stage s (viewed_occupied _ _ _ _ _) t (inr f) own = ground (arith, f, own, other)
    Fetches-same_stage s (cancelled _ _ _ _) t f own = ground (arith, f, own, other)
    Fetches-same_stage s (invalidate _ _ _) t f own = absurd (ground arith)

module _ ⦃near : Near⦄ ⦃net : Net⦄ (work : Work) (i j : ℕ) (other : j ≢ i) where
  Step-IsSame : {s t : Jobs} (st : Step work s t) → actor work st ≡ some i → IsSame j s t
  Step-IsSame (account _ _ _ _ _ _ e) own = ground (arith, e, own, other)
  Step-IsSame (public_key _ _ _ _ _ e) own = ground (arith, e, own, other)
  Step-IsSame (sign_tx _ _ _ _ _ e) own = ground (arith, e, own, other)
  Step-IsSame (fetch_nonce _ _ _ _ _ _ _ _ e) own = ground (arith, e, own, other)
  Step-IsSame {s} (fetch st f) own =
      let (stage, cache) = Fetches-same_stage i j other s st _ f own in
      (stage, ap (λ (c : Tasks.System). c.place j) cache ∙ Step-same_place i j other st own)
  Step-IsSame (signer_id _ _ _ _ _ _ _ _ _ e) own = ground (arith, e, own, other)
  Step-IsSame (sign _ _ _ _ _ _ _ _ e) own = ground (arith, e, own, other)
  Step-IsSame (send _ _ _ _ _ e) own = ground (arith, e, own, other)
  Step-IsSame (refused _ _ _ _ same f) own = ground (arith, f, same)
  Step-IsSame (finished _ _ _ e) own = ground (arith, e, own, other)
  Step-IsSame (dropped _ _ _ _ _ e) own = ground (arith, e, own, other)

  -- The steps of a task move no other one.
  pub Runs-IsSame : {s t : Jobs} → Runs work i s t → IsSame j s t
  Runs-IsSame done = (refl, refl)
  Runs-IsSame (more run st own) =
      let (stage, place) = Step-IsSame st own in
      let (stage', place') = Runs-IsSame run in (stage ∙ stage', place ∙ place')
