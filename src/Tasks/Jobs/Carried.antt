-- ===== src/Tasks/Jobs/Carried.antt =====
-- near-fetch/src/lib.rs: what the transactions carry that tasks sign, and which account and public
-- key their nonces are for.
use near_fetch.Prelude.{
  ℕ, List, [], ◌∷◌, ◌≡◌, refl, sym, ◌∙◌, arith, All, zero, suc, ℕ_discrete, inl, inr,
}
use mathlib.Core.Path.{subst}
use near_fetch.Near.{Near}
use near_fetch.Effects.{CacheKey, Net, update, Signer}
use near_fetch.Tasks as Tasks
use near_fetch.Tasks.{
  acquire_read, hit, miss, acquire_write, find_occupied, find_vacant, fetched, failed, viewed,
  viewed_occupied, cancelled, invalidate,
}
use near_fetch.Tasks.Jobs.{
  Stage, taking, holding, has_signer_id, ready, resting, asking, sending, Jobs, put, Work, Fetches,
  Returns, Step, account, public_key, sign_tx, fetch_nonce, fetch, signer_id, sign, send, refused,
  finished, dropped, Reach, here, next, current,
}
use near_fetch.Tasks.Jobs.Tickets.{Sent}
use near_fetch.Error.{ok}
use near_fetch.Effects.Laws.{ok_injective}
use near_fetch.Signer.{expose_account_id}
use near_fetch.Signer.Rotating.{index}

module _ ⦃near : Near⦄ where
  -- The transaction has the nonce of its ticket, and the account and the public key it is for.
  abbrev pub Carries : Sent → Type 0
  Carries (c, tx) =
      (tx.transaction.nonce ≡ c.nonce)
      × (tx.transaction.signer_id ≡ c.key.0)
      × (tx.transaction.public_key ≡ c.key.1)

module _ ⦃near : Near⦄ ⦃net : Net⦄ where
  -- Every signer that a task has is of one account, as those of `try_from_iter` are.
  abbrev pub OneAccount : Work → (ℕ → near.AccountId) → Type 0
  OneAccount work accounts =
      (i : ℕ)
      → All (λ signer. (id : near.AccountId) → expose_account_id signer ≡ ok id → id ≡ accounts i)
          (work.signer i).signers

module _ ⦃near : Near⦄ ⦃net : Net⦄ (work : Work) (accounts : ℕ → near.AccountId)
    (owned : OneAccount work accounts) where
  -- What a task has is for its account.
  abbrev Agrees : ℕ → Stage → Type 0
  Agrees i (asking _ k) = k.0 ≡ accounts i
  Agrees i (taking _ c) = c.key.0 ≡ accounts i
  Agrees i (holding _ c _) = c.key.0 ≡ accounts i
  Agrees i (has_signer_id _ c _ id) = (c.key.0 ≡ accounts i) × (id ≡ accounts i)
  Agrees i (ready _ c tx) = Carries (c, tx)
  Agrees i _ = Unit

  -- What the tasks have is theirs, and so is what they sent.
  abbrev IsCarried : Jobs → Type 0
  IsCarried s = ((i : ℕ) → Agrees i (s.stage i)) × All Carries s.sent

  put-Agrees :
      (i : ℕ) (p : Stage) (stage : ℕ → Stage)
      → Agrees i p
      → ((j : ℕ) → Agrees j (stage j))
      → (j : ℕ) → Agrees j (update stage i p j)
  put-Agrees i p stage new agrees j = elim (ℕ_discrete i j) [
    | yes e ↦
        let written : update stage i p j ≡ p = ground (arith, e) in
        subst (Agrees j) (sym written) (subst (λ l. Agrees l p) e new)
    | no ne ↦
        let kept : update stage i p j ≡ stage j = ground (arith, ne) in
        subst (Agrees j) (sym kept) (agrees j)
  ]

  index-All :
      (P : Signer → Type 0) (signers : List Signer) (j : ℕ) (signer : Signer)
      → index signers j ≡ ok signer
      → All P signers
      → P signer
  index-All P [] j signer e a = cc
  index-All P (x ∷ xs) zero signer e a = subst P (ok_injective e) a.0
  index-All P (x ∷ xs) (suc j) signer e a = index-All P xs j signer e a.1

  current-account :
      (i : ℕ) (s : Jobs) (signer : Signer) (id : near.AccountId)
      → current work i s ≡ ok signer
      → expose_account_id signer ≡ ok id
      → id ≡ accounts i
  current-account i s signer id now acc =
      index-All (λ x. (a : near.AccountId) → expose_account_id x ≡ ok a → a ≡ accounts i)
        (work.signer i).signers _ signer now (owned i) id acc

  put-IsCarried : (i : ℕ) (p : Stage) (s : Jobs) → Agrees i p → IsCarried s → IsCarried (put i p s)
  put-IsCarried i p s new (agrees, sent) = (put-Agrees i p s.stage new agrees, sent)

  -- What the task has agrees with where it is.
  at-Agrees : (i : ℕ) (p : Stage) (s : Jobs) → s.stage i ≡ p → IsCarried s → Agrees i p
  at-Agrees i p s at carried = subst (Agrees i) at (carried.0 i)

  Returns-IsCarried :
      (i : ℕ) (k : CacheKey) (n : ℕ) (s : Jobs) (c : Tasks.System) {t : Jobs}
      → Returns i k n s c t
      → IsCarried s
      → IsCarried t
  Returns-IsCarried i k n s c (inl (ck, e, hash, at, f)) carried =
      subst IsCarried (sym f) (put-IsCarried i _ s (at-Agrees i _ s at carried) carried)
  Returns-IsCarried i k n s c (inr f) carried =
      subst IsCarried (sym f) (put-IsCarried i resting s tt carried)

  Fetches-IsCarried :
      (s t : Jobs) {c : Tasks.System} (st : Tasks.Step s.cache c)
      → Fetches s st t
      → IsCarried s
      → IsCarried t
  Fetches-IsCarried s t (acquire_read i k p free e) (ck, at, f) carried =
      subst IsCarried (sym f) carried
  Fetches-IsCarried s t (hit i k n p found e) (ck, at, f) carried =
      subst IsCarried (sym f) (put-IsCarried i _ s (at-Agrees i (asking ck k) s at carried) carried)
  Fetches-IsCarried s t (miss i k p absent e) f carried = subst IsCarried (sym f) carried
  Fetches-IsCarried s t (acquire_write i k p free e) f carried = subst IsCarried (sym f) carried
  Fetches-IsCarried s t (find_occupied i k n p found e) (ck, at, f) carried =
      subst IsCarried (sym f) (put-IsCarried i _ s (at-Agrees i (asking ck k) s at carried) carried)
  Fetches-IsCarried s t (find_vacant i k p absent e) f carried = subst IsCarried (sym f) carried
  Fetches-IsCarried s t (fetched i k n p e) (ck, hash, at, f) carried =
      subst IsCarried (sym f) (put-IsCarried i _ s (at-Agrees i (asking ck k) s at carried) carried)
  Fetches-IsCarried s t (failed i k p e) f carried =
      subst IsCarried (sym f) (put-IsCarried i resting s tt carried)
  Fetches-IsCarried s t {c} (viewed i k n p e) f carried = Returns-IsCarried i k n s c f carried
  Fetches-IsCarried s t {c} (viewed_occupied i k n p e) f carried =
      Returns-IsCarried i k n s c f carried
  Fetches-IsCarried s t (cancelled i k p e) f carried =
      subst IsCarried (sym f) (put-IsCarried i resting s tt carried)
  Fetches-IsCarried s t (invalidate k free e) f carried = subst IsCarried (sym f) carried

  Step-IsCarried : {s t : Jobs} → Step work s t → IsCarried s → IsCarried t
  Step-IsCarried {s} {t} (fetch st f) carried = Fetches-IsCarried s t st f carried
  Step-IsCarried {s} {t} (refused i ck at free e f) carried =
      Fetches-IsCarried s t (invalidate ck free e) f carried
  Step-IsCarried {s} (account i signer id at now acc e) carried =
      subst IsCarried (sym e) (put-IsCarried i _ s tt carried)
  Step-IsCarried {s} (public_key i signer id at now e) carried =
      subst IsCarried (sym e) (put-IsCarried i _ s tt carried)
  Step-IsCarried {s} (sign_tx i signer ck at now e) carried =
      subst IsCarried (sym e) (put-IsCarried i _ s tt carried)
  Step-IsCarried {s} (fetch_nonce i signer ck pk id at now acc e) carried =
      subst IsCarried (sym e) (put-IsCarried i _ s (current-account i s signer id now acc) carried)
  Step-IsCarried {s} (signer_id i signer ck c hash id at now acc e) carried =
      subst IsCarried (sym e) (
        put-IsCarried i _ s
          (at-Agrees i (holding ck c hash) s at carried, current-account i s signer id now acc)
          carried)
  Step-IsCarried {s} (sign i signer ck c hash id at now e) carried =
      let (own, same) = at-Agrees i (has_signer_id ck c hash id) s at carried in
      subst IsCarried (sym e) (put-IsCarried i _ s (refl, same ∙ sym own, refl) carried)
  Step-IsCarried {s} (send i ck c tx at e) carried =
      let (agrees, sent) = put-IsCarried i (sending ck) s tt carried in
      subst IsCarried (sym e) (agrees, (at-Agrees i (ready ck c tx) s at carried, sent))
  Step-IsCarried {s} (finished i ck at e) carried =
      subst IsCarried (sym e) (put-IsCarried i _ s tt carried)
  Step-IsCarried {s} (dropped i ck k at out e) carried =
      subst IsCarried (sym e) (put-IsCarried i _ s tt carried)

  Reach-IsCarried : {s : Jobs} → Reach work s → IsCarried s
  Reach-IsCarried (here counters) = ((λ i. tt), tt)
  Reach-IsCarried (next r st) = Step-IsCarried st (Reach-IsCarried r)

  -- Every transaction that was sent carries the nonce that its task took for it, and the account
  -- and the public key that the task took it for.
  pub Reach-Carries : {s : Jobs} → Reach work s → All Carries s.sent
  Reach-Carries r = (Reach-IsCarried r).1
