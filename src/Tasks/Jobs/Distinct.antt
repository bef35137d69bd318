-- ===== src/Tasks/Jobs/Distinct.antt =====
-- near-fetch/src/lib.rs: the nonces of the transactions that tasks send with one client, whichever
-- way their steps interleave.
use near_fetch.Prelude.{ℕ, List, [], ◌∷◌, ◌≢◌, sym, ◌∙◌, ap, All}
use near_fetch.Near.{Near}
use near_fetch.Effects.{Net}
use near_fetch.Tasks.Jobs.{Jobs, Work, Reach, IsWithin}
use near_fetch.Tasks.Jobs.Tickets.{Sent, IsApart, ArePairwiseApart}
use near_fetch.Tasks.Jobs.Carried.{Carries, OneAccount, Reach-Carries}
use near_fetch.Tasks.Jobs.Sound.{Reach-IsSoundAt}

module _ ⦃near : Near⦄ where
  -- What must not come twice: an account and a public key with a nonce, and the number of times
  -- that the key had been invalidated before the nonce was taken.
  abbrev pub stamp : Sent → (near.AccountId × near.PublicKey) × ℕ × ℕ
  stamp (c, tx) =
      ((tx.transaction.signer_id, tx.transaction.public_key), tx.transaction.nonce, c.epoch)

  abbrev pub IsDistinct : Sent → Sent → Type 0
  IsDistinct x y = stamp x ≢ stamp y

  abbrev pub AreDistinct : List Sent → Type 0
  AreDistinct [] = Unit
  AreDistinct (x ∷ xs) = All (IsDistinct x) xs × AreDistinct xs

  IsApart-IsDistinct : (x y : Sent) → Carries x → Carries y → IsApart x.0 y.0 → IsDistinct x y
  IsApart-IsDistinct x y (n, a, p) (m, b, q) apart same =
      apart (λ i. ((sym a ∙ ap (λ z. z.0.0) same ∙ b) i, (sym p ∙ ap (λ z. z.0.1) same ∙ q) i))
        (ap (λ z. z.2) same) (sym n ∙ ap (λ z. z.1) same ∙ m)

  All-IsDistinct :
      (x : Sent) (xs : List Sent)
      → Carries x
      → All Carries xs
      → All (λ y. IsApart x.0 y.0) xs
      → All (IsDistinct x) xs
  All-IsDistinct x [] own theirs apart = tt
  All-IsDistinct x (y ∷ ys) own theirs apart =
      (IsApart-IsDistinct x y own theirs.0 apart.0, All-IsDistinct x ys own theirs.1 apart.1)

  carried-AreDistinct : (xs : List Sent) → All Carries xs → ArePairwiseApart xs → AreDistinct xs
  carried-AreDistinct [] carried apart = tt
  carried-AreDistinct (x ∷ xs) carried apart =
      (All-IsDistinct x xs carried.0 carried.1 apart.0, carried-AreDistinct xs carried.1 apart.1)

module _ ⦃near : Near⦄ ⦃net : Net⦄ (work : Work) where
  -- However the tasks of one client take turns, signing, sending, dropping calls and invalidating
  -- keys, no two transactions that they have sent for one account and public key have the same
  -- nonce, unless the key was invalidated between the taking of the two nonces; if each task's
  -- signers are of one account, and no nonce counter has wrapped around.
  pub Reach-AreDistinct :
      (accounts : ℕ → near.AccountId)
      → OneAccount work accounts
      → {s : Jobs} (r : Reach work s) → IsWithin work r
      → AreDistinct s.sent
  Reach-AreDistinct accounts owned {s} r within =
      carried-AreDistinct s.sent (Reach-Carries work accounts owned r)
        (Reach-IsSoundAt work r within).pairwise
