-- ===== src/Tasks/Jobs/Whole.antt =====
-- near-fetch/src/lib.rs: `send_tx_once` as one task runs it alone, against its steps among others.
use near_fetch.Prelude.{
  ℕ, List, ◌∷◌, ◌≡◌, ◌≢◌, refl, sym, ◌∙◌, ap, arith, inl, inr, Bool-cases, [], remove,
}
use mathlib.Core.Path.{subst}
use near_fetch.Near.{Near, Except, value, error}
use near_fetch.Near.Views.{RpcTransactionResponse, TxExecutionStatus, FinalExecutionOutcomeView}
use near_fetch.Near.Requests.{SignedTransaction}
use near_fetch.Error.{Result, ok}
use near_fetch.Effects.{CacheKey, cache_key_eq, Net, State}
use near_fetch.Signer.Rotating.{KeyRotatingSigner, rotating_signer}
use near_fetch.Client.{Client}
use near_fetch.Client.Send as Send
use near_fetch.Tasks.Jobs.{
  Ticket, resting, Jobs, put, Work, signed, refused, finished, sending, bump,
}
use near_fetch.Tasks.Jobs.Runs.{update_self, after_sending, sending_run}
use near_fetch.Tasks.Jobs.Turns.{turn, turn-account_id, turn-public_key}
use near_fetch.Tasks.Jobs.Taken.{Runs, more, Agrees, onward, current-eq-turn}
use near_fetch.Tasks.Jobs.Others.{IsSame, Runs-IsSame}
use near_fetch.Tasks.Jobs.Alone.{sign_tx-Signs}
use near_fetch.Tasks.{forgotten}
use near_fetch.Near.Errors.{JsonRpcError, RpcTransactionError, TxExecutionError}
use near_fetch.Client.Replies.{sent, answer, send_tx_once_lem}
use near_fetch.Client.Errors.{
  invalidate_cache, invalidate_on, check_and_invalidate_cache, is_nonce_error, is_invalid_nonce,
  fetch_tx_errs,
}

module _ ⦃near : Near⦄ ⦃net : Net⦄ (work : Work) (c : Client) (i : ℕ) (k : CacheKey)
    (o : Jobs) where
  -- The task has sent its transaction, and deals with the answer.
  record Answers (sent : List (Ticket × SignedTransaction)) (σ : State) : Type 0 where
    end : Jobs
    run : Runs work i o end
    agrees : Agrees work c i end σ
    same : end.sent ≡ sent
    at_answer : end.stage i ≡ sending k

  invalidate_cache-Answers :
      (sent : List (Ticket × SignedTransaction)) (σ : State)
      → Answers sent σ
      → Answers sent (invalidate_cache c k σ).1
  unfolding invalidate_cache
  invalidate_cache-Answers sent σ a =
      let end : Jobs = record a.end {
        cache = forgotten k a.end.cache;
        epoch = bump k a.end.epoch;
      } in
      record {
        end = end;
        run = more a.run (refused i k a.at_answer a.agrees.free refl refl) refl;
        agrees = record {
          counters = a.agrees.counters;
          nonces =
              ap (remove cache_key_eq k) a.agrees.nonces
              ∙ sym (update_self σ.nonces c.access_key_nonces _);
          free = a.agrees.free;
          out = a.agrees.out;
        };
        same = a.same;
        at_answer = a.at_answer;
      }

  invalidate_on-Answers :
      (sent : List (Ticket × SignedTransaction)) (es : List TxExecutionError) (σ : State)
      → Answers sent σ
      → Answers sent (invalidate_on c k es σ).1
  unfolding invalidate_on
  invalidate_on-Answers sent [] σ a = a
  invalidate_on-Answers sent (e ∷ es) σ a = elim (Bool-cases (is_nonce_error e)) [
    | inl wrong ↦ rw wrong (invalidate_on-Answers sent es _ (invalidate_cache-Answers sent σ a))
    | inr fine ↦ rw fine (invalidate_on-Answers sent es σ a)
  ]

  check-Answers :
      (sent : List (Ticket × SignedTransaction))
      (answer : Except (JsonRpcError RpcTransactionError) RpcTransactionResponse) (σ : State)
      → Answers sent σ
      → Answers sent (check_and_invalidate_cache c k answer σ).1
  unfolding check_and_invalidate_cache
  check-Answers sent (value response) σ a = invalidate_on-Answers sent (fetch_tx_errs response) σ a
  check-Answers sent (error e) σ a = elim (Bool-cases (is_invalid_nonce e)) [
    | inl wrong ↦ rw wrong (invalidate_cache-Answers sent σ a)
    | inr fine ↦ rw fine a
  ]

module _ ⦃near : Near⦄ ⦃net : Net⦄ (work : Work) (c : Client) (i : ℕ) (s : Jobs)
    (wait_until : TxExecutionStatus) where
  -- What the task has done when its `send_tx_once` has returned in a state.
  pub record Simulates (tx : SignedTransaction) (τ : State) : Type 0 where
    pub end : Jobs
    pub run : Runs work i s end
    pub agrees : Agrees work c i end τ
    pub rests : end.stage i ≡ resting
    pub others : (j : ℕ) → j ≢ i → IsSame j s end
    pub epoch : ℕ
    pub sent :
        end.sent
        ≡ (
          record {
            key = (tx.transaction.signer_id, tx.transaction.public_key);
            epoch = epoch;
            nonce = tx.transaction.nonce;
          },
          tx,
        )
          ∷ s.sent

  abbrev ring : KeyRotatingSigner
  ring = work.signer i

  -- A call of `send_tx_once` that no other task interrupts, once its transaction `tx` could be
  -- signed, is a run of the steps of its task and of nothing else, whatever the network answers: from
  -- a state where no task has a guard they send that transaction and no other, lead to the cache and
  -- the counters that the call leaves, and to where the task rests again and each other task is
  -- where it was.
  pub send_tx_once-Simulates :
      (σ u : State) (tx : SignedTransaction)
      → s.stage i ≡ resting
      → Agrees work c i s σ
      → Send.sign_tx c (rotating_signer ring) (work.receiver_id i) (work.actions i) σ ≡ (ok tx, u)
      → Simulates tx
          (Send.send_tx_once c
            (rotating_signer ring)
            (work.receiver_id i)
            (work.actions i)
            wait_until
            σ).1
  send_tx_once-Simulates σ u tx rests agrees signed =
      let signs = sign_tx-Signs work c i s σ u tx rests agrees signed in
      let k : CacheKey = (tx.transaction.signer_id, tx.transaction.public_key) in
      let now : turn ring σ ≡ ok signs.signer =
        sym (current-eq-turn work c i s σ agrees) ∙ signs.first in
      let d : Ticket = record { key = k; epoch = signs.epoch; nonce = tx.transaction.nonce } in
      let after : State =
        sent c (rotating_signer ring) (work.receiver_id i) (work.actions i) wait_until tx u in
      let asked : Answers work c i k s ((d, tx) ∷ s.sent) after = record {
        end = after_sending work i k d tx signs.end;
        run =
            sending_run work (Runs work i s) i (onward work i s) k d tx signs.end signs.at_tx
              signs.run;
        agrees = record {
          counters = signs.agrees.counters;
          nonces = signs.agrees.nonces;
          free = signs.agrees.free;
          out = signs.agrees.out;
        };
        same = ap (◌∷◌ (d, tx)) signs.sent;
        at_answer = ground arith;
      } in
      let reply =
        answer c (rotating_signer ring) (work.receiver_id i) (work.actions i) wait_until tx u in
      let done = check-Answers work c i k s ((d, tx) ∷ s.sent) reply after asked in
      let ends =
        send_tx_once_lem c (rotating_signer ring) (work.receiver_id i) (work.actions i) wait_until σ
          σ σ u k.0 k.1 tx (turn-account_id ring σ signs.signer k.0 now signs.account)
          (turn-public_key ring σ signs.signer now ∙ (λ j. (ok (sym signs.key j), σ))) signed in
      let whole : Runs work i s (put i resting done.end) =
        more done.run (finished i k done.at_answer refl) refl in
      subst (Simulates tx) (sym (ap (λ (p : Result FinalExecutionOutcomeView × State). p.1) ends))
        (record {
          end = put i resting done.end;
          run = whole;
          others = λ j other. Runs-IsSame work i j other whole;
          agrees = record {
            counters = done.agrees.counters;
            nonces = done.agrees.nonces;
            free = done.agrees.free;
            out = done.agrees.out;
          };
          rests = ground arith;
          epoch = signs.epoch;
          sent = done.same;
        })
