-- ===== src/Tasks/Jobs/Alone.antt =====
-- near-fetch/src/lib.rs: `sign_tx` as one task runs it alone, against its steps among others.
use near_fetch.Prelude.{ℕ, ◌+◌, ◌%◌, ◌^◌, ◌≡◌, refl, sym, ◌∙◌, ap, arith, length}
use mathlib.Core.Path.{subst₂}
use near_fetch.Near.{Near}
use near_fetch.Near.Requests.{SignedTransaction}
use near_fetch.Error.{Result, ok}
use near_fetch.Effects.{Signer, CacheKey, Net, State, update}
use near_fetch.Effects.Laws.{>>=-eq-ok, ok_injective}
use near_fetch.Signer.{SignerExt, expose_account_id}
use near_fetch.Signer.Rotating.{KeyRotatingSigner, index, rotating_signer}
use near_fetch.Client.{Client}
use near_fetch.Client.Nonce as Nonce
use near_fetch.Client.Nonce.{next_nonce, access_key, vacant_nonce, write_nonce}
use near_fetch.Client.Send as Send
use near_fetch.Client.Sending as Sending
use near_fetch.Client.Sending.{unsigned, with_signature, with_id, with_account, with_key}
use near_fetch.Tasks.Jobs.{Ticket, ticket, ready, resting, Jobs, Work, current, signed}
use near_fetch.Tasks.Jobs.Runs.{after_asking, after_signing, asking_run, signing_run}
use near_fetch.Tasks.Jobs.Turns.{
  turn, account_id-turn, public_key-turn, sign-turn, fetch_nonce-Takes,
}
use near_fetch.Tasks.Jobs.Taken.{Runs, done, Agrees, current-eq-turn, onward, Holds, taken-Holds}

module _ ⦃near : Near⦄ ⦃net : Net⦄ (work : Work) where
  -- What the task has when its `sign_tx` has returned between two states.
  pub record Signs (c : Client) (i : ℕ) (s : Jobs) (tx : SignedTransaction) (τ : State)
      : Type 0 where
    pub end : Jobs
    pub run : Runs work i s end
    pub agrees : Agrees work c i end τ
    pub sent : end.sent ≡ s.sent
    -- the signer that was current at the start
    pub signer : Signer
    pub first : current work i s ≡ ok signer
    pub key : tx.transaction.public_key ≡ net.public_key_of signer
    pub account : expose_account_id signer ≡ ok tx.transaction.signer_id
    -- it has the transaction, with a ticket for its key and its nonce
    pub epoch : ℕ
    pub at_tx :
        end.stage i
        ≡ ready
            (tx.transaction.signer_id, tx.transaction.public_key)
            (record {
              key = (tx.transaction.signer_id, tx.transaction.public_key);
              epoch = epoch;
              nonce = tx.transaction.nonce;
            })
            tx

  module _ (c : Client) (i : ℕ) (s : Jobs) where
    abbrev ring : KeyRotatingSigner
    ring = work.signer i

    abbrev signs_with : SignerExt
    signs_with = rotating_signer ring

    -- the state after a signature
    abbrev turned : State → State
    turned σ = record σ {
      counters = update σ.counters ring.counter ((σ.counters ring.counter + 1) % 2 ^ 64);
    }

    with_id-turn :
        (x : Signer) (id : near.AccountId) (e : ℕ) (issued : ℕ × near.CryptoHash × ℕ) (σ τ : State)
        (tx : SignedTransaction)
        → turn ring σ ≡ ok x
        → with_id signs_with c
            (work.receiver_id i)
            (work.actions i)
            (net.public_key_of x)
            issued
            id
            σ
          ≡ (ok tx, τ)
        → (signed work i x
              (record { key = (id, net.public_key_of x); epoch = e; nonce = issued.0 })
              issued.1
              id
            ≡ tx)
          × (turned σ ≡ τ)
    with_id-turn x id e issued σ τ tx now returned =
        let bare =
          unsigned signs_with c (work.receiver_id i) (work.actions i) (net.public_key_of x) issued
            id in
        let (signature, u, got, rest) =
          >>=-eq-ok (signs_with.sign (net.hash_bytes bare))
            (with_signature signs_with c (work.receiver_id i) (work.actions i) bare) σ returned in
        let (y, again, made, after) = sign-turn ring (net.hash_bytes bare) σ got in
        let with_sig : near.Signature → SignedTransaction =
          λ z. record { signature = z; transaction = bare } in
        let same : net.sign_with x (net.hash_bytes bare) ≡ signature =
          ap (λ z. net.sign_with z (net.hash_bytes bare)) (ok_injective (sym now ∙ again))
          ∙ sym made in
        (
          ap with_sig same ∙ ok_injective (ap (λ (p : Result SignedTransaction × State). p.0) rest),
          sym after ∙ ap (λ (p : Result SignedTransaction × State). p.1) rest,
        )

    -- the end of `sign_tx`, once the task has a nonce
    held-Signs :
        (x : Signer) (id : near.AccountId) (issued : ℕ × near.CryptoHash × ℕ) (σ : State)
        → Holds work c i
            (id, net.public_key_of x)
            issued.1
            issued.0
            (after_asking i (id, net.public_key_of x) s)
            σ
            s
        → turn ring σ ≡ ok x
        → current work i s ≡ ok x
        → expose_account_id x ≡ ok id
        → Signs c i s
            (signed work i x
              (record {
                key = (id, net.public_key_of x);
                epoch = s.epoch (id, net.public_key_of x);
                nonce = issued.0;
              })
              issued.1
              id)
            (turned σ)
    held-Signs x id issued σ h now first own =
        let k : CacheKey = (id, net.public_key_of x) in
        let d : Ticket = ticket k issued.0 s in
        let end : Jobs = after_signing work i x k d issued.1 id h.end in
        record {
          end = end;
          run =
              signing_run work (Runs work i s) i (onward work i s) x k d issued.1 id h.end h.at_hash
                (current-eq-turn work c i h.end σ h.agrees ∙ now) own h.run;
          agrees = record {
            counters =
                ap (λ (f : ℕ → ℕ). update f ring.counter ((f ring.counter + 1) % 2 ^ 64))
                  h.agrees.counters;
            nonces = h.agrees.nonces;
            free = h.agrees.free;
            out = h.agrees.out;
          };
          sent = h.sent;
          signer = x;
          first = first;
          key = refl;
          account = own;
          epoch = s.epoch k;
          at_tx = ground arith;
        }

    with_account-Signs :
        (x : Signer) (id : near.AccountId) (σ τ : State) (tx : SignedTransaction)
        → s.stage i ≡ resting
        → Agrees work c i s σ
        → turn ring σ ≡ ok x
        → expose_account_id x ≡ ok id
        → with_account signs_with c (work.receiver_id i) (work.actions i) (net.public_key_of x) id σ
          ≡ (ok tx, τ)
        → Signs c i s tx τ
    with_account-Signs x id σ τ tx rests agrees now own returned =
        let k : CacheKey = (id, net.public_key_of x) in
        let asked : Jobs = after_asking i k s in
        let (issued, u, got, rest) =
          >>=-eq-ok (Nonce.fetch_nonce c id k.1)
            (Sending.with_nonce signs_with c (work.receiver_id i) (work.actions i) k.1) σ
            returned in
        let takes = fetch_nonce-Takes c k σ issued u got in
        let (id', v, got', rest') =
          >>=-eq-ok signs_with.account_id
            (with_id signs_with c (work.receiver_id i) (work.actions i) k.1 issued) u rest in
        let (y, now', own', same) = account_id-turn ring u got' in
        let turns : turn ring u ≡ ok x =
          ap (λ (f : ℕ → ℕ). index ring.signers (f ring.counter % length ring.signers))
            takes.counters
          ∙ now in
        let same_id : id' ≡ id =
          ok_injective
            (sym own' ∙ ap (λ z. expose_account_id z) (ok_injective (sym now' ∙ turns)) ∙ own) in
        let (made, ends) = with_id-turn x id (s.epoch k) issued u τ tx turns (
          sym (
            ap (λ w. with_id signs_with c (work.receiver_id i) (work.actions i) k.1 issued id w)
              same)
          ∙ sym (
              ap (λ w. with_id signs_with c (work.receiver_id i) (work.actions i) k.1 issued w v)
                same_id)
          ∙ rest') in
        let run =
          asking_run work (Runs work i s) i (onward work i s) x id s rests
            (current-eq-turn work c i s σ agrees ∙ now) own done in
        let held =
          taken-Holds work c i k asked σ s run
            (record {
              counters = agrees.counters;
              nonces = agrees.nonces;
              free = agrees.free;
              out = agrees.out;
            })
            (ground arith) issued u takes in
        subst₂ (Signs c i s) made ends
          (held-Signs x id issued u held turns (current-eq-turn work c i s σ agrees ∙ now) own)

    -- A call of `sign_tx` that no other task interrupts, and that returns, is a run of the steps of
    -- one task: from a state where no task has a guard they lead to where the task has the very
    -- transaction that the call returns, with a ticket for its key and its nonce, to the cache and
    -- the counters that the call leaves, and to no task with a guard; nothing is sent.
    pub sign_tx-Signs :
        (σ τ : State) (tx : SignedTransaction)
        → s.stage i ≡ resting
        → Agrees work c i s σ
        → Send.sign_tx c signs_with (work.receiver_id i) (work.actions i) σ ≡ (ok tx, τ)
        → Signs c i s tx τ
    unfolding Send.sign_tx
    sign_tx-Signs σ τ tx rests agrees returned =
        let receiver = work.receiver_id i in
        let acts = work.actions i in
        let (pk, u, got, rest) =
          >>=-eq-ok signs_with.public_key (with_key signs_with c receiver acts) σ returned in
        let (x, now, is_pk, same) = public_key-turn ring σ got in
        let (id, v, got', rest') =
          >>=-eq-ok signs_with.account_id (with_account signs_with c receiver acts pk) σ
            (sym (ap (with_key signs_with c receiver acts pk) same) ∙ rest) in
        let (y, now', own, same') = account_id-turn ring σ got' in
        with_account-Signs x id σ τ tx rests agrees now
          (ap (λ z. expose_account_id z) (ok_injective (sym now ∙ now')) ∙ own)
          (sym (ap (λ w. with_account signs_with c receiver acts w id σ) is_pk)
            ∙ sym (ap (with_account signs_with c receiver acts pk id) same')
            ∙ rest')
