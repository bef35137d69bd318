-- ===== src/Client/Spending.antt =====
-- near-fetch/src/lib.rs: what `fetch_nonce` and `sign_tx` do to the cached nonce of a key.
use near_fetch.Prelude.{
  ℕ, ◌+◌, ◌^◌, ◌<◌, List, Bool, some, ◌≡◌, ◌⊎◌, refl, sym, ◌∙◌, ap, arith, inl, inr, lookup,
  lookup-insert_self,
}
use mathlib.Core.Path.{subst}
use near_fetch.Near.{Near}
use near_fetch.Near.Requests.{Action, SignedTransaction}
use near_fetch.Error.{Result, ok}
use near_fetch.Effects.{CacheKey, cache_key_eq, Nonces, Net, State}
use near_fetch.Effects.Laws.{>>=-elim, >>=-elim_of_reads, ok_injective}
use near_fetch.Signer.{SignerExt}
use near_fetch.Signer.Lawful.{IsLawful}
use near_fetch.Client.{Client}
use near_fetch.Client.Nonce.{next_nonce, fetch_nonce}
use near_fetch.Client.Send.{sign_tx}
use near_fetch.Client.Cache.{cached, fetch_nonce-counters, fetch_nonce-hit, fetch_nonce-others}
use near_fetch.Client.Sending.{
  unsigned, with_signature, with_id, with_nonce, with_account, with_key,
}
use near_fetch.Client.Log.{IsSilent, trace-IsSilent, refl-IsSilent, fetch_nonce-IsSilent}

module _ ⦃near : Near⦄ ⦃net : Net⦄ (c : Client) (k : CacheKey) (n : ℕ) (small : n + 1 < 2 ^ 64)
    (s : State) (held : cached c k s ≡ some n) where
  -- The cached nonce, after a call that may have raised it.
  abbrev pub Kept : State → Type 0
  Kept t = (cached c k t ≡ some n) ⊎ (cached c k t ≡ some (n + 1))

  record Fetches (j : CacheKey) : Type 0 where
    kept : Kept (fetch_nonce c j.0 j.1 s).1
    issues :
        (m : ℕ) (hash : near.CryptoHash) (height : ℕ)
        → j ≡ k
        → (fetch_nonce c j.0 j.1 s).0 ≡ ok (m, hash, height)
        → (cached c k (fetch_nonce c j.0 j.1 s).1 ≡ some (n + 1)) × (m ≡ n + 1)

  own-Fetches : Fetches k
  own-Fetches =
      let (wrote, issued) = fetch_nonce-hit c k.0 k.1 s n held in
      let raised : cached c k (fetch_nonce c k.0 k.1 s).1 ≡ some (n + 1) = rw wrote (
        ground (
          arith,
          lookup-insert_self cache_key_eq k (next_nonce n) (s.nonces c.access_key_nonces),
        )) in
      record {
        kept = inr raised;
        issues = λ m hash height same e. (raised, omega (arith, issued m hash height e));
      }

  fetch_nonce-Fetches : (j : CacheKey) → Fetches j
  fetch_nonce-Fetches j = elim (cache_key_eq k j) [
    | yes same ↦ subst Fetches same own-Fetches
    | no other ↦ record {
      kept = inl (fetch_nonce-others c j.0 j.1 s c k (inr other) ∙ held);
      issues = λ m hash height same e. absurd (other (sym same));
    }
  ]

module _ ⦃near : Near⦄ ⦃net : Net⦄ {verify : near.PublicKey → List ℕ → near.Signature → Bool}
    {signer : SignerExt} (lawful : IsLawful verify signer) (c : Client)
    (receiver_id : near.AccountId) (actions : List Action) where
  abbrev Signed : Type 0
  Signed = Result SignedTransaction × State

  -- The transaction has this key and nonce, and the signer's account.
  abbrev Carries : near.PublicKey → ℕ × near.CryptoHash × ℕ → State → SignedTransaction → Type 0
  Carries pk issued t signed =
      (signed.transaction.nonce ≡ issued.0)
      × (signed.transaction.public_key ≡ pk)
      × ((signer.account_id t).0 ≡ ok signed.transaction.signer_id)

  -- The end of `sign_tx`, once it has a nonce.
  record Finishes (pk : near.PublicKey) (issued : ℕ × near.CryptoHash × ℕ) (t : State) (p : Signed)
      : Type 0 where
    nonces : p.1.nonces ≡ t.nonces
    trace : p.1.trace ≡ t.trace
    carries : (signed : SignedTransaction) → p.0 ≡ ok signed → Carries pk issued t signed

  module _ (pk : near.PublicKey) (issued : ℕ × near.CryptoHash × ℕ) (t : State) where
    with_id-Finishes :
        (id : near.AccountId)
        → (signer.account_id t).0 ≡ ok id
        → Finishes pk issued t (with_id signer c receiver_id actions pk issued id t)
    with_id-Finishes id e =
        let tx = unsigned signer c receiver_id actions pk issued id in
        >>=-elim (Finishes pk issued t) (signer.sign (net.hash_bytes tx))
          (with_signature signer c receiver_id actions tx) t
          (λ signature u signed_to. record {
            nonces = rw signed_to at (lawful.sign_keeps (net.hash_bytes tx) t).0;
            trace = rw signed_to at (lawful.sign_keeps (net.hash_bytes tx) t).1;
            carries =
                λ signed same. subst (Carries pk issued t) (ok_injective same) (refl, refl, e);
          })
          (λ r not_ok. record {
            nonces = (lawful.sign_keeps (net.hash_bytes tx) t).0;
            trace = (lawful.sign_keeps (net.hash_bytes tx) t).1;
            carries = λ signed same. absurd (not_ok signed same);
          })

    -- The account is asked for again, and the transaction signed.
    with_nonce-Finishes : Finishes pk issued t (with_nonce signer c receiver_id actions pk issued t)
    with_nonce-Finishes =
        >>=-elim_of_reads (Finishes pk issued t) signer.account_id
          (with_id signer c receiver_id actions pk issued) t (lawful.account_id_reads t)
          with_id-Finishes
          (λ r not_ok. record {
            nonces = refl;
            trace = refl;
            carries = λ signed same. absurd (not_ok signed same);
          })

  module _ (k : CacheKey) (n : ℕ) (small : n + 1 < 2 ^ 64) (s : State)
      (held : cached c k s ≡ some n) where
    -- Nothing is sent, and a transaction that was made for the key has the nonce after the cached
    -- one, which the cache has now.
    pub record Signs (p : Signed) : Type 0 where
      pub silent : IsSilent k s p.1
      pub kept : Kept c k n small s held p.1
      pub next_nonce :
          (signed : SignedTransaction)
          → p.0 ≡ ok signed
          → ◌≡◌ {A = CacheKey} (signed.transaction.signer_id, signed.transaction.public_key) k
          → (cached c k p.1 ≡ some (n + 1)) × (signed.transaction.nonce ≡ n + 1)

    unsigned-Signs :
        (r : Result SignedTransaction)
        → ((signed : SignedTransaction) → ¬ (r ≡ ok signed))
        → Signs (r, s)
    unsigned-Signs r not_ok = record {
      silent = refl-IsSilent k s;
      kept = inl held;
      next_nonce = λ signed same own. absurd (not_ok signed same);
    }

    with_account-Signs :
        (pk : near.PublicKey) (account : near.AccountId)
        → (signer.account_id s).0 ≡ ok account
        → Signs (with_account signer c receiver_id actions pk account s)
    with_account-Signs pk account got =
        let fetches = fetch_nonce-Fetches c k n small s held (account, pk) in
        let silent = fetch_nonce-IsSilent k c (account, pk) s in
        >>=-elim Signs (fetch_nonce c account pk) (with_nonce signer c receiver_id actions pk) s
          (λ issued t fetched.
            let end : (fetch_nonce c account pk s).1 ≡ t =
              ap (λ (p : Result (ℕ × near.CryptoHash × ℕ) × State). p.1) fetched in
            let fin = with_nonce-Finishes pk issued t in
            let same_cache : cached c k (with_nonce signer c receiver_id actions pk issued t).1
                ≡ cached c k (fetch_nonce c account pk s).1 =
              ap (λ (ns : ℕ → Nonces). lookup cache_key_eq k (ns c.access_key_nonces))
                (fin.nonces ∙ sym (ap (λ (u : State). u.nonces) end)) in
            record {
              silent =
                  trace-IsSilent k s (fetch_nonce c account pk s).1 _
                    (fin.trace ∙ sym (ap (λ (u : State). u.trace) end)) silent;
              kept = elim fetches.kept [
                | inl old ↦ inl (same_cache ∙ old)
                | inr new ↦ inr (same_cache ∙ new)
              ];
              next_nonce = λ signed same own.
                  let (nonce, key, id) = fin.carries signed same in
                  let counters : t.counters ≡ s.counters =
                    sym (ap (λ (u : State). u.counters) end)
                    ∙ fetch_nonce-counters c account pk s in
                  let same_id : account ≡ signed.transaction.signer_id =
                    ok_injective (sym got ∙ sym (lawful.account_stable s t counters) ∙ id) in
                  let (raised, is_next) =
                    fetches.issues issued.0 issued.1 issued.2 ((λ i. (same_id i, sym key i)) ∙ own)
                      (ap (λ (p : Result (ℕ × near.CryptoHash × ℕ) × State). p.0) fetched) in
                  (same_cache ∙ raised, nonce ∙ is_next);
            })
          (λ r not_ok. record {
            silent = silent;
            kept = fetches.kept;
            next_nonce = λ signed same own. absurd (not_ok signed same);
          })

    with_key-Signs : (pk : near.PublicKey) → Signs (with_key signer c receiver_id actions pk s)
    with_key-Signs pk =
        >>=-elim_of_reads Signs signer.account_id (with_account signer c receiver_id actions pk) s
          (lawful.account_id_reads s) (with_account-Signs pk) unsigned-Signs

    pub sign_tx-Signs : Signs (sign_tx c signer receiver_id actions s)
    unfolding sign_tx
    sign_tx-Signs =
        >>=-elim_of_reads Signs signer.public_key (with_key signer c receiver_id actions) s
          (lawful.public_key_reads s) (λ pk got. with_key-Signs pk) unsigned-Signs
