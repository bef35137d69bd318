-- ===== src/Client/Sending.antt =====
-- near-fetch/src/lib.rs: what `sign_tx` signs.
use near_fetch.Prelude.{ℕ, List, Bool, true, ◌≡◌, refl, sym, ◌∙◌, ap, some, lookup}
use mathlib.Core.Path.{subst₂}
use near_fetch.Near.{Near}
use near_fetch.Near.Requests.{Action, TransactionV0, SignedTransaction}
use near_fetch.Error.{Result, ok}
use near_fetch.Effects.{cache_key_eq, Nonces, Net, State, M, pure, ◌>>=◌}
use near_fetch.Effects.Laws.{>>=-eq-ok, ok_injective}
use near_fetch.Signer.{SignerExt}
use near_fetch.Signer.Lawful.{IsLawful}
use near_fetch.Client.{Client}
use near_fetch.Client.Nonce.{fetch_nonce}
use near_fetch.Client.Cache.{cached, fetch_nonce-cached, fetch_nonce-counters}
use near_fetch.Client.Send.{sign_tx}

module _ ⦃near : Near⦄ ⦃net : Net⦄ where
  abbrev result : {A : Type 0} → Result A × State → Result A
  result p = p.0

  abbrev state : {A : Type 0} → Result A × State → State
  state p = p.1

  module _ (signer : SignerExt) (c : Client) (receiver_id : near.AccountId)
      (actions : List Action) where
    -- the parts of `sign_tx`, from the last one on
    abbrev pub unsigned : near.PublicKey → ℕ × near.CryptoHash × ℕ → near.AccountId → TransactionV0
    unsigned pk (nonce, block_hash, _) signer_id = record {
      nonce = nonce;
      signer_id = signer_id;
      public_key = pk;
      receiver_id = receiver_id;
      block_hash = block_hash;
      actions = actions;
    }

    abbrev pub with_signature : TransactionV0 → near.Signature → M SignedTransaction
    with_signature tx signature = pure (record { signature = signature; transaction = tx })

    abbrev pub with_id :
        near.PublicKey → ℕ × near.CryptoHash × ℕ → near.AccountId → M SignedTransaction
    with_id pk issued signer_id =
        let tx = unsigned pk issued signer_id in
        signer.sign (net.hash_bytes tx) >>= with_signature tx

    abbrev pub with_nonce : near.PublicKey → ℕ × near.CryptoHash × ℕ → M SignedTransaction
    with_nonce pk issued = signer.account_id >>= with_id pk issued

    abbrev pub with_account : near.PublicKey → near.AccountId → M SignedTransaction
    with_account pk account = fetch_nonce c account pk >>= with_nonce pk

    abbrev pub with_key : near.PublicKey → M SignedTransaction
    with_key pk = signer.account_id >>= with_account pk

  module _ {verify : near.PublicKey → List ℕ → near.Signature → Bool} {signer : SignerExt}
      (lawful : IsLawful verify signer) (c : Client) (receiver_id : near.AccountId)
      (actions : List Action) where
    -- What a signed transaction holds, made between the states `s` and `t`.
    pub record IsSigned (s t : State) (signed : SignedTransaction) : Type 0 where
      pub verified :
          verify signed.transaction.public_key (net.hash_bytes signed.transaction) signed.signature
          ≡ true
      pub key : (signer.public_key s).0 ≡ ok signed.transaction.public_key
      pub account : (signer.account_id s).0 ≡ ok signed.transaction.signer_id
      pub receiver : signed.transaction.receiver_id ≡ receiver_id
      pub same_actions : signed.transaction.actions ≡ actions
      pub nonce :
          cached c (signed.transaction.signer_id, signed.transaction.public_key) t
          ≡ some signed.transaction.nonce
      -- the answer of `fetch_nonce` from the start
      pub height : ℕ
      pub fetched :
          (fetch_nonce c signed.transaction.signer_id signed.transaction.public_key s).0
          ≡ ok (signed.transaction.nonce, signed.transaction.block_hash, height)

    -- A transaction that `sign_tx` returns carries the signer's account and key, the receiver and
    -- the actions that were asked for, the nonce and the block that `fetch_nonce` gives for them, which
    -- is the nonce that the cache holds from then on, and a signature that verifies under the key in
    -- it, if the signer keeps its contract.
    pub sign_tx-IsSigned :
        (s t : State) (signed : SignedTransaction)
        → sign_tx c signer receiver_id actions s ≡ (ok signed, t)
        → IsSigned s t signed
    unfolding sign_tx
    sign_tx-IsSigned s t signed e =
        let (pk, s1, got_key, e1) =
          >>=-eq-ok signer.public_key (with_key signer c receiver_id actions) s e in
        let (account, s2, got_account, e2) =
          >>=-eq-ok signer.account_id (with_account signer c receiver_id actions pk) s1 e1 in
        let (issued, s3, got_nonce, e3) =
          >>=-eq-ok (fetch_nonce c account pk) (with_nonce signer c receiver_id actions pk) s2 e2 in
        let (signer_id, s4, got_id, e4) =
          >>=-eq-ok signer.account_id (with_id signer c receiver_id actions pk issued) s3 e3 in
        let tx = unsigned signer c receiver_id actions pk issued signer_id in
        let (signature, s5, got_signature, e5) =
          >>=-eq-ok (signer.sign (net.hash_bytes tx))
            (with_signature signer c receiver_id actions tx) s4 e4 in
        let f1 : s1 ≡ s = sym (ap state got_key) ∙ lawful.public_key_reads s in
        let f2 : s2 ≡ s = sym (ap state got_account) ∙ lawful.account_id_reads s1 ∙ f1 in
        let f3 : s3.counters ≡ s.counters =
          sym (ap (λ p. (state p).counters) got_nonce)
          ∙ fetch_nonce-counters c account pk s2
          ∙ ap (λ (u : State). u.counters) f2 in
        let f4 : s4 ≡ s3 = sym (ap state got_id) ∙ lawful.account_id_reads s3 in
        let f5 : s5.nonces ≡ s3.nonces =
          sym (ap (λ p. (state p).nonces) got_signature)
          ∙ (lawful.sign_keeps (net.hash_bytes tx) s4).0
          ∙ ap (λ (u : State). u.nonces) f4 in
        let same_id : account ≡ signer_id = ok_injective (
          sym (ap result got_account)
          ∙ sym (lawful.account_stable s1 s3 (f3 ∙ sym (ap (λ (u : State). u.counters) f1)))
          ∙ ap result got_id) in
        let held : cached c (account, pk) s3 ≡ some issued.0 =
          rw got_nonce at
            (fetch_nonce-cached c account pk s2 issued.0 issued.1 issued.2 (ap result got_nonce)) in
        let end : s5 ≡ t = ap state e5 in
        subst₂ (IsSigned s) end (ok_injective (ap result e5)) (record {
          verified =
              lawful.matched s s4 pk (net.hash_bytes tx) signature
                (ap (λ (u : State). u.counters) f4 ∙ f3) (ap result got_key)
                (ap result got_signature);
          key = ap result got_key;
          account = sym (lawful.account_stable s s3 f3) ∙ ap result got_id;
          receiver = refl;
          same_actions = refl;
          nonce =
              ap (λ id. cached c (id, pk) s5) (sym same_id)
              ∙ ap (λ (ns : ℕ → Nonces). lookup cache_key_eq (account, pk) (ns c.access_key_nonces))
                  f5
              ∙ held;
          height = issued.2;
          fetched =
              ap (λ id. result (fetch_nonce c id pk s)) (sym same_id)
              ∙ ap (λ (u : State). result (fetch_nonce c account pk u)) (sym f2)
              ∙ ap result got_nonce;
        })
