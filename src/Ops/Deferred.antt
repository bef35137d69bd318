-- ===== src/Ops/Deferred.antt =====
-- near-fetch/src/ops.rs: the errors that the builders keep until a transaction is sent, the order
-- of a batch, and the account that an `AsyncTransactionStatus` names as the sender.
use near_fetch.Prelude.{ℕ, List, [], ◌∷◌, ◌++◌, ◌≡◌, refl, sym, ap, ◌∙◌, arith, All}
use mathlib.Core.List.{append-nil, append_assoc}
use near_fetch.Near.{Near}
use near_fetch.Near.Views.{TxExecutionStatus}
use near_fetch.Near.Requests.{Action, FunctionCallAction}
use near_fetch.Error.{Error, Result, ok, err}
use near_fetch.Effects.{Net, State, M, lift, pure, ◌>>=◌}
use near_fetch.Effects.Laws.{>>=-eq-ok, ok_injective}
use near_fetch.Client.{Client}
use near_fetch.Client.Send.{send_tx_async}
use near_fetch.Ops.Function as Function
use near_fetch.Ops.Retry.{Retry}
use near_fetch.Ops.Status as Status
use near_fetch.Ops.Status.{AsyncTransactionStatus}
use near_fetch.Ops.Batch as Batch
use near_fetch.Ops.Call as Call

module _ ⦃near : Near⦄ ⦃net : Net⦄ where
  open near use {AccountId, PublicKey}

  -- A call of a builder method of `Transaction`.
  pub data Build : Type 0 where
    add_key : PublicKey → near.AccessKey → Build
    call : Function.Function → Build
    create_account : Build
    delete_account : AccountId → Build
    delete_key : PublicKey → Build
    deploy : List ℕ → Build
    stake : near.NearToken → PublicKey → Build
    transfer : near.NearToken → Build
    retry : near.Strategy → Build
    wait_until : TxExecutionStatus → Build

  pub apply : Build → Batch.Transaction → Batch.Transaction
  apply (add_key pk ak) t = Batch.add_key pk ak t
  apply (call f) t = Batch.call f t
  apply create_account t = Batch.create_account t
  apply (delete_account id) t = Batch.delete_account id t
  apply (delete_key pk) t = Batch.delete_key pk t
  apply (deploy code) t = Batch.deploy code t
  apply (stake n pk) t = Batch.stake n pk t
  apply (transfer n) t = Batch.transfer n t
  apply (retry st) t = Batch.retry st t
  apply (wait_until st) t = Batch.wait_until st t

  pub build : List Build → Batch.Transaction → Batch.Transaction
  build [] t = t
  build (b ∷ bs) t = build bs (apply b t)

  -- the actions that a method stands for, if its arguments could be serialised
  abbrev pub action_of : Build → List Action
  action_of (add_key pk ak) = Action.add_key pk ak ∷ []
  action_of (call f) = elim f.args [
    | ok args ↦
        Action.function_call
          (record { method_name = f.name; args = args; gas = f.gas; deposit = f.deposit })
        ∷ []
    | _ ↦ []
  ]
  action_of create_account = Action.create_account ∷ []
  action_of (delete_account id) = Action.delete_account id ∷ []
  action_of (delete_key pk) = Action.delete_key pk ∷ []
  action_of (deploy code) = Action.deploy_contract code ∷ []
  action_of (stake n pk) = Action.stake n pk ∷ []
  action_of (transfer n) = Action.transfer n ∷ []
  action_of (retry st) = []
  action_of (wait_until st) = []

  abbrev pub actions_of : List Build → List Action
  actions_of [] = []
  actions_of (b ∷ bs) = action_of b ++ actions_of bs

  -- The arguments of the call, if it is one, were serialised.
  abbrev pub IsFine : Build → Type 0
  IsFine (call f) = (args : List ℕ) × (f.args ≡ ok args)
  IsFine _ = Unit

  apply_fine :
      (b : Build) (t : Batch.Transaction) (acts : List Action)
      → IsFine b
      → t.actions ≡ ok acts
      → (apply b t).actions ≡ ok (acts ++ action_of b)
  unfolding apply Batch.add_key Batch.call Batch.create_account Batch.delete_account
      Batch.delete_key Batch.deploy Batch.stake Batch.transfer Batch.retry Batch.wait_until
  apply_fine (add_key pk ak) t acts fine e = rw e
  apply_fine (call f) t acts (args, fine) e = rw fine (rw e)
  apply_fine create_account t acts fine e = rw e
  apply_fine (delete_account id) t acts fine e = rw e
  apply_fine (delete_key pk) t acts fine e = rw e
  apply_fine (deploy code) t acts fine e = rw e
  apply_fine (stake n pk) t acts fine e = rw e
  apply_fine (transfer n) t acts fine e = rw e
  apply_fine (retry st) t acts fine e = rw (e, append-nil)
  apply_fine (wait_until st) t acts fine e = rw (e, append-nil)

  -- A batch of methods whose arguments could all be serialised holds their actions, in the order of
  -- the calls, behind those that were there.
  pub build-actions :
      (bs : List Build) (t : Batch.Transaction) (acts : List Action)
      → All IsFine bs
      → t.actions ≡ ok acts
      → (build bs t).actions ≡ ok (acts ++ actions_of bs)
  unfolding build
  build-actions [] t acts fine e = rw (e, append-nil)
  build-actions (b ∷ bs) t acts fine e =
      build-actions bs (apply b t) (acts ++ action_of b) fine.1 (apply_fine b t acts fine.0 e)
      ∙ ap ok (append_assoc acts (action_of b) (actions_of bs))

  apply_broken :
      (b : Build) (t : Batch.Transaction) (e : Error)
      → IsFine b
      → t.actions ≡ err e
      → (apply b t).actions ≡ err e
  unfolding apply Batch.add_key Batch.call Batch.create_account Batch.delete_account
      Batch.delete_key Batch.deploy Batch.stake Batch.transfer Batch.retry Batch.wait_until
  apply_broken (call f) t e (args, fine) broken = rw fine (rw broken)
  apply_broken b t e fine broken = ground arith

  build_broken :
      (bs : List Build) (t : Batch.Transaction) (e : Error)
      → All IsFine bs
      → t.actions ≡ err e
      → (build bs t).actions ≡ err e
  unfolding build
  build_broken [] t e fine broken = broken
  build_broken (b ∷ bs) t e fine broken =
      build_broken bs (apply b t) e fine.1 (apply_broken b t e fine.0 broken)

  build-append :
      (bs cs : List Build) (t : Batch.Transaction) → build (bs ++ cs) t ≡ build cs (build bs t)
  unfolding build
  build-append [] cs t = refl
  build-append (b ∷ bs) cs t = build-append bs cs (apply b t)

  apply-call_err :
      (f : Function.Function) (t : Batch.Transaction) (e : Error)
      → f.args ≡ err e
      → (apply (call f) t).actions ≡ err e
  unfolding apply Batch.call
  apply-call_err f t e failed = rw failed

  -- If the arguments of a call could not be serialised, and those of all later calls could, the
  -- batch holds that call's error, whatever was called before it.
  pub build-call_err :
      (before after : List Build) (f : Function.Function) (t : Batch.Transaction) (e : Error)
      → f.args ≡ err e
      → All IsFine after
      → (build (before ++ call f ∷ after) t).actions ≡ err e
  unfolding build
  build-call_err before after f t e failed fine =
      ap (λ (u : Batch.Transaction). u.actions) (build-append before (call f ∷ after) t)
      ∙ build_broken after (apply (call f) (build before t)) e fine
          (apply-call_err f (build before t) e failed)

  -- A kept error is returned at once: neither `transact` nor `transact_async` of either builder
  -- reads or writes anything, or asks the network.
  pub transact-kept_error :
      ⦃r : Retry⦄ (b : Batch.Transaction) (f : Call.FunctionCallTransaction) (e : Error) (s : State)
      → b.actions ≡ err e
      → f.function.args ≡ err e
      → (Batch.transact b s ≡ (err e, s))
        × (Batch.transact_async b s ≡ (err e, s))
        × (Call.transact f s ≡ (err e, s))
        × (Call.transact_async f s ≡ (err e, s))
  unfolding Batch.transact Batch.transact_async Call.transact Call.transact_async
  transact-kept_error b f e s broken failed = (rw broken, rw broken, rw failed, rw failed)

  abbrev status_of : Client → near.AccountId → near.CryptoHash → M AsyncTransactionStatus
  status_of c receiver_id hash = pure (Status.new c receiver_id hash)

  status_of-sender_id :
      (m : M near.CryptoHash) (c : Client) (receiver_id : near.AccountId) (s u : State)
      (p : AsyncTransactionStatus)
      → (m >>= status_of c receiver_id) s ≡ (ok p, u)
      → p.sender_id ≡ receiver_id
  unfolding Status.new
  status_of-sender_id m c receiver_id s u p e =
      let (hash, t, _, made) = >>=-eq-ok m (status_of c receiver_id) s e in
      let outcome = λ (x : Result AsyncTransactionStatus × State). x.0 in
      sym (ap (λ (q : AsyncTransactionStatus). q.sender_id) (ok_injective (ap outcome made)))

  -- The status object that either `transact_async` returns names the receiver of the transaction
  -- as its sender.
  pub transact_async-sender_id :
      (b : Batch.Transaction) (f : Call.FunctionCallTransaction) (s u v : State)
      (p q : AsyncTransactionStatus)
      → Batch.transact_async b s ≡ (ok p, u)
      → Call.transact_async f s ≡ (ok q, v)
      → (p.sender_id ≡ b.receiver_id) × (q.sender_id ≡ f.receiver_id)
  unfolding Batch.transact_async Call.transact_async
  transact_async-sender_id b f s u v p q e e' =
      let batch_rest = λ (actions : List Action).
        send_tx_async b.client b.signer b.receiver_id actions
        >>= status_of b.client b.receiver_id in
      let call_rest = λ (action : FunctionCallAction).
        send_tx_async f.client f.signer f.receiver_id (Action.function_call action ∷ [])
        >>= status_of f.client f.receiver_id in
      let (actions, _, _, d) = >>=-eq-ok (lift b.actions) batch_rest s e in
      let (action, _, _, d') = >>=-eq-ok (lift (Function.into_action f.function)) call_rest s e' in
      (
        status_of-sender_id (send_tx_async b.client b.signer b.receiver_id actions) b.client
            b.receiver_id _ u p d,
        status_of-sender_id
            (send_tx_async f.client f.signer f.receiver_id (Action.function_call action ∷ []))
            f.client f.receiver_id _ v q d',
      )
