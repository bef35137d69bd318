-- ===== src/Tests/Builders.antt =====
-- The builders of near-fetch/src/ops.rs and the queries of near-fetch/src/query.rs in the small
-- world.
use near_fetch.Prelude.{ℕ, List, [], ◌∷◌, none, ◌≡◌, refl}
use near_fetch.Error.{ok, err, serialization}
use near_fetch.Effects.{cache_key_eq}
use near_fetch.Signer.{in_memory_signer}
use near_fetch.Ops.Function.{Function}
use near_fetch.Ops.Retry.{Retry}
use near_fetch.Ops.Status.{AsyncTransactionStatus}
use near_fetch.Ops.Batch as Batch
use near_fetch.Ops.Call as Call
use near_fetch.Ops.Deferred as Deferred
use near_fetch.Ops.Deferred.{Build, build}
use near_fetch.Query.{Query}
use near_fetch.Query.Methods.{ViewAccessKey, view_access_key_query}
use near_fetch.Tests.World.{small, small_net, client, fresh_state}

abbrev empty_batch : Batch.Transaction
unfolding Batch.new
empty_batch = Batch.new client (in_memory_signer 2) 9

abbrev calls : List ℕ → Function
calls args = record { name = "set"; args = ok args; deposit = 0; gas = 10 }

abbrev bad_call : Function
bad_call = record { name = "set"; args = err (serialization 0); deposit = 0; gas = 10 }

abbrev steps : List Build
steps = Build.create_account ∷ Build.call (calls (7 ∷ [])) ∷ Build.transfer 5 ∷ []

build-actions_example : (build steps empty_batch).actions ≡ ok (Deferred.actions_of steps)
unfolding Batch.new
build-actions_example =
    Deferred.build-actions steps empty_batch [] (tt, ((7 ∷ [], refl), (tt, tt))) refl

instance abbrev once : Retry
once = record { start = λ strategy action. action }

abbrev broken_batch : Batch.Transaction
broken_batch = record empty_batch { actions = err (serialization 0) }

abbrev broken_call : Call.FunctionCallTransaction
unfolding Call.call
broken_call = record (Call.call client (in_memory_signer 2) 9 "set") { function = bad_call }

transact-kept_error_example :
    (Batch.transact broken_batch fresh_state ≡ (err (serialization 0), fresh_state))
    × (Batch.transact_async broken_batch fresh_state ≡ (err (serialization 0), fresh_state))
    × (Call.transact broken_call fresh_state ≡ (err (serialization 0), fresh_state))
    × (Call.transact_async broken_call fresh_state ≡ (err (serialization 0), fresh_state))
unfolding broken_call
transact-kept_error_example =
    Deferred.transact-kept_error broken_batch broken_call (serialization 0) fresh_state refl refl

abbrev good_call : Call.FunctionCallTransaction
unfolding Call.call
good_call = record (Call.call client (in_memory_signer 2) 9 "set") { function = calls [] }

-- the account 1 signs, and the status object names the account 9 as the sender
abbrev promised : AsyncTransactionStatus
promised = record { client = client; sender_id = 9; hash = 8 }

batch_sends :
    Batch.transact_async empty_batch (record fresh_state { world = 2 })
    ≡ (ok promised, (Batch.transact_async empty_batch (record fresh_state { world = 2 })).1)
unfolding Batch.transact_async Batch.new cache_key_eq
batch_sends = refl

call_sends :
    Call.transact_async good_call (record fresh_state { world = 2 })
    ≡ (ok promised, (Call.transact_async good_call (record fresh_state { world = 2 })).1)
unfolding Call.transact_async Call.call cache_key_eq
call_sends = refl

transact_async-sender_id_example :
    (promised.sender_id ≡ empty_batch.receiver_id) × (promised.sender_id ≡ good_call.receiver_id)
transact_async-sender_id_example =
    Deferred.transact_async-sender_id empty_batch good_call (record fresh_state { world = 2 })
      (Batch.transact_async empty_batch (record fresh_state { world = 2 })).1
      (Call.transact_async good_call (record fresh_state { world = 2 })).1 promised promised
      batch_sends call_sends

abbrev key_query : Query ViewAccessKey
key_query = record {
  method = record { account_id = 1; public_key = 2 };
  client = client;
  block_ref = none;
}
