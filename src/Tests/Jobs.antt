-- ===== src/Tests/Jobs.antt =====
-- Tasks that send transactions with one client (Tasks/Jobs.antt), in the small world: two of them
-- share a signer, which rotates between the keys 2 and 3 of the account 1.
use near_fetch.Prelude.{
  ◌+◌, ◌*◌, ◌≤◌, ◌<◌, refl, arith, ℕ, [], ◌∷◌, List, ◌≡◌, zero, suc, sym, ◌%◌, ℕ_discrete,
}
use near_fetch.Error.{ok, Result}
use near_fetch.Near.Requests.{Action, SignedTransaction}
use near_fetch.Effects.{in_memory, Signer, State, call, cache_key_eq}
use near_fetch.Effects.Laws.{ok_injective}
use near_fetch.Signer.Rotating.{
  index, KeyRotatingSigner, rotating_signer, current_signer, fetch_and_rotate_signer, account_id,
  sign,
}
use near_fetch.Signer.{expose_account_id}
use near_fetch.Tasks.Jobs.{Work, Jobs, resting, put, Ticket, finished, start}
use near_fetch.Tasks.Jobs.Carried.{OneAccount}
use near_fetch.Tasks.Jobs.Distinct.{AreDistinct, Reach-AreDistinct}
use near_fetch.Tasks.Jobs.Crossed.{
  shared, both_sent, both_sent-Reached, Reached, IsCrossed, both_sent-IsCrossed,
}
use near_fetch.Tasks.Jobs.Progress.{CanSign, MovesOn, Reach-MovesOn}
use near_fetch.Tasks.Jobs.Load.{AreBelow, load}
use near_fetch.Tasks.Jobs.Ends.{Sends, done, more, Sends-bounded}
use near_fetch.Near.Views.{TxExecutionStatus}
use near_fetch.Client.Send as Send
use near_fetch.Client.Nonce.{fetch_nonce, access_key}
use near_fetch.Signer.Rotating as Rotating
use near_fetch.Tasks.Jobs.Taken.{Agrees}
use near_fetch.Tasks.Jobs.Whole.{Simulates, send_tx_once-Simulates}
use near_fetch.Tasks.Jobs.Misplaced.{IsMisplaced, one_sent-IsMisplaced}
use near_fetch.Tests.World.{client, fresh_state, small, small_net}

abbrev no_actions : ℕ → List Action
no_actions i = []

abbrev sharing : Work
sharing = shared (λ i. 5) no_actions (in_memory 2) (in_memory 3) 1

own_2 : expose_account_id (in_memory 2) ≡ ok 1
unfolding expose_account_id
own_2 = refl

own_3 : expose_account_id (in_memory 3) ≡ ok 1
unfolding expose_account_id
own_3 = refl

-- both tasks have sent a transaction, with the nonces 9 and 8
abbrev two_sent : Jobs
two_sent = both_sent (λ i. 5) no_actions (in_memory 2) (in_memory 3) 1 own_2 own_3 7 6

two_sent-Reached : Reached (λ i. 5) no_actions (in_memory 2) (in_memory 3) 1 two_sent
two_sent-Reached =
    both_sent-Reached (λ i. 5) no_actions (in_memory 2) (in_memory 3) 1 own_2 own_3 7 6
      (omega arith)

sharing-OneAccount : OneAccount sharing (λ i. 1)
unfolding expose_account_id
sharing-OneAccount i = (λ id e. ok_injective (sym e), (λ id e. ok_injective (sym e), tt))

Reach-AreDistinct_example : AreDistinct two_sent.sent
Reach-AreDistinct_example =
    Reach-AreDistinct sharing (λ i. 1) sharing-OneAccount two_sent-Reached.0 two_sent-Reached.1

abbrev Crossing : Type 0
Crossing =
    (s : Jobs) × Reached (λ i. 5) no_actions (in_memory 2) (in_memory 3) 1 s
    × (c : Ticket) × (tx : SignedTransaction) × (before : List (Ticket × SignedTransaction))
    × (s.sent ≡ (c, tx) ∷ before)
    × IsCrossed (λ i. 5) no_actions (in_memory 2) (in_memory 3) 1 tx

both_sent-IsCrossed_example : Crossing
both_sent-IsCrossed_example =
    both_sent-IsCrossed (λ i. 5) no_actions (in_memory 2) (in_memory 3) 1 own_2 own_3 7 6
      (omega arith)

sharing-CanSign : CanSign sharing
unfolding expose_account_id
sharing-CanSign i j = one_of (j % 2) (omega arith)
  where
    one_of :
        (m : ℕ)
        → m < 2
        → (signer : Signer) × (id : ℕ) × (index (in_memory 2 ∷ in_memory 3 ∷ []) m ≡ ok signer)
          × (expose_account_id signer ≡ ok id)
    one_of zero lt = (in_memory 2, 1, refl, refl)
    one_of (suc zero) lt = (in_memory 3, 1, refl, refl)
    one_of (suc (suc m)) lt = absurd (omega arith)

two_sent-AreBelow : AreBelow 2 two_sent
two_sent-AreBelow j ge = ground arith

Reach-MovesOn_example : MovesOn sharing two_sent
Reach-MovesOn_example =
    Reach-MovesOn sharing sharing-CanSign 6 2 two_sent-Reached.0 two_sent-AreBelow 0
      (λ e. ground (arith, e))

abbrev over : Jobs
over = put 1 resting (put 0 resting two_sent)

two_sent-Sends : Sends sharing 2 two_sent over
two_sent-Sends =
    more (finished 0 (1, 2) refl refl) refl (more (finished 1 (1, 2) refl refl) refl done)

Sends-bounded_example : (2 + load 2 over ≤ load 2 two_sent) × (2 ≤ 13 * 2)
Sends-bounded_example = Sends-bounded sharing 2 two_sent-Sends two_sent-Reached.0 two_sent-AreBelow

-- one task alone: its signer has the key 2 first, and the chain says that its nonce is 7
abbrev ring : KeyRotatingSigner
ring = sharing.signer 0

abbrev begin : Jobs
begin = start sharing (λ c. 0)

abbrev alone_tx : SignedTransaction
alone_tx = record {
  signature = 2;
  transaction = record {
    nonce = 8;
    signer_id = 1;
    public_key = 2;
    receiver_id = 5;
    block_hash = 5;
    actions = [];
  };
}

abbrev signed_alone : Result SignedTransaction × State
signed_alone = Send.sign_tx client (rotating_signer ring) 5 [] fresh_state

alone_signs : signed_alone.0 ≡ ok alone_tx
unfolding Send.sign_tx account_id Rotating.public_key sign current_signer fetch_and_rotate_signer
    expose_account_id fetch_nonce access_key call cache_key_eq ℕ_discrete
alone_signs = refl

begin-Agrees : Agrees sharing client 0 begin fresh_state
begin-Agrees = record { counters = refl; nonces = refl; free = λ j. (refl, refl); out = refl }

send_tx_once-Simulates_example :
    Simulates sharing client 0 begin
      (TxExecutionStatus.other 1)
      alone_tx
      (Send.send_tx_once client
        (rotating_signer ring)
        5
        []
        (TxExecutionStatus.other 1)
        fresh_state).1
send_tx_once-Simulates_example =
    send_tx_once-Simulates sharing client 0 begin (TxExecutionStatus.other 1) fresh_state
      signed_alone.1 alone_tx refl begin-Agrees (λ j. (alone_signs j, signed_alone.1))

one_sent-IsMisplaced_example :
    (s : Jobs) × Reached (λ i. 5) no_actions (in_memory 2) (in_memory 3) 1 s
    × IsMisplaced (λ i. 5) no_actions (in_memory 2) (in_memory 3) 1 s
one_sent-IsMisplaced_example =
    one_sent-IsMisplaced (λ i. 5) no_actions (in_memory 2) (in_memory 3) 1 own_2 own_3
      (λ e. omega arith) 7 6 (omega arith)
