-- ===== src/Tests/Polls.antt =====
-- Polling for a transaction (`AsyncTransactionStatus` of near-fetch/src/ops.rs) in the small world.
use near_fetch.Prelude.{some, ◌≡◌, refl, arith}
use near_fetch.Near.Views.{TxExecutionStatus}
use near_fetch.Error.{Result, ok}
use near_fetch.Effects.{State, sleep}
use near_fetch.Execution.{from_view, ExecutionFinalResult}
use near_fetch.Ops.Status.{AsyncTransactionStatus, status, wait, wait_until}
use near_fetch.Ops.Polling as Polling
use near_fetch.Ops.Waiting.{Waits, stop, again, wait-eq-some_of-Waits}
use near_fetch.Tests.World.{small, small_net, client, fresh_state, executed_outcome}

abbrev deferred : AsyncTransactionStatus
deferred = record { client = client; sender_id = 9; hash = 42 }

-- after one poll that times out, a sleep, and one poll that gives the outcome
abbrev settled_state : State
settled_state = (status deferred (sleep 300 (status deferred fresh_state).1).1).1

abbrev end : Result ExecutionFinalResult × State
end = (ok (from_view executed_outcome), settled_state)

end-Waits : Waits 300 deferred 1 fresh_state end
unfolding status sleep
end-Waits = again refl (stop refl refl)

wait-eq-some_of-Waits_example : wait 5 300 deferred fresh_state ≡ some end
wait-eq-some_of-Waits_example =
    wait-eq-some_of-Waits 300 deferred 5 1 fresh_state end end-Waits (omega arith)

status-polled_example : status deferred fresh_state ≡ (
  Polling.polled (Polling.answer deferred TxExecutionStatus.included fresh_state),
  Polling.asked deferred TxExecutionStatus.included fresh_state,
)
status-polled_example = Polling.status-polled deferred fresh_state

wait_until-settled_example : wait_until TxExecutionStatus.included deferred fresh_state ≡ (
  Polling.settled (Polling.answer deferred TxExecutionStatus.included fresh_state),
  Polling.asked deferred TxExecutionStatus.included fresh_state,
)
wait_until-settled_example =
    Polling.wait_until-settled TxExecutionStatus.included deferred fresh_state
