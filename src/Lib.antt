-- ===== src/Lib.antt =====
-- near-fetch is a client library for the NEAR network. It signs and sends transactions over
-- JSON-RPC, keeps a cache of access key nonces that all clones of a client share, retries, polls
-- for results, and queries the chain. This library models the crate near-fetch/src and its examples.
--
-- The parts and their files:
-- - Near.antt and Near/: the types and functions of other crates, as the parameter `Near`, and the
--   foreign data types that the crate matches on. Cases and fields that it never reads are `Opaque`.
-- - Error.antt: near-fetch/src/error.rs, `Error`, its conversions, and `Result`, with `panic` for a
--   Rust panic.
-- - Effects.antt and Effects/: the monad `M` of the asynchronous functions. Its state has the shared
--   cells (nonce caches, signers' counters), the log of requests and sleeps, and the world that
--   answers. The parameter `Net` is the network: its answers may depend on all that came before.
-- - Signer.antt and Signer/: near-fetch/src/signer.rs. Signer/Rotating.antt has
--   `KeyRotatingSigner`; Signer/Lawful.antt has the contract `IsLawful` that clients of a signer
--   rely on.
-- - Client.antt and Client/: near-fetch/src/lib.rs. Client/Nonce.antt has `access_key`,
--   `cached_nonce` and `fetch_nonce`, Client/Errors.antt `fetch_tx_errs`,
--   `check_and_invalidate_cache` and `invalidate_cache`, Client/Send.antt `sign_tx`,
--   `send_tx_once`, `send_tx_async` and `status_tx_async`. Client/Rejection.antt says, without the
--   functions of the program, which answers mean that a nonce was wrong, and Client/Log.antt which
--   transactions of a key a log of requests has. The other children have proofs.
-- - Ops.antt and Ops/: near-fetch/src/ops.rs. Ops/Function.antt, Ops/Call.antt and Ops/Batch.antt
--   have the builders, Ops/Retryable.antt the transaction that is sent when it is awaited, and
--   Ops/Status.antt `AsyncTransactionStatus`. Ops/Retry.antt is the parameter for tokio-retry.
-- - Query.antt and Query/: near-fetch/src/query.rs, the queries and their builders.
-- - Execution.antt and Execution/: near-fetch/src/result.rs, the results of transactions.
-- - Tasks.antt and Tasks/: `fetch_nonce` and `invalidate_cache` run by any number of tasks, as a step
--   relation over the places where a task can be suspended. Tasks/Load.antt counts the steps that
--   are left to the tasks, Tasks/Progress.antt is about who can go on.
--   A call that is dropped is a step too.
-- - Tasks/Jobs.antt and Tasks/Jobs/: `send_tx_once` with `sign_tx` and `fetch_nonce`, run by any
--   number of tasks that share a client and the counters of `KeyRotatingSigner`s. A step is one
--   access of a shared cell, since tasks on other threads may come in between any two; those
--   inside `fetch_nonce` are the steps of Tasks.antt. Tasks/Jobs/Tickets.antt, Spending.antt and
--   Sound.antt follow a nonce from `fetch_add` to the sending; Tasks/Jobs/Turns.antt, Taken.antt,
--   Alone.antt, Others.antt and Whole.antt relate the steps to the functions of Client/Send.antt;
--   Tasks/Jobs/Runs.antt has the stretches of steps that the runs of Tasks/Jobs/Crossed.antt and
--   Misplaced.antt are made of.
-- - Examples.antt and Examples/: examples/src/various_views.rs and examples/src/social_call.rs, as
--   programs over the monad `Main`, whose failures are those of `anyhow::Error`. The parameter
--   `Outside` has the parsers and JSON.
-- - Prelude.antt and Prelude/: lists, association lists, finite sums and Boolean tests over native
--   numbers.
-- - Tests.antt and Tests/: a small concrete world, and runs in it.
--
-- How the parts meet: a builder of Ops keeps a client, a signer and actions. When it is awaited it
-- calls `send_tx_once`, which asks the signer for its key, takes a nonce from the client's cache,
-- signs, sends, and forgets the nonce if the answer says that it was wrong. Queries take the client
-- only; `fetch_nonce` itself asks for the latest block, or for an access key.
--
-- Bounds: nonces, the signers' counter and sums of gas are 64-bit and wrap, as they do in a release
-- build. The loop of `AsyncTransactionStatus::wait` has no bound in the program; here it runs on
-- fuel, one unit for each poll, and more units than there are pending polls are enough.
--
-- Not modelled: near-fetch/src/retry.rs, which no `mod` line reaches; `Debug` and
-- `Display` implementations; what the examples print; tokio's lock beyond its exclusion rule, so
-- that which waiter it serves first is left open; the inside of the other crates.
pub mod Prelude
pub mod Near
pub mod Error
pub mod Effects
pub mod Signer
pub mod Client
pub mod Execution
pub mod Ops
pub mod Examples
pub mod Tasks
pub mod Query
mod Tests
