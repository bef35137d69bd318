-- ===== src/Ops.antt =====
-- near-fetch/src/ops.rs: the builders of transactions, sending with retries, and the status of a
-- transaction that was sent asynchronously.
pub mod Constants
pub mod Function
pub mod Retry
pub mod Retryable
pub mod Batch
pub mod Call
pub mod Status
pub mod Attempts
pub mod Deferred
pub mod Polling
pub mod Waiting
