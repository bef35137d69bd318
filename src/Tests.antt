-- ===== src/Tests.antt =====
-- Concrete runs of the model: a small world (Tests/World.antt), and each theorem that has
-- hypotheses applied in it.
mod World
mod Nonces
mod Interleavings
mod Jobs
mod Sends
mod Runs
mod Programs
mod Polls
mod Signers
mod Builders
mod Results
