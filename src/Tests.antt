-- ===== src/Tests.antt =====
-- Runs of the model at concrete inputs.
mod Sample
mod Failures
mod Settings
mod Clients
mod Calls
mod Streams
mod Runs
mod Sent
mod Resuming
mod Sessions
mod Rounds
mod Threads
mod Apart
