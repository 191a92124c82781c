-- ===== src/Tests.antt =====
-- Runs of the model at concrete inputs, and the theorems at inputs where their hypotheses hold.
mod Fixtures
mod Proxying
mod Logging
mod Exchanging
mod Relaying
mod Paging
mod Running
mod Replaying
mod Specifying
mod Generating
mod Certifying
mod Configuring
mod Starting
