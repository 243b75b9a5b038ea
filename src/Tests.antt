-- ===== src/Tests.antt =====
-- Runs of the model, and each theorem that has hypotheses applied where they hold.
mod Fixtures
mod States
mod Auths
mod Releases
mod Records
mod Pruned
mod Writes
mod Updates
mod Audits
mod Requests
mod Interleavings
mod Stops
mod SignIns
mod Packages
mod Starts
