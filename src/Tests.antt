-- ===== src/Tests.antt =====
-- Runs of the theorems at concrete inputs.
mod Caches
mod Envelopes
mod Records
mod Tables
mod Stores
mod Samples
mod Queries
mod Peers
