-- ===== src/Samples.antt =====
-- The theorems at concrete inputs.
mod Workers
mod Queueing
mod Futures
mod Handles
mod Joins
mod Combines
mod Races
mod Sessions
mod Shutdowns
mod Dealings
mod Systems
mod Endings
