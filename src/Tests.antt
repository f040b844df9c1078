-- ===== src/Tests.antt =====
-- Runs of the code's definitions, and the theorems at concrete inputs.
mod Data
mod Paths
mod Escapes
mod Documents
mod Counters
mod Contents
mod Searches
mod Found
