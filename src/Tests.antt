-- ===== src/Tests.antt =====
-- Runs of the definitions on a concrete world, and the theorems at concrete inputs.
mod Stage
mod Bench
mod Ends
mod Output
mod Pids
mod Sizes
mod Scripts
mod Attach
