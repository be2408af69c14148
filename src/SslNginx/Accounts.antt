-- ===== src/SslNginx/Accounts.antt =====
-- The accounts of benchmark/ssl-nginx/benchmark.py: what the phases do to `results` and
-- `run_stats`, whatever the world does.
pub mod Invariant
pub mod Silent
pub mod Phases
pub mod Attempts
pub mod Count
pub mod Rounds
pub mod Tries
pub mod Breaks
pub mod Consistent
pub mod Frame
pub mod Preflighted
