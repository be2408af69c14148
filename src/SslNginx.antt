-- ===== src/SslNginx.antt =====
-- benchmark/ssl-nginx/benchmark.py, the runner of the nginx throughput benchmark.
pub mod Book
pub mod Trace
pub mod Process
pub mod Ready
pub mod Phase
pub mod Bpftime
pub mod Main
pub mod Accounts
pub mod Outcome
pub mod Guarantees
pub mod Preflight
