-- ===== src/SslNginx/Book.antt =====
-- The globals of benchmark/ssl-nginx/benchmark.py, `mark_valid` and `mark_failed`.
use bpftime_benchmark.Prelude.{
  ℕ, ◌+◌, Bool, true, false, Option, none, some, List, [], ◌∷◌, ◌++◌, if◌then◌else◌,
}
use bpftime_benchmark.Text.Base.{Text, codes}
use bpftime_benchmark.Python.Exec.{Exec}
use bpftime_benchmark.Python.World.{World, Status}
use bpftime_benchmark.Python.Run.{Run, modify}
use bpftime_benchmark.Python.Floats.{Floats}

-- What the environment variables set.
pub record Config : Type 0 where
  pub num_runs : ℕ
  pub wrk_connections : Text
  pub wrk_duration : Text
  pub wrk_timeout : ℕ
  pub bpftime_retries : ℕ
  pub ready_timeout : ℕ
  pub trace_check_timeout : ℕ
  pub sslsniff_args : List Text
  pub bench_order : List Text

pub data TestName : Type 0 where
  baseline kernel_sslsniff bpftime_sslsniff : TestName

pub data Reason : Type 0 where
  timeouts parse_failures wrk_failures readiness_failures attach_failures exceptions : Reason

-- A value of `run_stats`. Where a dict lacks a key that another has, the field is `none`.
pub record Stats : Type 0 where
  pub target_runs : ℕ
  pub valid_runs : ℕ
  pub failed_attempts : ℕ
  pub timeouts : ℕ
  pub parse_failures : ℕ
  pub wrk_failures : ℕ
  pub exceptions : ℕ
  pub readiness_failures : Option ℕ
  pub attach_failures : Option ℕ
  pub retry_attempts : Option ℕ

-- What `summarize_trace_output` returns.
pub record Summary : Type 0 where
  pub returncode : Option Status
  pub event_count : ℕ
  pub attach_markers : List Text
  pub attach_started : Bool
  pub attach_success : Bool
  pub error_markers : List Text
  pub stdout_bytes : ℕ
  pub stderr_bytes : ℕ

-- `results`, `run_stats`, the two lists of `trace_observability`, and `NGINX_CMD[0]`.
pub record Book (F : Floats) : Type 0 where
  pub results : TestName → List F.Float
  pub run_stats : TestName → Stats
  pub kernel_traces : List Summary
  pub bpftime_traces : List Summary
  pub nginx_program : Text

abbrev pub same : TestName → TestName → Bool
same baseline baseline = true
same kernel_sslsniff kernel_sslsniff = true
same bpftime_sslsniff bpftime_sslsniff = true
same _ _ = false

-- `d[t] = v` for a dict whose keys are the three names.
abbrev pub update {ℓ} : {V : Type ℓ} → (TestName → V) → TestName → V → TestName → V
update d t v u = if same t u then v else d u

abbrev no_stats : ℕ → Option ℕ → Option ℕ → Option ℕ → Stats
no_stats target readiness attach retry = record {
  target_runs = target;
  valid_runs = 0;
  failed_attempts = 0;
  timeouts = 0;
  parse_failures = 0;
  wrk_failures = 0;
  exceptions = 0;
  readiness_failures = readiness;
  attach_failures = attach;
  retry_attempts = retry;
}

unfoldable pub initial_stats : ℕ → TestName → Stats
initial_stats n baseline = no_stats n none none none
initial_stats n kernel_sslsniff = no_stats n none (some 0) none
initial_stats n bpftime_sslsniff = no_stats n (some 0) (some 0) (some 0)

unfoldable pub initial_book : (F : Floats) → Config → Book F
unfolding initial_stats
initial_book F c = record {
  results = λ t. [];
  run_stats = initial_stats c.num_runs;
  kernel_traces = [];
  bpftime_traces = [];
  nginx_program = codes "nginx";
}

-- `if reason in stats: stats[reason] += 1`.
abbrev bump_present : Option ℕ → Option ℕ
bump_present none = none
bump_present (some n) = some (n + 1)

unfoldable pub bump : Reason → Stats → Stats
bump timeouts s = record s { timeouts = s.timeouts + 1 }
bump parse_failures s = record s { parse_failures = s.parse_failures + 1 }
bump wrk_failures s = record s { wrk_failures = s.wrk_failures + 1 }
bump readiness_failures s = record s { readiness_failures = bump_present s.readiness_failures }
bump attach_failures s = record s { attach_failures = bump_present s.attach_failures }
bump exceptions s = record s { exceptions = s.exceptions + 1 }

unfoldable pub add_valid : Stats → Stats
add_valid s = record s { valid_runs = s.valid_runs + 1 }

unfoldable pub add_failed : Reason → Stats → Stats
unfolding bump
add_failed r s = bump r (record s { failed_attempts = s.failed_attempts + 1 })

unfoldable pub add_retry : Stats → Stats
add_retry s = record s { retry_attempts = bump_present s.retry_attempts }

module _ {F : Floats} where
  abbrev pub set_stats : TestName → (Stats → Stats) → Book F → Book F
  set_stats t f b = record b { run_stats = update b.run_stats t (f (b.run_stats t)) }

  abbrev pub push_result : TestName → F.Float → Book F → Book F
  push_result t x b = record b { results = update b.results t (b.results t ++ x ∷ []) }

module _ {F : Floats} {W : World} where
  -- `results[t].append(x)`. Here and in the marks no signal comes between two statements: with the
  -- handler of SIGINT and SIGTERM, which exits with 0, left out, nothing in them raises.
  unfoldable pub append_result : TestName → F.Float → Exec (Run (Book F) W) (Unit {0})
  append_result t x = modify (push_result {F = F} t x)

  unfoldable pub mark_valid : TestName → Exec (Run (Book F) W) (Unit {0})
  unfolding add_valid
  mark_valid t = modify (set_stats t add_valid)

  -- Both counters are raised as one step.
  unfoldable pub mark_failed : TestName → Reason → Exec (Run (Book F) W) (Unit {0})
  unfolding add_failed
  mark_failed t r = modify (set_stats t (add_failed r))

  unfoldable pub mark_retry : TestName → Exec (Run (Book F) W) (Unit {0})
  unfolding add_retry
  mark_retry t = modify (set_stats t add_retry)
