-- ===== src/Tests/Stage.antt =====
-- A world to run the scripts in: every command succeeds, wrk reports 12.50 requests a second, and
-- the state is the clock.
use bpftime_benchmark.Prelude.{
  ℕ, ◌+◌, Bool, true, false, none, some, List, [], ◌∷◌, if◌then◌else◌, ◌||◌, not, ◌==◌, arith, refl,
}
use bpftime_benchmark.Text.Base.{Text, codes, text_eq}
use bpftime_benchmark.Text.Scan.{Decimal, decimal}
use bpftime_benchmark.Python.Exec.{ok, raised, error}
use bpftime_benchmark.Python.World.{World, exited}
use bpftime_benchmark.Python.Floats.{Floats}
use bpftime_benchmark.SslNginx.Book.{Config}
use bpftime_benchmark.SslNginx.Ready.Timely.{IsTimely}

abbrev has_nonzero : Text → Bool
has_nonzero [] = false
has_nonzero (d ∷ ds) = not (d == b'0') || has_nonzero ds

abbrev pub decimals : Floats
decimals = record {
  Float = Decimal;
  of_decimal = λ d. d;
  truthy = λ d. has_nonzero d.whole || has_nonzero d.fraction;
  of_text = decimal;
}

abbrev pub wrk_report : Text
wrk_report = codes "Requests/sec:  12.50"

abbrev pub reported : Decimal
reported = record { whole = codes "12"; fraction = codes "50" }

abbrev printed : List Text → Text
printed [] = []
printed (name ∷ args) = if text_eq name (codes "wrk") then wrk_report else []

abbrev pub stage : World
stage = record {
  State = ℕ;
  run = λ c w. (ok (record { returncode = exited 0; stdout = printed c.argv; stderr = [] }), w);
  popen = λ c w. (ok 1, w);
  poll = λ p w. (ok none, w);
  returncode = λ p w. (ok (some (exited 0)), w);
  communicate = λ p t w. (ok ([], []), w);
  terminate = λ p w. (ok tt, w);
  kill = λ p w. (ok tt, w);
  wait = λ p t w. (ok tt, w);
  time = λ w. (ok w, w);
  sleep = λ n w. (ok tt, w + n);
  abspath = λ p w. (ok p, w);
  exists = λ p w. (ok true, w);
  remove = λ p w. (ok tt, w);
  chdir = λ p w. (ok tt, w);
  write_file = λ p w. (ok tt, w);
  timestamp = λ w. (ok (codes "20260101_000000"), w);
  getpid = λ w. (ok 7, w);
  getppid = λ w. (ok 3, w);
  getpgid = λ w. (ok 7, w);
}

-- The same, but files cannot be looked for.
abbrev pub broken_stage : World
broken_stage = record stage { exists = λ p w. (raised (error (codes "stat")), w) }

abbrev pub stage-IsTimely : IsTimely stage
stage-IsTimely = record {
  clock = λ w. w;
  time_reads = λ w. refl;
  sleep_advances = λ n w. omega arith;
  poll_goes_on = λ p w. omega arith;
  run_goes_on = λ c w. omega arith;
}

abbrev pub config : Config
config = record {
  num_runs = 1;
  wrk_connections = codes "100";
  wrk_duration = codes "10";
  wrk_timeout = 15;
  bpftime_retries = 1;
  ready_timeout = 2;
  trace_check_timeout = 5;
  sslsniff_args = [];
  bench_order = codes "baseline" ∷ [];
}
