-- ===== src/SslNginx/Main.antt =====
-- `main`: the checks, the phases in the order asked for, and the exit status.
use bpftime_benchmark.Prelude.{
  ℕ, ltb, not, ◌&&◌, ◌||◌, Bool, false, Option, none, some, List, [], ◌∷◌, ◌++◌, map, keep,
  if◌then◌else◌,
}
use bpftime_benchmark.Text.Base.{Text, codes, text_eq}
use bpftime_benchmark.Text.Lines.{strip, split}
use bpftime_benchmark.Text.Paths.{dirname, basename}
use bpftime_benchmark.Python.Exec.{
  Exec, Exn, timeout_expired, error, keyboard_interrupt, system_exit, Result, ok, raised, pure,
  raise, gets, try_except, try_finally, ◌>>=◌, ◌>>◌,
}
use bpftime_benchmark.Python.World.{World}
use bpftime_benchmark.Python.Run.{Run, io, modify}
use bpftime_benchmark.Python.Floats.{Floats}
use bpftime_benchmark.SslNginx.Book.{
  Config, TestName, baseline, kernel_sslsniff, bpftime_sslsniff, Stats, Book, same,
}
use bpftime_benchmark.SslNginx.Trace.{nonempty}
use bpftime_benchmark.SslNginx.Process.{check_file_exists, check_command_exists, cleanup_processes}
use bpftime_benchmark.SslNginx.Phase.{nginx_conf, sslsniff_path, run_baseline, run_kernel_sslsniff}
use bpftime_benchmark.SslNginx.Bpftime.{agent_path, syscall_server_path, run_bpftime_sslsniff}

-- `BENCH_ORDER`, from the value of its environment variable.
unfoldable pub bench_order_of : Text → List Text
unfolding keep
bench_order_of value = keep nonempty (map strip (split b',' value))

-- `BENCH_RESULT_KEYS`, whose keys are those of `bench_runners` too.
unfoldable pub result_key : Text → Option TestName
result_key name =
    if text_eq name (codes "baseline")
    then some baseline
    else if text_eq name (codes "kernel") || text_eq name (codes "kernel_sslsniff")
    then some kernel_sslsniff
    else if text_eq name (codes "bpftime") || text_eq name (codes "bpftime_sslsniff")
    then some bpftime_sslsniff
    else none

abbrev pub is_key : TestName → Option TestName → Bool
is_key t none = false
is_key t (some u) = same t u

-- `t in ACTIVE_RESULT_KEYS`.
unfoldable pub is_active : List Text → TestName → Bool
unfolding result_key
is_active [] t = false
is_active (name ∷ names) t = is_key t (result_key name) || is_active names t

-- `stats["valid_runs"] < stats["target_runs"]`, for an active test.
unfoldable pub falls_short : List Text → (TestName → Stats) → TestName → Bool
unfolding is_active
falls_short order stats t = ltb (stats t).valid_runs (stats t).target_runs && is_active order t

unfoldable pub benchmark_failed : List Text → (TestName → Stats) → Bool
unfolding falls_short
benchmark_failed order stats =
    falls_short order stats baseline
    || falls_short order stats kernel_sslsniff
    || falls_short order stats bpftime_sslsniff

-- With `--test` there is one run.
unfoldable pub effective : Bool → Config → Config
effective test c = if test then record c { num_runs = 1 } else c

abbrev pub set_target : ℕ → Stats → Stats
set_target n s = record s { target_runs = n }

unfoldable pub results_file : Text → Text
results_file stamp = codes "benchmark/ssl-nginx/benchmark_results_" ++ stamp ++ codes ".json"

module _ {F : Floats} {W : World} where
  unfoldable pub set_targets : ℕ → Exec (Run (Book F) W) (Unit {0})
  set_targets n = modify λ b. record b { run_stats = λ t. set_target n (b.run_stats t) }

  -- Where the script stands in ssl-nginx, the directory two above becomes the current one.
  unfoldable pub change_directory : Text → Exec (Run (Book F) W) (Unit {0})
  change_directory script = do
    full ← io W (W.abspath script)
    let script_dir = dirname full
    if text_eq (basename script_dir) (codes "ssl-nginx")
        then io W (W.chdir (dirname (dirname script_dir)))
        else pure tt

  unfoldable pub find_directory : Text → Exec (Run (Book F) W) (Unit {0})
  find_directory script = do
    here ← io W (W.exists nginx_conf)
    if here then pure tt else change_directory script

  unfoldable pub save_results : Exec (Run (Book F) W) (Unit {0})
  save_results = do stamp ← io W W.timestamp; io W (W.write_file (results_file stamp))

module _ {F : Floats} {W : World} (c : Config) where
  abbrev pub run_phase : TestName → Exec (Run (Book F) W) (Unit {0})
  run_phase baseline = run_baseline c
  run_phase kernel_sslsniff = run_kernel_sslsniff c
  run_phase bpftime_sslsniff = run_bpftime_sslsniff c

  abbrev pub run_named : Option TestName → Exec (Run (Book F) W) (Unit {0})
  run_named none = raise (system_exit 1)
  run_named (some t) = run_phase t

  unfoldable pub run_benchmarks : List Text → Exec (Run (Book F) W) (Unit {0})
  run_benchmarks [] = pure tt
  run_benchmarks (name ∷ names) =
      let rest = run_benchmarks names in run_named (result_key name) >> rest

  unfoldable pub judge : Exec (Run (Book F) W) (Unit {0})
  judge = do
    stats ← gets (λ s. s.book.run_stats)
    if benchmark_failed c.bench_order stats then raise (system_exit 1) else pure tt

  -- From the first benchmark to the end of the body.
  unfoldable pub measure : Exec (Run (Book F) W) (Unit {0})
  measure = do run_benchmarks c.bench_order; save_results; judge

  unfoldable pub check_then_measure : Text → Exec (Run (Book F) W) (Unit {0})
  check_then_measure script = do
    find_directory script
    check_file_exists agent_path
    check_file_exists syscall_server_path
    check_file_exists sslsniff_path
    found ← io W (W.exists nginx_conf)
    if not found then pure tt else do
      wrk_found ← check_command_exists (codes "wrk")
      if wrk_found then measure else pure tt

  -- The body of the `try`.
  unfoldable pub main_body : Text → Exec (Run (Book F) W) (Unit {0})
  main_body script = do
    set_targets c.num_runs
    nginx_installed ← check_command_exists (codes "nginx")
    if nginx_installed then check_then_measure script else pure tt

module _ {F : Floats} {W : World} where
  -- An interrupt ends the script with 130, and any other exception is printed and dropped.
  unfoldable pub main_raised : Exn → Exec (Run (Book F) W) (Unit {0})
  main_raised keyboard_interrupt = raise (system_exit 130)
  main_raised (timeout_expired e) = pure tt
  main_raised (error e) = pure tt
  main_raised (system_exit n) = raise (system_exit n)

  unfoldable pub main : Bool → Text → Config → Exec (Run (Book F) W) (Unit {0})
  main test script c =
      try_finally (try_except (main_body (effective test c) script) main_raised) cleanup_processes

-- The status that the interpreter ends with.
unfoldable pub exit_status : {A : Type 0} → Result A → ℕ
exit_status (ok a) = 0
exit_status (raised (system_exit n)) = n
exit_status (raised keyboard_interrupt) = 130
exit_status (raised e) = 1
