-- ===== src/Tests/Ends.antt =====
-- How `main` of benchmark/ssl-nginx/benchmark.py ends on the stage.
use bpftime_benchmark.Prelude.{◌≡◌, ◌≤◌, refl, true}
use bpftime_benchmark.Text.Base.{codes, text_eq}
use bpftime_benchmark.Text.Lines.{words, strip}
use bpftime_benchmark.Text.Paths.{dirname}
use bpftime_benchmark.Python.Exec.{
  ok, pure, raise, gets, try_except, on_exception, on_timeout, try_finally, attempt, repeat,
  for_each, ◌>>=◌,
}
use bpftime_benchmark.Python.Run.{Run, io, modify}
use bpftime_benchmark.SslNginx.Book.{Book, baseline, initial_book, mark_valid, append_result}
use bpftime_benchmark.SslNginx.Process.{
  remove_access_log, check_command_exists, pids_of, kill_nginx, kill_sslsniff, cleanup_processes,
  parse_wrk_output, score_parsed, score, which, pgrep,
}
use bpftime_benchmark.SslNginx.Phase.{
  wrk, nginx_argv, stop_nginx, round_raised, phase_started, nginx_phase, baseline_round,
  baseline_polled, baseline_body, run_baseline,
}
use bpftime_benchmark.SslNginx.Main.{
  result_key, is_active, benchmark_failed, effective, set_targets, find_directory, run_benchmarks,
  save_results, judge, measure, check_then_measure, main_body, main_raised, main, exit_status,
}
use bpftime_benchmark.SslNginx.Outcome.{PhasesRan, status_of, measure_ok, exit_status-main}
use bpftime_benchmark.Tests.Stage.{decimals, stage, broken_stage, config}

abbrev start : Run (Book decimals) stage
start = record { book = initial_book decimals config; world = 0 }

-- One baseline run that counts.
measured : (measure {F = decimals} {W = stage} config start).0 ≡ ok tt
unfolding measure run_benchmarks result_key save_results judge benchmark_failed initial_book
    run_baseline cleanup_processes pids_of pgrep words strip kill_nginx kill_sslsniff
    remove_access_log check_command_exists which nginx_phase nginx_argv dirname phase_started
    baseline_body baseline_polled baseline_round round_raised stop_nginx score score_parsed
    parse_wrk_output wrk mark_valid append_result pure raise gets try_except on_exception on_timeout
    try_finally attempt repeat for_each ◌>>=◌ io modify text_eq
measured = refl

active : is_active config.bench_order baseline ≡ true
unfolding is_active text_eq
active = refl

measure_ok_example :
    let s' = (measure {F = decimals} {W = stage} config start).1 in
    (s1 : Run (Book decimals) stage) × PhasesRan config config.bench_order start s1
    × (save_results s1 ≡ (ok tt, s'))
    × ((s'.book.run_stats baseline).target_runs ≤ (s'.book.run_stats baseline).valid_runs)
measure_ok_example = measure_ok decimals stage config start measured baseline active

abbrev broken_start : Run (Book decimals) broken_stage
broken_start = record { book = initial_book decimals config; world = 0 }

exit_status-main_example :
    let (r, s') =
      main_body {F = decimals} {W = broken_stage}
        (effective true config)
        (codes "b.py")
        broken_start in
    exit_status (main true (codes "b.py") config broken_start).0
    ≡ status_of r (cleanup_processes s').0
exit_status-main_example =
    exit_status-main decimals broken_stage true (codes "b.py") config broken_start

-- An error of the body does not show.
drops_error :
    exit_status (main {F = decimals} {W = broken_stage} true (codes "b.py") config broken_start).0
    ≡ 0
unfolding main main_body main_raised exit_status effective set_targets check_command_exists which
    check_then_measure find_directory pure try_except try_finally on_exception ◌>>=◌ io modify
    cleanup_processes pids_of pgrep words strip for_each text_eq
drops_error = refl
