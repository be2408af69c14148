-- ===== src/Tests/Bench.antt =====
-- benchmark/ssl-nginx/benchmark.py on the stage.
use bpftime_benchmark.Prelude.{
  ℕ, ◌≡◌, ◌≢◌, refl, false, not, ◌&&◌, ◌||◌, none, some, [], if◌then◌else◌,
}
use mathlib.Core.List.{cons-ne-nil}
use bpftime_benchmark.Text.Base.{codes, contains}
use bpftime_benchmark.Text.Lines.{splitlines}
use bpftime_benchmark.Text.Scan.{Decimal}
use bpftime_benchmark.Text.Scan.Shape.{Reads}
use bpftime_benchmark.Python.Exec.{ok}
use bpftime_benchmark.Python.World.{exited}
use bpftime_benchmark.Python.Run.{Run}
use bpftime_benchmark.Python.Rules.Adds.{Grew}
use bpftime_benchmark.Python.Rules.Wins.{Won}
use bpftime_benchmark.Python.Rules.AtMost.{Between}
use bpftime_benchmark.SslNginx.Book.{
  Book, baseline, kernel_sslsniff, bpftime_sslsniff, initial_book,
}
use bpftime_benchmark.SslNginx.Trace.{
  attach_marker_texts, error_marker_texts, event_prefixes, starts_with_any, failed_summary,
  summarize_trace_output, trace_is_effective,
}
use bpftime_benchmark.SslNginx.Process.{requests_label, parse_wrk_output}
use bpftime_benchmark.SslNginx.Ready.{ready_fuel, ready_rounds}
use bpftime_benchmark.SslNginx.Ready.Timely.{ready_rounds_end}
use bpftime_benchmark.SslNginx.Phase.{baseline_polled, kernel_preflighted}
use bpftime_benchmark.SslNginx.Bpftime.{bpftime_attempt, bpftime_run}
use bpftime_benchmark.SslNginx.Main.{main, run_phase}
use bpftime_benchmark.SslNginx.Accounts.Invariant.{IsConsistent}
use bpftime_benchmark.SslNginx.Accounts.Count.{recorded}
use bpftime_benchmark.SslNginx.Accounts.Breaks.{valid}
use bpftime_benchmark.SslNginx.Accounts.Rounds.{Fruitless}
use bpftime_benchmark.SslNginx.Accounts.Consistent.{main-IsConsistent}
use bpftime_benchmark.SslNginx.Accounts.Preflighted.{phase_bound, run_phase_bound}
use bpftime_benchmark.SslNginx.Guarantees.{
  run_phase_frame, baseline_polled-records, kernel_preflighted-records, bpftime_attempt-records,
  bpftime_run-wins,
}
use bpftime_benchmark.SslNginx.Preflight.{
  any, trace_is_effective_lem, parse_wrk_output_sound, parse_wrk_output_complete,
}
use bpftime_benchmark.Tests.Stage.{decimals, stage, stage-IsTimely, config, wrk_report, reported}

abbrev start : Run (Book decimals) stage
start = record { book = initial_book decimals config; world = 0 }

main-IsConsistent_example :
    IsConsistent {F = decimals}
      (main {F = decimals} {W = stage} false (codes "benchmark.py") config start).1.book
main-IsConsistent_example = main-IsConsistent decimals stage false (codes "benchmark.py") config 0

run_phase_frame_example :
    let b = (run_phase config baseline start).1.book in
    (b.results kernel_sslsniff ≡ start.book.results kernel_sslsniff)
    × (b.run_stats kernel_sslsniff ≡ start.book.run_stats kernel_sslsniff)
run_phase_frame_example = run_phase_frame decimals stage config baseline kernel_sslsniff refl start

run_phase_bound_example :
    Between
      (recorded bpftime_sslsniff start.book)
      (phase_bound config bpftime_sslsniff)
      (recorded bpftime_sslsniff (run_phase config bpftime_sslsniff start).1.book)
run_phase_bound_example = run_phase_bound decimals stage config bpftime_sslsniff start

baseline_polled-records_example :
    let (r, s') = baseline_polled config 1 none start in
    Grew (recorded baseline start.book) 1 1 r (recorded baseline s'.book)
baseline_polled-records_example = baseline_polled-records decimals stage config 1 start

kernel_preflighted-records_example :
    let x = failed_summary none (codes "no events") in
    let n : ℕ = if trace_is_effective x then 1 else 1 in
    let (r, s') = kernel_preflighted config x start in
    (Grew (recorded kernel_sslsniff start.book) n n r (recorded kernel_sslsniff s'.book))
    × Fruitless (trace_is_effective x) start.book s'.book
kernel_preflighted-records_example =
    kernel_preflighted-records decimals stage config (failed_summary none (codes "no events")) start

bpftime_attempt-records_example :
    let (r, s') = bpftime_attempt config (codes "/nginx.conf") 0 start in
    Grew (recorded bpftime_sslsniff start.book) 1 1 r (recorded bpftime_sslsniff s'.book)
bpftime_attempt-records_example =
    bpftime_attempt-records decimals stage config (codes "/nginx.conf") 0 start

bpftime_run-wins_example :
    let (r, s') = bpftime_run config (codes "/nginx.conf") start in
    Won (valid start.book) 1 r (valid s'.book)
bpftime_run-wins_example = bpftime_run-wins decimals stage config (codes "/nginx.conf") start

ready_rounds_end_example :
    (ready_rounds {F = decimals} {W = stage} (ready_fuel config) 1 2000 start).0 ≢ ok none
ready_rounds_end_example = ready_rounds_end decimals stage stage-IsTimely config 1 start

trace_is_effective_lem_example :
    trace_is_effective
      (summarize_trace_output (codes "OpenSSL path: a") (codes "Error: b") (some (exited 0)))
    ≡ (any (contains (codes "OpenSSL path: a")) attach_marker_texts
        && not (
            any
              (λ m. contains (codes "OpenSSL path: a") m || contains (codes "Error: b") m)
              error_marker_texts))
      && any (λ line. starts_with_any line event_prefixes) (splitlines (codes "OpenSSL path: a"))
trace_is_effective_lem_example =
    trace_is_effective_lem (codes "OpenSSL path: a") (codes "Error: b") (some (exited 0))

parses : parse_wrk_output decimals wrk_report ≡ some reported
unfolding parse_wrk_output
parses = refl

parse_wrk_output_sound_example : (d : Decimal) × (d ≡ reported) × Reads requests_label wrk_report d
parse_wrk_output_sound_example = parse_wrk_output_sound decimals wrk_report reported parses

parse_wrk_output_complete_example : parse_wrk_output decimals wrk_report ≢ none
unfolding requests_label
parse_wrk_output_complete_example = parse_wrk_output_complete decimals wrk_report reported (record {
  before = [];
  spaces = codes "  ";
  rest = [];
  shape = refl;
  spaces-ne-nil = cons-ne-nil _ _;
  whole-ne-nil = cons-ne-nil _ _;
  fraction-ne-nil = cons-ne-nil _ _;
  are_spaces = (refl, (refl, tt));
  are_digits = ((refl, (refl, tt)), (refl, (refl, tt)));
})
