-- ===== src/SslNginx/Accounts/Phases.antt =====
-- The phases of benchmark/ssl-nginx/benchmark.py write to `results` and `run_stats` only through
-- the marks of their own test, so that what these marks keep, the phases keep.
use bpftime_benchmark.Prelude.{not, ◌≡◌, refl, true, false, Option, none, some, ◌⊎◌, inl, inr}
use bpftime_benchmark.Python.Exec.{Exec, Exn, pure, ◌>>◌}
use bpftime_benchmark.Python.World.{World, Proc, Status, Completed, failed}
use bpftime_benchmark.Python.Run.{Run}
use bpftime_benchmark.Python.Rules.Keeps.{
  Keeps, Keeps-io, Keeps-if, Keeps-bind, Keeps-pure, Keeps-repeat, keeps_rules,
}
use bpftime_benchmark.Python.Floats.{Floats}
use bpftime_benchmark.SslNginx.Book.{
  Config, TestName, baseline, kernel_sslsniff, bpftime_sslsniff, Reason, timeouts, parse_failures,
  wrk_failures, attach_failures, exceptions, Summary, Book, append_result, mark_valid, mark_failed,
  mark_retry,
}
use bpftime_benchmark.SslNginx.Trace.{trace_is_effective, mark_trace_preflight_failed}
use bpftime_benchmark.SslNginx.Process.{score_parsed, score}
use bpftime_benchmark.SslNginx.Phase.{
  round_raised, phase_started, nginx_phase, baseline_round, baseline_polled, baseline_body,
  run_baseline, kernel_polled, kernel_traced, kernel_started, kernel_round, kernel_preflighted,
  kernel_ready, kernel_body, run_kernel_sslsniff,
}
use bpftime_benchmark.SslNginx.Accounts.Invariant.{counts_reason}
use bpftime_benchmark.SslNginx.Accounts.Silent.{
  SeesAccounts, attempt-Quiet, remove_access_log-Quiet, check_file_exists-Quiet,
  check_command_exists-Quiet, cleanup_processes-Quiet, collect_trace_preflight-Quiet,
  stop_nginx-Quiet, kernel_cleanup-Quiet,
}

-- What the marks of the test `t` keep.
pub record Ledger {F : Floats} (W : World) (t : TestName) (P : Book F → Type 0) : Type 0 where
  pub sees : SeesAccounts P
  pub failed : (r : Reason) → counts_reason t r ≡ true → Keeps {W = W} P (mark_failed t r)
  pub valid :
      (x : F.Float) → Keeps {W = W} P (append_result {F = F} t x >> (mark_valid t >> pure true))
  pub retry : Keeps {W = W} P (mark_retry t)

-- These reasons every test has.
counts_timeouts : (t : TestName) → counts_reason t timeouts ≡ true
counts_timeouts baseline = refl
counts_timeouts kernel_sslsniff = refl
counts_timeouts bpftime_sslsniff = refl

counts_parse_failures : (t : TestName) → counts_reason t parse_failures ≡ true
counts_parse_failures baseline = refl
counts_parse_failures kernel_sslsniff = refl
counts_parse_failures bpftime_sslsniff = refl

counts_wrk_failures : (t : TestName) → counts_reason t wrk_failures ≡ true
counts_wrk_failures baseline = refl
counts_wrk_failures kernel_sslsniff = refl
counts_wrk_failures bpftime_sslsniff = refl

counts_exceptions : (t : TestName) → counts_reason t exceptions ≡ true
counts_exceptions baseline = refl
counts_exceptions kernel_sslsniff = refl
counts_exceptions bpftime_sslsniff = refl

module _ {F : Floats} {W : World} (P : Book F → Type 0) (t : TestName) (l : Ledger W t P) where
  score_parsed-Keeps : (x : Option F.Float) → Keeps P (score_parsed {F = F} {W = W} t x)
  unfolding score_parsed
  score_parsed-Keeps none = search (keeps_rules, l.failed parse_failures (counts_parse_failures t))
  score_parsed-Keeps (some x) =
      Keeps-if (F.truthy x) _ _ (l.valid x)
        (Keeps-bind _ _ (l.failed parse_failures (counts_parse_failures t)) (λ _. Keeps-pure false))

  pub score-Keeps : (r : Completed) → Keeps P (score {W = W} t r)
  unfolding score
  score-Keeps r =
      Keeps-if (failed r.returncode) _ _
        (Keeps-bind _ _ (l.failed wrk_failures (counts_wrk_failures t)) (λ _. Keeps-pure false))
        (score_parsed-Keeps _)

  round_raised-Keeps : (e : Exn) → Keeps P (round_raised {W = W} t e)
  unfolding round_raised
  round_raised-Keeps e = search (
    keeps_rules,
    l.failed timeouts (counts_timeouts t),
    l.failed exceptions (counts_exceptions t),
  )

module _ {F : Floats} {W : World} (P : Book F → Type 0) (sees : SeesAccounts P) where
  phase_started-Keeps :
      (body : Proc → Exec (Run (Book F) W) (Unit {0})) (r : Exn ⊎ Proc)
      → ((p : Proc) → Keeps P (body p))
      → Keeps P (phase_started body r)
  unfolding phase_started
  phase_started-Keeps body (inl e) k = search keeps_rules
  phase_started-Keeps body (inr p) k = search (keeps_rules, k, stop_nginx-Quiet P sees)

  nginx_phase-Keeps :
      (body : Proc → Exec (Run (Book F) W) (Unit {0}))
      → ((p : Proc) → Keeps P (body p))
      → Keeps P (nginx_phase body)
  unfolding nginx_phase
  nginx_phase-Keeps body k =
      search (keeps_rules, attempt-Quiet P sees, phase_started-Keeps body, k) depth 10

module _ {F : Floats} {W : World} (P : Book F → Type 0) (l : Ledger W baseline P) (c : Config) where
  baseline_round-Keeps : Keeps P (baseline_round {F = F} {W = W} c)
  unfolding baseline_round
  baseline_round-Keeps =
      search (keeps_rules, score-Keeps P baseline l, round_raised-Keeps P baseline l)

  baseline_polled-Keeps :
      (p : Proc) (e : Option Status) → Keeps P (baseline_polled {F = F} {W = W} c p e)
  unfolding baseline_polled
  baseline_polled-Keeps p (some x) = search keeps_rules
  baseline_polled-Keeps p none = search (keeps_rules, baseline_round-Keeps) depth 10

  baseline_body-Keeps : (p : Proc) → Keeps P (baseline_body {F = F} {W = W} c p)
  unfolding baseline_body
  baseline_body-Keeps p = search (keeps_rules, baseline_polled-Keeps)

  pub run_baseline-Keeps : Keeps P (run_baseline {F = F} {W = W} c)
  unfolding run_baseline
  run_baseline-Keeps =
      search
        (
          keeps_rules,
          cleanup_processes-Quiet P l.sees,
          remove_access_log-Quiet P l.sees,
          check_command_exists-Quiet P l.sees,
          nginx_phase-Keeps P l.sees,
          baseline_body-Keeps,
        )
        depth 12

module _ {F : Floats} {W : World} (P : Book F → Type 0) (l : Ledger W kernel_sslsniff P)
    (c : Config) where
  kernel_polled-Keeps : (e : Option Status) → Keeps P (kernel_polled {F = F} {W = W} c e)
  unfolding kernel_polled
  kernel_polled-Keeps (some x) = l.failed attach_failures refl
  kernel_polled-Keeps none = search (keeps_rules, score-Keeps P kernel_sslsniff l)

  kernel_traced-Keeps : (p : Proc) → Keeps P (kernel_traced {F = F} {W = W} c p)
  unfolding kernel_traced
  kernel_traced-Keeps p = search (keeps_rules, kernel_polled-Keeps)

  kernel_started-Keeps : (r : Exn ⊎ Proc) → Keeps P (kernel_started {F = F} {W = W} c r)
  unfolding kernel_started
  kernel_started-Keeps (inl e) =
      search (keeps_rules, round_raised-Keeps P kernel_sslsniff l, kernel_cleanup-Quiet P l.sees)
  kernel_started-Keeps (inr p) = search (
    keeps_rules,
    kernel_traced-Keeps,
    round_raised-Keeps P kernel_sslsniff l,
    kernel_cleanup-Quiet P l.sees,
  )

  kernel_round-Keeps : Keeps P (kernel_round {F = F} {W = W} c)
  unfolding kernel_round
  kernel_round-Keeps = search (keeps_rules, attempt-Quiet P l.sees, kernel_started-Keeps)

  kernel_preflighted-Keeps : (x : Summary) → Keeps P (kernel_preflighted {F = F} {W = W} c x)
  unfolding kernel_preflighted mark_trace_preflight_failed
  kernel_preflighted-Keeps x = Keeps-bind _ _ (Keeps-io _) (λ _.
      Keeps-if (not (trace_is_effective x)) _ _ (l.failed attach_failures refl)
        (Keeps-repeat _ _ _ (λ i. kernel_round-Keeps)))

  kernel_ready-Keeps : (p : Proc) (e : Option Status) → Keeps P (kernel_ready {F = F} {W = W} c p e)
  unfolding kernel_ready
  kernel_ready-Keeps p (some x) = search keeps_rules
  kernel_ready-Keeps p none =
      search (keeps_rules, collect_trace_preflight-Quiet P l.sees, kernel_preflighted-Keeps) depth 8

  kernel_body-Keeps : (p : Proc) → Keeps P (kernel_body {F = F} {W = W} c p)
  unfolding kernel_body
  kernel_body-Keeps p = search (keeps_rules, kernel_ready-Keeps)

  pub run_kernel_sslsniff-Keeps : Keeps P (run_kernel_sslsniff {F = F} {W = W} c)
  unfolding run_kernel_sslsniff
  run_kernel_sslsniff-Keeps =
      search
        (
          keeps_rules,
          cleanup_processes-Quiet P l.sees,
          remove_access_log-Quiet P l.sees,
          check_file_exists-Quiet P l.sees,
          nginx_phase-Keeps P l.sees,
          kernel_body-Keeps,
        )
        depth 12
