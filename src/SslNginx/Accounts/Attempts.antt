-- ===== src/SslNginx/Accounts/Attempts.antt =====
-- `run_bpftime_sslsniff` keeps what the marks of its test keep.
use bpftime_benchmark.Prelude.{
  ℕ, zero, suc, not, refl, Bool, true, false, Option, none, some, ◌⊎◌, inl, inr,
}
use bpftime_benchmark.Text.Base.{Text}
use bpftime_benchmark.Python.Exec.{Exn}
use bpftime_benchmark.Python.World.{World, Proc, Status}
use bpftime_benchmark.Python.Rules.Keeps.{
  Keeps, Keeps-io, Keeps-if, Keeps-bind, Keeps-pure, Keeps-finally, Keeps-on_timeout, keeps_rules,
}
use bpftime_benchmark.Python.Floats.{Floats}
use bpftime_benchmark.SslNginx.Book.{
  Config, bpftime_sslsniff, timeouts, readiness_failures, attach_failures, exceptions, Summary,
  Book,
}
use bpftime_benchmark.SslNginx.Trace.{trace_is_effective, mark_trace_preflight_failed}
use bpftime_benchmark.SslNginx.Bpftime.{
  attempt_raised, preflight_judged, preflight_ready, preflight_serving, preflight_nginx,
  preflight_exited, preflight_polled, preflight_started, bpftime_preflight, attempt_ready,
  attempt_serving, attempt_nginx, attempt_polled, attempt_started, note_retry, bpftime_attempt,
  bpftime_run, bpftime_runs, bpftime_found, run_bpftime_sslsniff,
}
use bpftime_benchmark.SslNginx.Accounts.Silent.{
  attempt-Quiet, remove_access_log-Quiet, cleanup_processes-Quiet, terminate_process-Quiet,
  summarize-Quiet, wait_for_nginx_ready-Quiet, preflight_cleanup-Quiet, attempt_cleanup-Quiet,
  required_files-Quiet,
}
use bpftime_benchmark.SslNginx.Accounts.Phases.{Ledger, score-Keeps}

module _ {F : Floats} {W : World} (P : Book F → Type 0) (l : Ledger W bpftime_sslsniff P)
    (c : Config) (conf : Text) where
  preflight_judged-Keeps : (x : Summary) → Keeps P (preflight_judged {F = F} {W = W} c conf x)
  unfolding preflight_judged mark_trace_preflight_failed
  preflight_judged-Keeps x =
      Keeps-if (not (trace_is_effective x)) _ _
        (Keeps-bind _ _ (l.failed attach_failures refl) (λ _. Keeps-pure false)) (Keeps-pure true)

  preflight_ready-Keeps :
      (p : Proc) (b : Bool) → Keeps P (preflight_ready {F = F} {W = W} c conf p b)
  unfolding preflight_ready
  preflight_ready-Keeps p false = search (keeps_rules, l.failed readiness_failures refl)
  preflight_ready-Keeps p true =
      search
        (
          keeps_rules,
          terminate_process-Quiet P l.sees,
          summarize-Quiet P l.sees,
          preflight_judged-Keeps,
        )
        depth 12

  preflight_serving-Keeps : (p n : Proc) → Keeps P (preflight_serving {F = F} {W = W} c conf p n)
  unfolding preflight_serving
  preflight_serving-Keeps p n =
      search (keeps_rules, wait_for_nginx_ready-Quiet P l.sees, preflight_ready-Keeps) depth 8

  preflight_nginx-Keeps :
      (p : Proc) (r : Exn ⊎ Proc) → Keeps P (preflight_nginx {F = F} {W = W} c conf p r)
  unfolding preflight_nginx
  preflight_nginx-Keeps p (inl e) = search (keeps_rules, preflight_cleanup-Quiet P l.sees)
  preflight_nginx-Keeps p (inr n) =
      search (keeps_rules, preflight_cleanup-Quiet P l.sees, preflight_serving-Keeps)

  preflight_exited-Keeps : (p : Proc) → Keeps P (preflight_exited {F = F} {W = W} c conf p)
  unfolding preflight_exited mark_trace_preflight_failed
  preflight_exited-Keeps p = Keeps-bind _ _ (Keeps-io _) (λ texts.
      Keeps-bind _ _ (Keeps-io _) (λ code.
        Keeps-bind _ _ (summarize-Quiet P l.sees _ texts code)
          (λ _. Keeps-bind _ _ (l.failed attach_failures refl) (λ _. Keeps-pure false))))

  preflight_polled-Keeps :
      (p : Proc) (r : Exn ⊎ Option Status) → Keeps P (preflight_polled {F = F} {W = W} c conf p r)
  unfolding preflight_polled
  preflight_polled-Keeps p (inl e) = search (keeps_rules, preflight_cleanup-Quiet P l.sees)
  preflight_polled-Keeps p (inr (some x)) =
      search (keeps_rules, preflight_cleanup-Quiet P l.sees, preflight_exited-Keeps)
  preflight_polled-Keeps p (inr none) =
      search (keeps_rules, attempt-Quiet P l.sees, preflight_nginx-Keeps)

  preflight_started-Keeps : (r : Exn ⊎ Proc) → Keeps P (preflight_started {F = F} {W = W} c conf r)
  unfolding preflight_started
  preflight_started-Keeps (inl e) = search (keeps_rules, preflight_cleanup-Quiet P l.sees)
  preflight_started-Keeps (inr p) =
      search (keeps_rules, attempt-Quiet P l.sees, preflight_polled-Keeps) depth 8

  bpftime_preflight-Keeps : Keeps P (bpftime_preflight {F = F} {W = W} c conf)
  unfolding bpftime_preflight
  bpftime_preflight-Keeps = search (keeps_rules, attempt-Quiet P l.sees, preflight_started-Keeps)

  attempt_raised-Keeps : (e : Exn) → Keeps P (attempt_raised {F = F} {W = W} e)
  unfolding attempt_raised
  attempt_raised-Keeps e =
      Keeps-on_timeout _ _ e (Keeps-bind _ _ (l.failed timeouts refl) (λ _. Keeps-pure false))
        (Keeps-bind _ _ (l.failed exceptions refl) (λ _. Keeps-pure false))

  attempt_ready-Keeps : (b : Bool) → Keeps P (attempt_ready {F = F} {W = W} c conf b)
  unfolding attempt_ready
  attempt_ready-Keeps false = search (keeps_rules, l.failed readiness_failures refl)
  attempt_ready-Keeps true = search (keeps_rules, score-Keeps P bpftime_sslsniff l)

  attempt_serving-Keeps : (n : Proc) → Keeps P (attempt_serving {F = F} {W = W} c conf n)
  unfolding attempt_serving
  attempt_serving-Keeps n =
      search (keeps_rules, wait_for_nginx_ready-Quiet P l.sees, attempt_ready-Keeps) depth 8

  attempt_nginx-Keeps :
      (p : Proc) (r : Exn ⊎ Proc) → Keeps P (attempt_nginx {F = F} {W = W} c conf p r)
  unfolding attempt_nginx
  attempt_nginx-Keeps p (inl e) =
      search (keeps_rules, attempt_cleanup-Quiet P l.sees, attempt_raised-Keeps)
  attempt_nginx-Keeps p (inr n) =
      search
        (keeps_rules, attempt_cleanup-Quiet P l.sees, attempt_serving-Keeps, attempt_raised-Keeps)

  attempt_polled-Keeps :
      (p : Proc) (r : Exn ⊎ Option Status) → Keeps P (attempt_polled {F = F} {W = W} c conf p r)
  unfolding attempt_polled
  attempt_polled-Keeps p (inl e) =
      search (keeps_rules, attempt_cleanup-Quiet P l.sees, attempt_raised-Keeps)
  attempt_polled-Keeps p (inr (some x)) =
      Keeps-finally _ _ (Keeps-bind _ _ (l.failed attach_failures refl) (λ _. Keeps-pure false))
        (attempt_cleanup-Quiet P l.sees none (some p))
  attempt_polled-Keeps p (inr none) =
      search (keeps_rules, attempt-Quiet P l.sees, attempt_nginx-Keeps)

  attempt_started-Keeps : (r : Exn ⊎ Proc) → Keeps P (attempt_started {F = F} {W = W} c conf r)
  unfolding attempt_started
  attempt_started-Keeps (inl e) =
      search (keeps_rules, attempt_cleanup-Quiet P l.sees, attempt_raised-Keeps)
  attempt_started-Keeps (inr p) =
      search (keeps_rules, attempt-Quiet P l.sees, attempt_polled-Keeps) depth 8

  note_retry-Keeps : (k : ℕ) → Keeps P (note_retry {F = F} {W = W} k)
  note_retry-Keeps zero = Keeps-pure tt
  note_retry-Keeps (suc k) = l.retry

  bpftime_attempt-Keeps : (k : ℕ) → Keeps P (bpftime_attempt {F = F} {W = W} c conf k)
  unfolding bpftime_attempt
  bpftime_attempt-Keeps k =
      search (keeps_rules, attempt-Quiet P l.sees, note_retry-Keeps, attempt_started-Keeps) depth 8

  bpftime_run-Keeps : Keeps P (bpftime_run {F = F} {W = W} c conf)
  unfolding bpftime_run
  bpftime_run-Keeps = search (keeps_rules, bpftime_attempt-Keeps)

  bpftime_runs-Keeps : (b : Bool) → Keeps P (bpftime_runs {F = F} {W = W} c conf b)
  unfolding bpftime_runs
  bpftime_runs-Keeps false = search keeps_rules
  bpftime_runs-Keeps true = search (keeps_rules, bpftime_run-Keeps)

module _ {F : Floats} {W : World} (P : Book F → Type 0) (l : Ledger W bpftime_sslsniff P)
    (c : Config) where
  bpftime_found-Keeps : (b : Bool) → Keeps P (bpftime_found {F = F} {W = W} c b)
  unfolding bpftime_found
  bpftime_found-Keeps false = search keeps_rules
  bpftime_found-Keeps true =
      search (keeps_rules, bpftime_preflight-Keeps P l c, bpftime_runs-Keeps P l c) depth 10

  pub run_bpftime_sslsniff-Keeps : Keeps P (run_bpftime_sslsniff {F = F} {W = W} c)
  unfolding run_bpftime_sslsniff
  run_bpftime_sslsniff-Keeps =
      search
        (
          keeps_rules,
          cleanup_processes-Quiet P l.sees,
          remove_access_log-Quiet P l.sees,
          required_files-Quiet P l.sees,
          bpftime_found-Keeps,
        )
        depth 10
