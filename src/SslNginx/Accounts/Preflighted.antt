-- ===== src/SslNginx/Accounts/Preflighted.antt =====
-- The preflight of the bpftime phase records at most one failure; with the attempts this bounds the
-- whole phase.
use bpftime_benchmark.Prelude.{
  ℕ, not, ◌+◌, ◌*◌, Bool, true, false, Option, none, some, ◌⊎◌, inl, inr, arith,
}
use bpftime_benchmark.Text.Base.{Text}
use bpftime_benchmark.Python.Exec.{Exec, Exn, raise, try_finally}
use bpftime_benchmark.Python.World.{World, Proc, Status}
use bpftime_benchmark.Python.Run.{Run}
use bpftime_benchmark.Python.Rules.Keeps.{Keeps-io, Keeps-bind}
use bpftime_benchmark.Python.Rules.AtMost.{
  AtMost, AtMost-mono, AtMost-Adds, AtMost-return, AtMost-io, AtMost-if, AtMost-after,
  AtMost-before, AtMost-bind, AtMost-finally, AtMost-raise, AtMost-pure, Between,
}
use bpftime_benchmark.Python.Floats.{Floats}
use bpftime_benchmark.SslNginx.Book.{
  Config, TestName, baseline, kernel_sslsniff, bpftime_sslsniff, Reason, readiness_failures,
  attach_failures, Summary, Book, mark_failed,
}
use bpftime_benchmark.SslNginx.Trace.{trace_is_effective, mark_trace_preflight_failed}
use bpftime_benchmark.SslNginx.Bpftime.{
  preflight_cleanup, preflight_judged, preflight_ready, preflight_serving, preflight_nginx,
  preflight_exited, preflight_polled, preflight_started, bpftime_preflight, bpftime_found,
  run_bpftime_sslsniff,
}
use bpftime_benchmark.SslNginx.Main.{run_phase}
use bpftime_benchmark.SslNginx.Accounts.Silent.{
  attempt-Quiet, remove_access_log-Quiet, cleanup_processes-Quiet, terminate_process-Quiet,
  summarize-Quiet, wait_for_nginx_ready-Quiet, preflight_cleanup-Quiet, required_files-Quiet,
}
use bpftime_benchmark.SslNginx.Accounts.Count.{recorded, mark_failed-Adds}
use bpftime_benchmark.SslNginx.Accounts.Rounds.{
  Still, run_baseline-AtMost, run_kernel_sslsniff-AtMost,
}
use bpftime_benchmark.SslNginx.Accounts.Tries.{bpftime_runs-AtMost}

module _ {F : Floats} {W : World} where
  marked-One :
      (r : Reason)
      → AtMost
          (recorded {F = F} bpftime_sslsniff)
          1
          (mark_failed {F = F} {W = W} bpftime_sslsniff r)
  marked-One r = AtMost-Adds _ (mark_failed-Adds bpftime_sslsniff r) (omega arith) (omega arith)

  cleaned-One :
      (m : Exec (Run (Book F) W) Bool) (p q : Option Proc)
      → AtMost (recorded {F = F} bpftime_sslsniff) 1 m
      → AtMost (recorded {F = F} bpftime_sslsniff) 1 (try_finally m (preflight_cleanup p q))
  cleaned-One m p q h =
      AtMost-mono _
        (AtMost-finally m _ h
          (Still bpftime_sslsniff _ (λ P sees. preflight_cleanup-Quiet P sees p q)))
        (omega arith)

  raised-One : (e : Exn) → AtMost {A = Bool} {W = W} (recorded {F = F} bpftime_sslsniff) 1 (raise e)
  raised-One e = AtMost-mono _ (AtMost-raise e) (omega arith)

module _ {F : Floats} {W : World} (c : Config) (conf : Text) where
  judged-One :
      (x : Summary)
      → AtMost (recorded {F = F} bpftime_sslsniff) 1 (preflight_judged {F = F} {W = W} c conf x)
  unfolding preflight_judged mark_trace_preflight_failed
  judged-One x =
      AtMost-if (not (trace_is_effective x)) _ _
        (AtMost-before _ _ (marked-One attach_failures) (λ _. AtMost-pure false))
        (AtMost-return true)

  ready-One :
      (p : Proc) (b : Bool)
      → AtMost (recorded {F = F} bpftime_sslsniff) 1 (preflight_ready {F = F} {W = W} c conf p b)
  unfolding preflight_ready
  ready-One p false = AtMost-before _ _ (marked-One readiness_failures) (λ _. AtMost-pure false)
  ready-One p true = AtMost-after _ _ (AtMost-io _) (λ _.
      AtMost-after _ _
        (Still bpftime_sslsniff _ (λ P sees. terminate_process-Quiet P sees (some p)))
        (λ _. AtMost-after _ _ (AtMost-io _) (λ texts. AtMost-after _ _ (AtMost-io _) (λ code.
          AtMost-after _ _
            (Still bpftime_sslsniff _
              (λ P sees. summarize-Quiet P sees bpftime_sslsniff texts code))
            judged-One))))

  serving-One :
      (p n : Proc)
      → AtMost (recorded {F = F} bpftime_sslsniff) 1 (preflight_serving {F = F} {W = W} c conf p n)
  unfolding preflight_serving
  serving-One p n = AtMost-after _ _ (AtMost-io _) (λ _.
      AtMost-after _ _ (Still bpftime_sslsniff _ (λ P sees. wait_for_nginx_ready-Quiet P sees c n))
        (ready-One p))

  nginx-One :
      (p : Proc) (r : Exn ⊎ Proc)
      → AtMost (recorded {F = F} bpftime_sslsniff) 1 (preflight_nginx {F = F} {W = W} c conf p r)
  unfolding preflight_nginx
  nginx-One p (inl e) = cleaned-One _ none (some p) (raised-One e)
  nginx-One p (inr n) = cleaned-One _ (some n) (some p) (serving-One p n)

  exited-One :
      (p : Proc)
      → AtMost (recorded {F = F} bpftime_sslsniff) 1 (preflight_exited {F = F} {W = W} c conf p)
  unfolding preflight_exited mark_trace_preflight_failed
  exited-One p = AtMost-after _ _ (AtMost-io _) (λ texts. AtMost-after _ _ (AtMost-io _) (λ code.
      AtMost-after _ _
        (Still bpftime_sslsniff _ (λ P sees. summarize-Quiet P sees bpftime_sslsniff texts code))
        (λ _. AtMost-before _ _ (marked-One attach_failures) (λ _. AtMost-pure false))))

  polled-One :
      (p : Proc) (r : Exn ⊎ Option Status)
      → AtMost (recorded {F = F} bpftime_sslsniff) 1 (preflight_polled {F = F} {W = W} c conf p r)
  unfolding preflight_polled
  polled-One p (inl e) = cleaned-One _ none (some p) (raised-One e)
  polled-One p (inr (some x)) = cleaned-One _ none (some p) (exited-One p)
  polled-One p (inr none) =
      AtMost-after _ _ (Still bpftime_sslsniff _ (λ P sees. attempt-Quiet P sees _ (Keeps-io _)))
        (nginx-One p)

  started-One :
      (r : Exn ⊎ Proc)
      → AtMost (recorded {F = F} bpftime_sslsniff) 1 (preflight_started {F = F} {W = W} c conf r)
  unfolding preflight_started
  started-One (inl e) = cleaned-One _ none none (raised-One e)
  started-One (inr p) =
      AtMost-after _ _
        (Still bpftime_sslsniff _
          (λ P sees. attempt-Quiet P sees _ (Keeps-bind _ _ (Keeps-io _) (λ _. Keeps-io _))))
        (polled-One p)

  bpftime_preflight-One :
      AtMost (recorded {F = F} bpftime_sslsniff) 1 (bpftime_preflight {F = F} {W = W} c conf)
  unfolding bpftime_preflight
  bpftime_preflight-One =
      AtMost-after _ _ (Still bpftime_sslsniff _ (λ P sees. attempt-Quiet P sees _ (Keeps-io _)))
        started-One

-- What a phase may record at most.
abbrev pub phase_bound : Config → TestName → ℕ
phase_bound c baseline = c.num_runs
phase_bound c kernel_sslsniff = c.num_runs + 1
phase_bound c bpftime_sslsniff = 1 + c.num_runs * (c.bpftime_retries + 1)

module _ {F : Floats} {W : World} (c : Config) where
  found-AtMost :
      (b : Bool)
      → AtMost
          (recorded {F = F} bpftime_sslsniff)
          (phase_bound c bpftime_sslsniff)
          (bpftime_found {F = F} {W = W} c b)
  unfolding bpftime_found
  found-AtMost false = AtMost-return tt
  found-AtMost true = AtMost-after _ _ (AtMost-io _) (λ found.
      AtMost-if (not found) _ _ (AtMost-return tt) (
        AtMost-after _ _ (AtMost-io _)
          (λ conf. AtMost-bind _ _ (bpftime_preflight-One c conf) (bpftime_runs-AtMost c conf))))

  run_bpftime_sslsniff-AtMost :
      AtMost
        (recorded {F = F} bpftime_sslsniff)
        (phase_bound c bpftime_sslsniff)
        (run_bpftime_sslsniff {F = F} {W = W} c)
  unfolding run_bpftime_sslsniff
  run_bpftime_sslsniff-AtMost =
      AtMost-after _ _ (Still bpftime_sslsniff _ (λ P sees. cleanup_processes-Quiet P sees)) (λ _.
        AtMost-after _ _ (Still bpftime_sslsniff _ (λ P sees. remove_access_log-Quiet P sees)) (λ _.
          AtMost-after _ _ (Still bpftime_sslsniff _ (λ P sees. required_files-Quiet P sees))
            found-AtMost))

  run_phase-AtMost :
      (t : TestName) → AtMost (recorded {F = F} t) (phase_bound c t) (run_phase {F = F} {W = W} c t)
  run_phase-AtMost baseline = run_baseline-AtMost c
  run_phase-AtMost kernel_sslsniff = run_kernel_sslsniff-AtMost c
  run_phase-AtMost bpftime_sslsniff = run_bpftime_sslsniff-AtMost

-- A phase, however it ends, takes nothing back from what is recorded of its test, and records at
-- most `num_runs` rounds more for the baseline, one more than that for the kernel, and for bpftime
-- one preflight and every attempt that the retries allow.
pub run_phase_bound :
    (F : Floats) (W : World) (c : Config) (t : TestName) (s : Run (Book F) W)
    → Between (recorded t s.book) (phase_bound c t) (recorded t (run_phase c t s).1.book)
run_phase_bound F W c t s = (run_phase-AtMost c t).at s
