-- ===== src/SslNginx/Accounts/Breaks.antt =====
-- A run of `run_bpftime_sslsniff` breaks off its retries exactly where it counted a valid value.
use bpftime_benchmark.Prelude.{
  ℕ, zero, suc, ◌+◌, Bool, true, false, Option, none, some, ◌⊎◌, inl, inr, arith,
}
use bpftime_benchmark.Text.Base.{Text}
use bpftime_benchmark.Python.Exec.{Exn, try_finally}
use bpftime_benchmark.Python.World.{World, Proc, Status, Completed, failed}
use bpftime_benchmark.Python.Rules.Keeps.{Keeps-io, Keeps-bind}
use bpftime_benchmark.Python.Rules.Adds.{Adds, Adds-io, Adds-modify, Adds-pure}
use bpftime_benchmark.Python.Rules.Wins.{
  Wins, Wins-weaken, Wins-if, Wins-try, Wins-on_timeout, Wins-bind, Wins-true, Wins-false,
  Wins-finally, Wins-for_range,
}
use bpftime_benchmark.Python.Floats.{Floats}
use bpftime_benchmark.SslNginx.Book.{
  Config, TestName, bpftime_sslsniff, Reason, timeouts, parse_failures, wrk_failures,
  readiness_failures, attach_failures, exceptions, Stats, Book, append_result, mark_valid,
  mark_failed, mark_retry,
}
use bpftime_benchmark.SslNginx.Process.{score_parsed, score}
use bpftime_benchmark.SslNginx.Bpftime.{
  attempt_raised, attempt_cleanup, attempt_ready, attempt_serving, attempt_nginx, attempt_polled,
  attempt_started, note_retry, bpftime_attempt, bpftime_run,
}
use bpftime_benchmark.SslNginx.Accounts.Silent.{
  attempt-Quiet, wait_for_nginx_ready-Quiet, attempt_cleanup-Quiet,
}
use bpftime_benchmark.SslNginx.Accounts.Count.{add_failed_lem}
use bpftime_benchmark.SslNginx.Accounts.Tries.{Adds-Still}

abbrev valid_of : (TestName → Stats) → ℕ
valid_of ss = (ss bpftime_sslsniff).valid_runs

-- The valid runs of the test.
abbrev pub valid : {F : Floats} → Book F → ℕ
valid b = valid_of b.run_stats

module _ {F : Floats} {W : World} where
  mark_failed-valid :
      (r : Reason) → Adds {W = W} (valid {F = F}) 0 0 (mark_failed bpftime_sslsniff r)
  unfolding mark_failed
  mark_failed-valid r =
      Adds-modify _ (λ b. omega (arith, add_failed_lem r (b.run_stats bpftime_sslsniff)))

  mark_valid-valid : Adds {W = W} (valid {F = F}) 1 0 (mark_valid bpftime_sslsniff)
  unfolding mark_valid
  mark_valid-valid = Adds-modify _ (λ b. omega arith)

  append_result-valid :
      (x : F.Float) → Adds {W = W} (valid {F = F}) 0 0 (append_result {F = F} bpftime_sslsniff x)
  unfolding append_result
  append_result-valid x = Adds-modify _ (λ b. omega arith)

  note_retry-valid : (k : ℕ) → Adds (valid {F = F}) 0 0 (note_retry {F = F} {W = W} k)
  unfolding mark_retry
  note_retry-valid zero = Adds-pure tt
  note_retry-valid (suc k) = Adds-modify _ (λ b. omega arith)

  score_parsed-Wins :
      (x : Option F.Float)
      → Wins (valid {F = F}) 0 (score_parsed {F = F} {W = W} bpftime_sslsniff x)
  unfolding score_parsed
  score_parsed-Wins none = Wins-false _ (mark_failed-valid parse_failures)
  score_parsed-Wins (some x) =
      Wins-if (F.truthy x) _ _
        (Wins-bind _ _ (append_result-valid x) (λ _. Wins-true _ mark_valid-valid))
        (Wins-false _ (mark_failed-valid parse_failures))

  -- `score` says whether it counted.
  pub score-Wins :
      (r : Completed) → Wins (valid {F = F}) 0 (score {F = F} {W = W} bpftime_sslsniff r)
  unfolding score
  score-Wins r =
      Wins-if (failed r.returncode) _ _ (Wins-false _ (mark_failed-valid wrk_failures))
        (score_parsed-Wins _)

  attempt_raised-Wins : (e : Exn) → Wins (valid {F = F}) 0 (attempt_raised {F = F} {W = W} e)
  unfolding attempt_raised
  attempt_raised-Wins e =
      Wins-on_timeout _ _ e (Wins-false _ (mark_failed-valid timeouts))
        (Wins-false _ (mark_failed-valid exceptions))

  attempt_cleanup-valid :
      (p q : Option Proc) → Adds (valid {F = F}) 0 0 (attempt_cleanup {F = F} {W = W} p q)
  attempt_cleanup-valid p q = Adds-Still valid_of _ (λ P sees. attempt_cleanup-Quiet P sees p q)

  given_up-Wins :
      (e : Exn) (p q : Option Proc)
      → Wins
          (valid {F = F})
          1
          (try_finally (attempt_raised {F = F} {W = W} e) (attempt_cleanup p q))
  given_up-Wins e p q =
      Wins-finally _ _ (Wins-weaken _ (omega arith) (attempt_raised-Wins e))
        (attempt_cleanup-valid p q)

module _ {F : Floats} {W : World} (c : Config) (conf : Text) where
  attempt_ready-Wins : (b : Bool) → Wins (valid {F = F}) 0 (attempt_ready {F = F} {W = W} c conf b)
  unfolding attempt_ready
  attempt_ready-Wins false = Wins-false _ (mark_failed-valid readiness_failures)
  attempt_ready-Wins true = Wins-bind _ _ (Adds-io _) score-Wins

  attempt_serving-Wins :
      (n : Proc) → Wins (valid {F = F}) 0 (attempt_serving {F = F} {W = W} c conf n)
  unfolding attempt_serving
  attempt_serving-Wins n = Wins-bind _ _ (Adds-io _) (λ _.
      Wins-bind _ _ (Adds-Still valid_of _ (λ P sees. wait_for_nginx_ready-Quiet P sees c n))
        attempt_ready-Wins)

  attempt_nginx-Wins :
      (p : Proc) (r : Exn ⊎ Proc)
      → Wins (valid {F = F}) 1 (attempt_nginx {F = F} {W = W} c conf p r)
  unfolding attempt_nginx
  attempt_nginx-Wins p (inl e) = given_up-Wins e none (some p)
  attempt_nginx-Wins p (inr n) =
      Wins-finally _ _
        (Wins-weaken _ (omega arith) (Wins-try _ _ (attempt_serving-Wins n) attempt_raised-Wins))
        (attempt_cleanup-valid (some n) (some p))

  attempt_polled-Wins :
      (p : Proc) (r : Exn ⊎ Option Status)
      → Wins (valid {F = F}) 1 (attempt_polled {F = F} {W = W} c conf p r)
  unfolding attempt_polled
  attempt_polled-Wins p (inl e) = given_up-Wins e none (some p)
  attempt_polled-Wins p (inr (some x)) =
      Wins-finally _ _
        (Wins-weaken _ (omega arith) (Wins-false _ (mark_failed-valid attach_failures)))
        (attempt_cleanup-valid none (some p))
  attempt_polled-Wins p (inr none) =
      Wins-bind _ _ (Adds-Still valid_of _ (λ P sees. attempt-Quiet P sees _ (Keeps-io _)))
        (attempt_nginx-Wins p)

  attempt_started-Wins :
      (r : Exn ⊎ Proc) → Wins (valid {F = F}) 1 (attempt_started {F = F} {W = W} c conf r)
  unfolding attempt_started
  attempt_started-Wins (inl e) = given_up-Wins e none none
  attempt_started-Wins (inr p) =
      Wins-bind _ _
        (Adds-Still valid_of _
          (λ P sees. attempt-Quiet P sees _ (Keeps-bind _ _ (Keeps-io _) (λ _. Keeps-io _))))
        (attempt_polled-Wins p)

  bpftime_attempt-Wins : (k : ℕ) → Wins (valid {F = F}) 1 (bpftime_attempt {F = F} {W = W} c conf k)
  unfolding bpftime_attempt
  bpftime_attempt-Wins k = Wins-bind _ _ (note_retry-valid k) (λ _.
      Wins-bind _ _ (Adds-Still valid_of _ (λ P sees. attempt-Quiet P sees _ (Keeps-io _)))
        attempt_started-Wins)

  -- A run adds one valid value and breaks, or uses up its retries and adds none; one that raises
  -- has added one at most.
  pub bpftime_run-Wins : Wins (valid {F = F}) 1 (bpftime_run {F = F} {W = W} c conf)
  unfolding bpftime_run
  bpftime_run-Wins = Wins-for_range (c.bpftime_retries + 1) 0 _ bpftime_attempt-Wins
