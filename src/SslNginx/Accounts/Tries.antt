-- ===== src/SslNginx/Accounts/Tries.antt =====
-- How often `run_bpftime_sslsniff` records its test.
use bpftime_benchmark.Prelude.{
  ℕ, zero, suc, ◌+◌, ◌*◌, Bool, true, false, Option, none, some, ◌⊎◌, inl, inr, arith,
}
use bpftime_benchmark.Text.Base.{Text}
use bpftime_benchmark.Python.Exec.{Exec, Exn, try_finally}
use bpftime_benchmark.Python.World.{World, Proc, Status}
use bpftime_benchmark.Python.Run.{Run}
use bpftime_benchmark.Python.Rules.Keeps.{Keeps, Keeps-io, Keeps-bind}
use bpftime_benchmark.Python.Rules.Adds.{
  Adds, Adds-weaken, Adds-io, Adds-try, Adds-on_timeout, Adds-bind, Adds-return, Adds-finally,
  Adds-pure,
}
use bpftime_benchmark.Python.Rules.AtMost.{
  AtMost, AtMost-mono, AtMost-Adds, AtMost-return, AtMost-before, AtMost-repeat, AtMost-for_range,
  AtMost-pure,
}
use bpftime_benchmark.Python.Floats.{Floats}
use bpftime_benchmark.SslNginx.Book.{
  Config, bpftime_sslsniff, timeouts, readiness_failures, attach_failures, exceptions, Stats, Book,
  TestName,
}
use bpftime_benchmark.SslNginx.Bpftime.{
  attempt_raised, attempt_cleanup, attempt_ready, attempt_serving, attempt_nginx, attempt_polled,
  attempt_started, note_retry, bpftime_attempt, bpftime_run, bpftime_runs,
}
use bpftime_benchmark.SslNginx.Accounts.Silent.{
  SeesAccounts, attempt-Quiet, wait_for_nginx_ready-Quiet, attempt_cleanup-Quiet,
}
use bpftime_benchmark.SslNginx.Accounts.Count.{
  recorded, Adds-Quiet, mark_failed-Adds, mark_retry-Adds, score-Adds,
}

abbrev total : (TestName → Stats) → ℕ
total ss = (ss bpftime_sslsniff).valid_runs + (ss bpftime_sslsniff).failed_attempts

module _ {F : Floats} {W : World} (f : (TestName → Stats) → ℕ) where
  -- What does not touch the accounts moves no counter of them.
  pub Adds-Still :
      {A : Type 0} (m : Exec (Run (Book F) W) A)
      → ((P : Book F → Type 0) → SeesAccounts P → Keeps P m)
      → Adds (λ b. f b.run_stats) 0 0 m
  Adds-Still m h =
      Adds-Quiet (λ b. f b.run_stats) m (λ n. h _ (record { at = λ b b' e e' k. rw (e', k) }))

module _ {F : Floats} {W : World} (c : Config) (conf : Text) where
  attempt_raised-Adds :
      (e : Exn) → Adds (recorded {F = F} bpftime_sslsniff) 1 0 (attempt_raised {F = F} {W = W} e)
  unfolding attempt_raised
  attempt_raised-Adds e =
      Adds-on_timeout _ _ e (Adds-return _ false (mark_failed-Adds bpftime_sslsniff timeouts))
        (Adds-return _ false (mark_failed-Adds bpftime_sslsniff exceptions))

  attempt_cleanup-Adds :
      (p q : Option Proc)
      → Adds (recorded {F = F} bpftime_sslsniff) 0 0 (attempt_cleanup {F = F} {W = W} p q)
  attempt_cleanup-Adds p q = Adds-Still total _ (λ P sees. attempt_cleanup-Quiet P sees p q)

  attempt_ready-Adds :
      (b : Bool)
      → Adds (recorded {F = F} bpftime_sslsniff) 1 0 (attempt_ready {F = F} {W = W} c conf b)
  unfolding attempt_ready
  attempt_ready-Adds false =
      Adds-return _ false (mark_failed-Adds bpftime_sslsniff readiness_failures)
  attempt_ready-Adds true = Adds-bind _ _ (Adds-io _) (score-Adds bpftime_sslsniff)

  attempt_serving-Adds :
      (n : Proc)
      → Adds (recorded {F = F} bpftime_sslsniff) 1 0 (attempt_serving {F = F} {W = W} c conf n)
  unfolding attempt_serving
  attempt_serving-Adds n = Adds-bind _ _ (Adds-io _) (λ _.
      Adds-bind _ _ (Adds-Still total _ (λ P sees. wait_for_nginx_ready-Quiet P sees c n))
        attempt_ready-Adds)

  -- An attempt that raised, with its `finally` block.
  given_up-Adds :
      (e : Exn) (p q : Option Proc)
      → Adds
          (recorded {F = F} bpftime_sslsniff)
          1
          1
          (try_finally (attempt_raised {F = F} {W = W} e) (attempt_cleanup p q))
  given_up-Adds e p q =
      Adds-finally _ _ (Adds-weaken _ (omega arith) (attempt_raised-Adds e))
        (attempt_cleanup-Adds p q) (omega arith)

  attempt_nginx-Adds :
      (p : Proc) (r : Exn ⊎ Proc)
      → Adds (recorded {F = F} bpftime_sslsniff) 1 1 (attempt_nginx {F = F} {W = W} c conf p r)
  unfolding attempt_nginx
  attempt_nginx-Adds p (inl e) = given_up-Adds e none (some p)
  attempt_nginx-Adds p (inr n) =
      Adds-finally _ _
        (Adds-weaken _ (omega arith) (Adds-try _ _ (attempt_serving-Adds n) attempt_raised-Adds))
        (attempt_cleanup-Adds (some n) (some p)) (omega arith)

  attempt_polled-Adds :
      (p : Proc) (r : Exn ⊎ Option Status)
      → Adds (recorded {F = F} bpftime_sslsniff) 1 1 (attempt_polled {F = F} {W = W} c conf p r)
  unfolding attempt_polled
  attempt_polled-Adds p (inl e) = given_up-Adds e none (some p)
  attempt_polled-Adds p (inr (some x)) =
      Adds-finally _ _
        (Adds-weaken _ (omega arith)
          (Adds-return _ false (mark_failed-Adds bpftime_sslsniff attach_failures)))
        (attempt_cleanup-Adds none (some p)) (omega arith)
  attempt_polled-Adds p (inr none) =
      Adds-bind _ _ (Adds-Still total _ (λ P sees. attempt-Quiet P sees _ (Keeps-io _)))
        (attempt_nginx-Adds p)

  attempt_started-Adds :
      (r : Exn ⊎ Proc)
      → Adds (recorded {F = F} bpftime_sslsniff) 1 1 (attempt_started {F = F} {W = W} c conf r)
  unfolding attempt_started
  attempt_started-Adds (inl e) = given_up-Adds e none none
  attempt_started-Adds (inr p) =
      Adds-bind _ _
        (Adds-Still total _
          (λ P sees. attempt-Quiet P sees _ (Keeps-bind _ _ (Keeps-io _) (λ _. Keeps-io _))))
        (attempt_polled-Adds p)

  note_retry-Adds :
      (k : ℕ) → Adds (recorded {F = F} bpftime_sslsniff) 0 0 (note_retry {F = F} {W = W} k)
  note_retry-Adds zero = Adds-pure tt
  note_retry-Adds (suc k) = mark_retry-Adds bpftime_sslsniff

  -- An attempt is recorded exactly once, as valid or as failed, however it ends.
  pub bpftime_attempt-Adds :
      (k : ℕ)
      → Adds (recorded {F = F} bpftime_sslsniff) 1 1 (bpftime_attempt {F = F} {W = W} c conf k)
  unfolding bpftime_attempt
  bpftime_attempt-Adds k = Adds-bind _ _ (note_retry-Adds k) (λ _.
      Adds-bind _ _ (Adds-Still total _ (λ P sees. attempt-Quiet P sees _ (Keeps-io _)))
        attempt_started-Adds)

  -- The runs together are recorded at most once for every attempt that the retries allow.
  pub bpftime_runs-AtMost :
      (b : Bool)
      → AtMost
          (recorded {F = F} bpftime_sslsniff)
          (c.num_runs * (c.bpftime_retries + 1))
          (bpftime_runs {F = F} {W = W} c conf b)
  unfolding bpftime_runs bpftime_run
  bpftime_runs-AtMost false = AtMost-return tt
  bpftime_runs-AtMost true = AtMost-repeat c.num_runs 0 _ (λ i.
      AtMost-before _ _
        (AtMost-mono _
          (AtMost-for_range {k = 1} (c.bpftime_retries + 1) 0 _
            (λ k. AtMost-Adds _ (bpftime_attempt-Adds k) (omega arith) (omega arith)))
          (omega arith))
        (λ _. AtMost-pure tt))
