-- ===== src/SslNginx/Accounts/Count.antt =====
-- How often a test is recorded: every round of a phase counts once, valid or failed.
use bpftime_benchmark.Prelude.{
  ℕ, ◌+◌, ◌≡◌, refl, true, false, Option, none, some, ◌⊎◌, inl, inr, arith,
}
use bpftime_benchmark.Python.Exec.{Exec, Exn, Result, ok, raised}
use bpftime_benchmark.Python.World.{World, Proc, Status, Completed, failed}
use bpftime_benchmark.Python.Run.{Run}
use bpftime_benchmark.Python.Rules.Keeps.{Keeps, Keeps-io}
use bpftime_benchmark.Python.Rules.Adds.{
  Adds, Grew, Adds-weaken, Adds-io, Adds-if, Adds-try, Adds-on_timeout, Adds-bind, Adds-return,
  Adds-finally, Adds-modify,
}
use bpftime_benchmark.Python.Floats.{Floats}
use bpftime_benchmark.SslNginx.Book.{
  Config, TestName, baseline, kernel_sslsniff, bpftime_sslsniff, Reason, timeouts, parse_failures,
  wrk_failures, readiness_failures, attach_failures, exceptions, Stats, Book, add_failed,
  append_result, mark_valid, mark_failed, mark_retry,
}
use bpftime_benchmark.SslNginx.Process.{score_parsed, score}
use bpftime_benchmark.SslNginx.Phase.{
  round_raised, baseline_round, kernel_polled, kernel_traced, kernel_started, kernel_round,
}
use bpftime_benchmark.SslNginx.Accounts.Silent.{SeesAccounts, attempt-Quiet, kernel_cleanup-Quiet}

-- The rounds of a test that are accounted for.
abbrev pub recorded : {F : Floats} → TestName → Book F → ℕ
recorded t b = (b.run_stats t).valid_runs + (b.run_stats t).failed_attempts

module _ {F : Floats} {W : World} {A : Type 0} where
  -- What keeps every value of a counter does not move it.
  pub Adds-Quiet :
      (f : Book F → ℕ) (m : Exec (Run (Book F) W) A)
      → ((n : ℕ) → Keeps (λ b. f b ≡ n) m)
      → Adds f 0 0 m
  Adds-Quiet f m h = record { at = λ s. go s (m s).0 ((h (f s.book)).at s refl) }
    where
      go :
          (s : Run (Book F) W) (r : Result A)
          → f (m s).1.book ≡ f s.book
          → Grew (f s.book) 0 0 r (f (m s).1.book)
      go s (ok x) e = omega arith
      go s (raised x) e = omega arith

pub recorded-SeesAccounts :
    {F : Floats} (t : TestName) (n : ℕ) → SeesAccounts {F = F} (λ b. recorded t b ≡ n)
recorded-SeesAccounts t n = record { at = λ b b' e e' h. rw (e', h) }

pub add_failed_lem :
    (r : Reason) (s : Stats)
    → ((add_failed r s).valid_runs ≡ s.valid_runs)
      × ((add_failed r s).failed_attempts ≡ s.failed_attempts + 1)
unfolding add_failed
add_failed_lem timeouts s = (refl, refl)
add_failed_lem parse_failures s = (refl, refl)
add_failed_lem wrk_failures s = (refl, refl)
add_failed_lem readiness_failures s = (refl, refl)
add_failed_lem attach_failures s = (refl, refl)
add_failed_lem exceptions s = (refl, refl)

module _ {F : Floats} {W : World} where
  pub mark_failed-Adds :
      (t : TestName) (r : Reason) → Adds {W = W} (recorded {F = F} t) 1 0 (mark_failed t r)
  unfolding mark_failed
  mark_failed-Adds baseline r =
      Adds-modify _ (λ b. omega (arith, add_failed_lem r (b.run_stats baseline)))
  mark_failed-Adds kernel_sslsniff r =
      Adds-modify _ (λ b. omega (arith, add_failed_lem r (b.run_stats kernel_sslsniff)))
  mark_failed-Adds bpftime_sslsniff r =
      Adds-modify _ (λ b. omega (arith, add_failed_lem r (b.run_stats bpftime_sslsniff)))

  mark_valid-Adds : (t : TestName) → Adds {W = W} (recorded {F = F} t) 1 0 (mark_valid t)
  unfolding mark_valid
  mark_valid-Adds baseline = Adds-modify _ (λ b. omega arith)
  mark_valid-Adds kernel_sslsniff = Adds-modify _ (λ b. omega arith)
  mark_valid-Adds bpftime_sslsniff = Adds-modify _ (λ b. omega arith)

  append_result-Adds :
      (t : TestName) (x : F.Float)
      → Adds {W = W} (recorded {F = F} t) 0 0 (append_result {F = F} t x)
  unfolding append_result
  append_result-Adds t x = Adds-modify _ (λ b. omega arith)

  pub mark_retry-Adds : (t : TestName) → Adds {W = W} (recorded {F = F} t) 0 0 (mark_retry t)
  unfolding mark_retry
  mark_retry-Adds baseline = Adds-modify _ (λ b. omega arith)
  mark_retry-Adds kernel_sslsniff = Adds-modify _ (λ b. omega arith)
  mark_retry-Adds bpftime_sslsniff = Adds-modify _ (λ b. omega arith)

  score_parsed-Adds :
      (t : TestName) (x : Option F.Float)
      → Adds (recorded {F = F} t) 1 0 (score_parsed {F = F} {W = W} t x)
  unfolding score_parsed
  score_parsed-Adds t none = Adds-return _ false (mark_failed-Adds t parse_failures)
  score_parsed-Adds t (some x) =
      Adds-if (F.truthy x) _ _
        (Adds-bind _ _ (append_result-Adds t x) (λ _. Adds-return _ true (mark_valid-Adds t)))
        (Adds-return _ false (mark_failed-Adds t parse_failures))

  -- A run of wrk that ended is recorded once.
  pub score-Adds :
      (t : TestName) (r : Completed) → Adds (recorded {F = F} t) 1 0 (score {F = F} {W = W} t r)
  unfolding score
  score-Adds t r =
      Adds-if (failed r.returncode) _ _ (Adds-return _ false (mark_failed-Adds t wrk_failures))
        (score_parsed-Adds t _)

  round_raised-Adds :
      (t : TestName) (e : Exn) → Adds (recorded {F = F} t) 1 0 (round_raised {F = F} {W = W} t e)
  unfolding round_raised
  round_raised-Adds t e =
      Adds-on_timeout _ _ e (mark_failed-Adds t timeouts) (mark_failed-Adds t exceptions)

module _ {F : Floats} {W : World} (c : Config) where
  pub baseline_round-Adds : Adds (recorded {F = F} baseline) 1 0 (baseline_round {F = F} {W = W} c)
  unfolding baseline_round
  baseline_round-Adds =
      Adds-try _ _ (Adds-bind _ _ (Adds-io _) (λ r. Adds-return _ tt (score-Adds baseline r)))
        (round_raised-Adds baseline)

  kernel_polled-Adds :
      (e : Option Status)
      → Adds (recorded {F = F} kernel_sslsniff) 1 0 (kernel_polled {F = F} {W = W} c e)
  unfolding kernel_polled
  kernel_polled-Adds (some x) = mark_failed-Adds kernel_sslsniff attach_failures
  kernel_polled-Adds none =
      Adds-bind _ _ (Adds-io _) (λ r. Adds-return _ tt (score-Adds kernel_sslsniff r))

  kernel_traced-Adds :
      (p : Proc) → Adds (recorded {F = F} kernel_sslsniff) 1 0 (kernel_traced {F = F} {W = W} c p)
  unfolding kernel_traced
  kernel_traced-Adds p =
      Adds-bind _ _ (Adds-io _) (λ _. Adds-bind _ _ (Adds-io _) kernel_polled-Adds)

  kernel_started-Adds :
      (r : Exn ⊎ Proc)
      → Adds (recorded {F = F} kernel_sslsniff) 1 1 (kernel_started {F = F} {W = W} c r)
  unfolding kernel_started
  kernel_started-Adds (inl e) =
      Adds-finally _ _ (Adds-weaken _ (omega arith) (round_raised-Adds kernel_sslsniff e))
        (Adds-Quiet _ _
          (λ n. kernel_cleanup-Quiet _ (recorded-SeesAccounts kernel_sslsniff n) none))
        (omega arith)
  kernel_started-Adds (inr p) =
      Adds-finally _ _
        (Adds-weaken _ (omega arith)
          (Adds-try _ _ (kernel_traced-Adds p) (round_raised-Adds kernel_sslsniff)))
        (Adds-Quiet _ _
          (λ n. kernel_cleanup-Quiet _ (recorded-SeesAccounts kernel_sslsniff n) (some p)))
        (omega arith)

  pub kernel_round-Adds :
      Adds (recorded {F = F} kernel_sslsniff) 1 1 (kernel_round {F = F} {W = W} c)
  unfolding kernel_round
  kernel_round-Adds =
      Adds-bind _ _
        (Adds-Quiet _ _
          (λ n. attempt-Quiet _ (recorded-SeesAccounts kernel_sslsniff n) _ (Keeps-io _)))
        kernel_started-Adds
