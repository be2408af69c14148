-- ===== src/SslNginx/Accounts/Rounds.antt =====
-- How often the phases with one nginx, `run_baseline` and `run_kernel_sslsniff`, record their test.
use bpftime_benchmark.Prelude.{
  ℕ, not, ◌+◌, ◌≤◌, ◌≡◌, refl, ◌∙◌, Bool, true, false, Option, none, some, ◌⊎◌, inl, inr, arith,
  if◌then◌else◌,
}
use bpftime_benchmark.Text.Base.{codes}
use bpftime_benchmark.Python.Exec.{Exec, Exn, repeat, ◌>>=◌}
use bpftime_benchmark.Python.World.{World, Proc, Status}
use bpftime_benchmark.Python.Run.{Run, io}
use bpftime_benchmark.Python.Rules.Keeps.{Keeps, Keeps-io, Keeps-bind, Keeps-modify, keeps_rules}
use bpftime_benchmark.Python.Rules.Adds.{Adds, Adds-weaken, Adds-io, Adds-bind, Adds-repeat}
use bpftime_benchmark.Python.Rules.AtMost.{
  AtMost, AtMost-mono, AtMost-Adds, AtMost-return, AtMost-io, AtMost-if, AtMost-try,
  AtMost-on_exception, AtMost-after, AtMost-finally,
}
use bpftime_benchmark.Python.Floats.{Floats}
use bpftime_benchmark.SslNginx.Book.{
  Config, TestName, baseline, kernel_sslsniff, Summary, Book, attach_failures, mark_failed,
}
use bpftime_benchmark.SslNginx.Trace.{trace_is_effective, mark_trace_preflight_failed}
use bpftime_benchmark.SslNginx.Phase.{
  pkill_sslsniff, stop_nginx, sslsniff_path, phase_started, nginx_phase, baseline_polled,
  baseline_body, run_baseline, kernel_round, kernel_preflighted, kernel_ready, kernel_body,
  run_kernel_sslsniff,
}
use bpftime_benchmark.SslNginx.Accounts.Silent.{
  SeesAccounts, attempt-Quiet, remove_access_log-Quiet, check_file_exists-Quiet,
  check_command_exists-Quiet, cleanup_processes-Quiet, stop_nginx-Quiet,
  collect_trace_preflight-Quiet,
}
use bpftime_benchmark.SslNginx.Accounts.Count.{
  recorded, recorded-SeesAccounts, Adds-Quiet, mark_failed-Adds, baseline_round-Adds,
  kernel_round-Adds, add_failed_lem,
}

-- Nothing valid comes of a phase whose preflight was not effective.
abbrev pub Fruitless : {F : Floats} → Bool → Book F → Book F → Type 0
Fruitless true b b' = Unit
Fruitless false b b' =
    (b'.results kernel_sslsniff ≡ b.results kernel_sslsniff)
    × ((b'.run_stats kernel_sslsniff).valid_runs ≡ (b.run_stats kernel_sslsniff).valid_runs)

module _ {F : Floats} {W : World} (t : TestName) where
  -- What keeps whatever the accounts say of the test adds nothing to it.
  pub Still :
      {A : Type 0} (m : Exec (Run (Book F) W) A)
      → ((P : Book F → Type 0) → SeesAccounts P → Keeps P m)
      → AtMost (recorded {F = F} t) 0 m
  Still m h =
      AtMost-Adds m (Adds-Quiet (recorded {F = F} t) m (λ n. h _ (recorded-SeesAccounts t n)))
        (omega arith) (omega arith)

  phase_started-AtMost :
      (k : ℕ) (body : Proc → Exec (Run (Book F) W) (Unit {0})) (r : Exn ⊎ Proc)
      → ((p : Proc) → AtMost (recorded {F = F} t) k (body p))
      → AtMost (recorded {F = F} t) k (phase_started body r)
  unfolding phase_started
  phase_started-AtMost k body (inl e) h = AtMost-on_exception _ e (λ _. AtMost-return tt)
  phase_started-AtMost k body (inr p) h =
      AtMost-mono _
        (AtMost-finally _ _
          (AtMost-try {k = 0} _ _ (h p) (λ e. AtMost-on_exception _ e (λ _. AtMost-return tt)))
          (Still (stop_nginx p) (λ P sees. stop_nginx-Quiet P sees p)))
        (omega arith)

  nginx_phase-AtMost :
      (k : ℕ) (body : Proc → Exec (Run (Book F) W) (Unit {0}))
      → ((p : Proc) → AtMost (recorded {F = F} t) k (body p))
      → AtMost (recorded {F = F} t) k (nginx_phase body)
  unfolding nginx_phase
  nginx_phase-AtMost k body h = AtMost-after _ _ (AtMost-io _) (λ found.
      AtMost-if (not found) _ _ (AtMost-return tt) (
        AtMost-after _ _ (AtMost-io _) (λ conf.
          AtMost-after _ _ (Still _ (λ P sees. attempt-Quiet P sees _ (Keeps-io _)))
            (λ r. phase_started-AtMost k body r h))))

module _ {F : Floats} {W : World} (c : Config) where
  -- Where nginx still runs when it is looked at, a baseline phase that returns has recorded
  -- exactly `num_runs` rounds, and one that is interrupted at most so many.
  pub baseline_polled-Adds :
      (p : Proc)
      → Adds
          (recorded {F = F} baseline)
          c.num_runs
          c.num_runs
          (baseline_polled {F = F} {W = W} c p none)
  unfolding baseline_polled
  baseline_polled-Adds p =
      Adds-bind _ _ (Adds-Quiet _ _ (λ n. search keeps_rules depth 8))
        (λ _. Adds-repeat c.num_runs 0 _ (λ i. Adds-weaken _ (omega arith) (baseline_round-Adds c)))

  baseline_body-AtMost :
      (p : Proc) → AtMost (recorded {F = F} baseline) c.num_runs (baseline_body {F = F} {W = W} c p)
  unfolding baseline_body baseline_polled
  baseline_body-AtMost p =
      AtMost-after _ _ (AtMost-io _) (λ _. AtMost-after _ _ (AtMost-io _) polled)
    where
      polled :
          (e : Option Status)
          → AtMost (recorded {F = F} baseline) c.num_runs (baseline_polled {F = F} {W = W} c p e)
      polled none =
          AtMost-Adds (baseline_polled c p none) (baseline_polled-Adds p) (omega arith)
            (omega arith)
      polled (some x) = AtMost-after _ _ (AtMost-io _) (λ _. AtMost-return tt)

  -- The baseline phase records at most `num_runs` rounds.
  pub run_baseline-AtMost :
      AtMost (recorded {F = F} baseline) c.num_runs (run_baseline {F = F} {W = W} c)
  unfolding run_baseline
  run_baseline-AtMost =
      AtMost-after _ _ (Still baseline _ (λ P sees. cleanup_processes-Quiet P sees)) (λ _.
        AtMost-after _ _ (Still baseline _ (λ P sees. remove_access_log-Quiet P sees)) (λ _.
          AtMost-after _ _
            (Still baseline _ (λ P sees. check_command_exists-Quiet P sees (codes "nginx")))
            (λ _.
              AtMost-after _ _ (AtMost-io _)
                (λ _. nginx_phase-AtMost baseline c.num_runs _ baseline_body-AtMost))))

  -- The kernel phase behind its preflight records exactly one failure where no event was seen, and
  -- `num_runs` rounds where some were.
  pub kernel_preflighted-Adds :
      (x : Summary)
      → let n = if trace_is_effective x then c.num_runs else 1 in
        Adds (recorded {F = F} kernel_sslsniff) n n (kernel_preflighted {F = F} {W = W} c x)
  unfolding kernel_preflighted mark_trace_preflight_failed
  kernel_preflighted-Adds x = Adds-bind _ _ (Adds-io _) (λ _. judged (trace_is_effective x))
    where
      judged :
          (b : Bool)
          → let n = if b then c.num_runs else 1 in
            Adds (recorded {F = F} kernel_sslsniff) n n (
              if not b
              then mark_trace_preflight_failed {F = F} {W = W} kernel_sslsniff
              else repeat c.num_runs 0 (λ i. kernel_round {F = F} {W = W} c))
      judged true = Adds-repeat c.num_runs 0 _ (λ i. kernel_round-Adds c)
      judged false = Adds-weaken _ (omega arith) (mark_failed-Adds kernel_sslsniff attach_failures)

  -- Where its preflight was not effective, the kernel phase keeps no value and counts no valid run.
  pub kernel_preflighted-Fruitless :
      (x : Summary) (s : Run (Book F) W)
      → Fruitless (trace_is_effective x) s.book (kernel_preflighted c x s).1.book
  unfolding kernel_preflighted mark_trace_preflight_failed mark_failed
  kernel_preflighted-Fruitless x s = judged (trace_is_effective x)
    where
      judged :
          (b : Bool)
          → Fruitless b s.book
              ((io W (W.run pkill_sslsniff) >>= λ _.
                  if not b
                  then mark_trace_preflight_failed {F = F} {W = W} kernel_sslsniff
                  else repeat c.num_runs 0 (λ i. kernel_round {F = F} {W = W} c))
                s).1.book
      judged true = tt
      judged false =
          (Keeps-bind
              {P = λ b.
                (b.results kernel_sslsniff ≡ s.book.results kernel_sslsniff)
                × ((b.run_stats kernel_sslsniff).valid_runs
                    ≡ (s.book.run_stats kernel_sslsniff).valid_runs)}
              _ _ (Keeps-io _)
              (λ _. Keeps-modify _ (λ b h.
                (h.0, (add_failed_lem attach_failures (b.run_stats kernel_sslsniff)).0 ∙ h.1)))).at
            s (refl, refl)

  kernel_body-AtMost :
      (p : Proc)
      → AtMost (recorded {F = F} kernel_sslsniff) (c.num_runs + 1) (kernel_body {F = F} {W = W} c p)
  unfolding kernel_body kernel_ready
  kernel_body-AtMost p = AtMost-after _ _ (AtMost-io _) (λ _. AtMost-after _ _ (AtMost-io _) ready)
    where
      bound : (b : Bool) → (if b then c.num_runs else 1) ≤ c.num_runs + 1
      bound true = omega arith
      bound false = omega arith

      ready :
          (e : Option Status)
          → AtMost
              (recorded {F = F} kernel_sslsniff)
              (c.num_runs + 1)
              (kernel_ready {F = F} {W = W} c p e)
      ready none =
          AtMost-after _ _
            (Still kernel_sslsniff _
              (λ P sees. collect_trace_preflight-Quiet P sees c kernel_sslsniff _))
            (λ x.
              AtMost-Adds _ (kernel_preflighted-Adds x) (bound (trace_is_effective x))
                (bound (trace_is_effective x)))
      ready (some x) = AtMost-after _ _ (AtMost-io _) (λ _. AtMost-return tt)

  -- The kernel phase records at most `num_runs + 1` rounds.
  pub run_kernel_sslsniff-AtMost :
      AtMost
        (recorded {F = F} kernel_sslsniff)
        (c.num_runs + 1)
        (run_kernel_sslsniff {F = F} {W = W} c)
  unfolding run_kernel_sslsniff
  run_kernel_sslsniff-AtMost =
      AtMost-after _ _ (Still kernel_sslsniff _ (λ P sees. cleanup_processes-Quiet P sees)) (λ _.
        AtMost-after _ _ (Still kernel_sslsniff _ (λ P sees. remove_access_log-Quiet P sees)) (λ _.
          AtMost-after _ _
            (Still kernel_sslsniff _ (λ P sees. check_file_exists-Quiet P sees sslsniff_path))
            (λ found.
              AtMost-if (not found) _ _ (AtMost-return tt)
                (nginx_phase-AtMost kernel_sslsniff (c.num_runs + 1) _ kernel_body-AtMost))))
