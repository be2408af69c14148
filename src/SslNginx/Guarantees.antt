-- ===== src/SslNginx/Guarantees.antt =====
-- What the phases of benchmark/ssl-nginx/benchmark.py do to the accounts, said of their runs.
use bpftime_benchmark.Prelude.{ℕ, ◌≡◌, refl, false, none, if◌then◌else◌}
use bpftime_benchmark.Text.Base.{Text}
use bpftime_benchmark.Python.World.{World, Proc}
use bpftime_benchmark.Python.Run.{Run}
use bpftime_benchmark.Python.Rules.Adds.{Grew}
use bpftime_benchmark.Python.Rules.Wins.{Won}
use bpftime_benchmark.Python.Floats.{Floats}
use bpftime_benchmark.SslNginx.Book.{
  Config, TestName, baseline, kernel_sslsniff, bpftime_sslsniff, Summary, Book, same,
}
use bpftime_benchmark.SslNginx.Trace.{trace_is_effective}
use bpftime_benchmark.SslNginx.Phase.{baseline_polled, kernel_preflighted}
use bpftime_benchmark.SslNginx.Bpftime.{bpftime_attempt, bpftime_run}
use bpftime_benchmark.SslNginx.Main.{run_phase}
use bpftime_benchmark.SslNginx.Accounts.Count.{recorded}
use bpftime_benchmark.SslNginx.Accounts.Rounds.{
  Fruitless, baseline_polled-Adds, kernel_preflighted-Adds, kernel_preflighted-Fruitless,
}
use bpftime_benchmark.SslNginx.Accounts.Tries.{bpftime_attempt-Adds}
use bpftime_benchmark.SslNginx.Accounts.Breaks.{valid, bpftime_run-Wins}
use bpftime_benchmark.SslNginx.Accounts.Frame.{run_phase-Holds}

module _ (F : Floats) (W : World) (c : Config) where
  -- The phase of one test leaves the values and the numbers of every other test as they were,
  -- however it ends.
  pub run_phase_frame :
      (t u : TestName)
      → same t u ≡ false
      → (s : Run (Book F) W)
      → let b = (run_phase c t s).1.book in
        (b.results u ≡ s.book.results u) × (b.run_stats u ≡ s.book.run_stats u)
  run_phase_frame t u other s =
      let h =
        (run_phase-Holds t u (s.book.results u) (s.book.run_stats u) other c).at s
          (record { same_results = refl; same_stats = refl }) in
      (h.same_results, h.same_stats)

  -- Where nginx still runs when it is looked at, the rounds of the baseline phase that return have
  -- recorded, as valid or as failed, exactly `num_runs` of them; rounds that are broken off have
  -- recorded at most so many.
  pub baseline_polled-records :
      (p : Proc) (s : Run (Book F) W)
      → let (r, s') = baseline_polled c p none s in
        Grew (recorded baseline s.book) c.num_runs c.num_runs r (recorded baseline s'.book)
  baseline_polled-records p s = (baseline_polled-Adds c p).at s

  -- Behind a preflight that was effective, the kernel phase records exactly `num_runs` rounds where it
  -- returns, and at most so many where it is broken off. Behind one that was not, for want of an event
  -- or for an error marker, it records exactly one failed attempt, at most one where it is broken off,
  -- and neither a value nor a valid run.
  pub kernel_preflighted-records :
      (x : Summary) (s : Run (Book F) W)
      → let n = if trace_is_effective x then c.num_runs else 1 in
        let (r, s') = kernel_preflighted c x s in
        Grew (recorded kernel_sslsniff s.book) n n r (recorded kernel_sslsniff s'.book)
        × Fruitless (trace_is_effective x) s.book s'.book
  kernel_preflighted-records x s =
      ((kernel_preflighted-Adds c x).at s, kernel_preflighted-Fruitless c x s)

  -- Every attempt of the bpftime phase that returns is recorded exactly once, as valid or as
  -- failed, and one that is broken off at most once.
  pub bpftime_attempt-records :
      (conf : Text) (k : ℕ) (s : Run (Book F) W)
      → let (r, s') = bpftime_attempt c conf k s in
        Grew (recorded bpftime_sslsniff s.book) 1 1 r (recorded bpftime_sslsniff s'.book)
  bpftime_attempt-records conf k s = (bpftime_attempt-Adds c conf k).at s

  -- A run of the bpftime phase breaks off its retries with one more valid value, or uses them up
  -- with none; one that raises has added one at most.
  pub bpftime_run-wins :
      (conf : Text) (s : Run (Book F) W)
      → let (r, s') = bpftime_run c conf s in Won (valid s.book) 1 r (valid s'.book)
  bpftime_run-wins conf s = (bpftime_run-Wins c conf).at s
