-- ===== src/SslNginx/Accounts/Frame.antt =====
-- A phase does not touch the accounts of another test.
use bpftime_benchmark.Prelude.{◌≡◌, true, false, List}
use bpftime_benchmark.Python.World.{World}
use bpftime_benchmark.Python.Rules.Keeps.{Keeps, Keeps-modify, Keeps-bind, Keeps-pure}
use bpftime_benchmark.Python.Floats.{Floats}
use bpftime_benchmark.SslNginx.Book.{
  Config, TestName, Stats, Book, same, append_result, mark_valid, mark_failed, mark_retry,
}
use bpftime_benchmark.SslNginx.Main.{run_phase}
use bpftime_benchmark.SslNginx.Accounts.Phases.{Ledger}
use bpftime_benchmark.SslNginx.Accounts.Consistent.{run_phase-Keeps}

-- The accounts of the test `u` are these.
pub record Holds {F : Floats} (u : TestName) (xs : List F.Float) (st : Stats) (b : Book F)
    : Type 0 where
  pub same_results : b.results u ≡ xs
  pub same_stats : b.run_stats u ≡ st

module _ {F : Floats} {W : World} (t u : TestName) (xs : List F.Float) (st : Stats)
    (other : same t u ≡ false) where
  Holds-Ledger : Ledger W t (Holds {F = F} u xs st)
  unfolding mark_failed append_result mark_valid mark_retry
  Holds-Ledger = record {
    sees = record {
      at = λ b b' e e' h. record {
        same_results = rw (e, h.same_results);
        same_stats = rw (e', h.same_stats);
      };
    };
    failed = λ r known.
        Keeps-modify _
          (λ b h. record { same_results = h.same_results; same_stats = rw other h.same_stats });
    valid = λ x.
        Keeps-bind _ _
          (Keeps-modify _
            (λ b h. record { same_results = rw other h.same_results; same_stats = h.same_stats }))
          (λ _.
            Keeps-bind _ _
              (Keeps-modify _ (λ b h. record {
                same_results = h.same_results;
                same_stats = rw other h.same_stats;
              }))
              (λ _. Keeps-pure true));
    retry =
        Keeps-modify _
          (λ b h. record { same_results = h.same_results; same_stats = rw other h.same_stats });
  }

  -- The phase of one test leaves the values and the numbers of another as they were, however it
  -- ends.
  pub run_phase-Holds : (c : Config) → Keeps (Holds {F = F} u xs st) (run_phase {F = F} {W = W} c t)
  run_phase-Holds c = run_phase-Keeps (Holds {F = F} u xs st) c t Holds-Ledger
