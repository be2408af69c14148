-- ===== src/SslNginx/Accounts/Consistent.antt =====
-- The accounts of a whole run of `main`.
use bpftime_benchmark.Prelude.{ℕ, refl, Bool, Option, none, some, List, [], ◌∷◌, not}
use bpftime_benchmark.Text.Base.{Text}
use bpftime_benchmark.Python.Exec.{Exn, timeout_expired, error, keyboard_interrupt, system_exit}
use bpftime_benchmark.Python.World.{World}
use bpftime_benchmark.Python.Rules.Keeps.{
  Keeps, Keeps-io, Keeps-if, Keeps-try, Keeps-finally, Keeps-bind, Keeps-pure, Keeps-raise,
  Keeps-gets, Keeps-modify,
}
use bpftime_benchmark.Python.Floats.{Floats}
use bpftime_benchmark.SslNginx.Book.{
  Config, TestName, baseline, kernel_sslsniff, bpftime_sslsniff, Book, initial_book,
}
use bpftime_benchmark.SslNginx.Main.{
  effective, set_targets, change_directory, find_directory, save_results, run_phase, run_named,
  result_key, run_benchmarks, judge, measure, check_then_measure, main_body, main_raised, main,
  benchmark_failed,
}
use bpftime_benchmark.SslNginx.Accounts.Invariant.{
  IsConsistent, Tally, mark_failed-IsConsistent, mark_retry-IsConsistent, mark_valid-IsConsistent,
}
use bpftime_benchmark.SslNginx.Accounts.Silent.{
  SeesAccounts, check_file_exists-Quiet, check_command_exists-Quiet, cleanup_processes-Quiet,
}
use bpftime_benchmark.SslNginx.Accounts.Phases.{
  Ledger, run_baseline-Keeps, run_kernel_sslsniff-Keeps,
}
use bpftime_benchmark.SslNginx.Accounts.Attempts.{run_bpftime_sslsniff-Keeps}

-- What every mark keeps, and what a change of the targets keeps.
pub record Kept {F : Floats} (W : World) (P : Book F → Type 0) : Type 0 where
  pub ledger : (t : TestName) → Ledger W t P
  pub targets : (n : ℕ) → Keeps {W = W} P (set_targets n)

module _ {F : Floats} {W : World} (P : Book F → Type 0) (c : Config) where
  -- A phase keeps what the marks of its own test keep.
  pub run_phase-Keeps : (t : TestName) → Ledger W t P → Keeps P (run_phase {F = F} {W = W} c t)
  run_phase-Keeps baseline l = run_baseline-Keeps P l c
  run_phase-Keeps kernel_sslsniff l = run_kernel_sslsniff-Keeps P l c
  run_phase-Keeps bpftime_sslsniff l = run_bpftime_sslsniff-Keeps P l c

module _ {F : Floats} {W : World} (P : Book F → Type 0) (k : Kept W P) where
  find_directory-Keeps : (script : Text) → Keeps P (find_directory {F = F} {W = W} script)
  unfolding find_directory change_directory
  find_directory-Keeps script = Keeps-bind _ _ (Keeps-io _) (λ here.
      Keeps-if here _ _ (Keeps-pure tt)
        (Keeps-bind _ _ (Keeps-io _) (λ full. Keeps-if _ _ _ (Keeps-io _) (Keeps-pure tt))))

  run_named-Keeps : (c : Config) (o : Option TestName) → Keeps P (run_named {F = F} {W = W} c o)
  run_named-Keeps c none = Keeps-raise _
  run_named-Keeps c (some t) = run_phase-Keeps P c t (k.ledger t)

  run_benchmarks-Keeps :
      (c : Config) (order : List Text) → Keeps P (run_benchmarks {F = F} {W = W} c order)
  unfolding run_benchmarks
  run_benchmarks-Keeps c [] = Keeps-pure tt
  run_benchmarks-Keeps c (name ∷ names) =
      Keeps-bind _ _ (run_named-Keeps c (result_key name)) (λ _. run_benchmarks-Keeps c names)

  measure-Keeps : (c : Config) → Keeps P (measure {F = F} {W = W} c)
  unfolding measure save_results judge
  measure-Keeps c = Keeps-bind _ _ (run_benchmarks-Keeps c c.bench_order) (λ _.
      Keeps-bind _ _ (Keeps-bind _ _ (Keeps-io _) (λ _. Keeps-io _)) (λ _.
        Keeps-bind _ _ (Keeps-gets _) (λ stats.
          Keeps-if (benchmark_failed c.bench_order stats) _ _ (Keeps-raise _) (Keeps-pure tt))))

  check_then_measure-Keeps :
      (c : Config) (script : Text) → Keeps P (check_then_measure {F = F} {W = W} c script)
  unfolding check_then_measure
  check_then_measure-Keeps c script =
      let look = check_file_exists-Quiet P ((k.ledger baseline).sees) in
      Keeps-bind _ _ (find_directory-Keeps script) (λ _. Keeps-bind _ _ (look _) (λ _.
        Keeps-bind _ _ (look _) (λ _. Keeps-bind _ _ (look _) (λ _.
          Keeps-bind _ _ (Keeps-io _) (λ found. Keeps-if (not found) _ _ (Keeps-pure tt) (
            Keeps-bind _ _ (check_command_exists-Quiet P ((k.ledger baseline).sees) _)
              (λ wrk_found. Keeps-if wrk_found _ _ (measure-Keeps c) (Keeps-pure tt))))))))

  main_body-Keeps : (c : Config) (script : Text) → Keeps P (main_body {F = F} {W = W} c script)
  unfolding main_body
  main_body-Keeps c script = Keeps-bind _ _ (k.targets _) (λ _.
      Keeps-bind _ _ (check_command_exists-Quiet P ((k.ledger baseline).sees) _)
        (λ found. Keeps-if found _ _ (check_then_measure-Keeps c script) (Keeps-pure tt)))

  main_raised-Keeps : (e : Exn) → Keeps P (main_raised {F = F} {W = W} e)
  unfolding main_raised
  main_raised-Keeps (timeout_expired t) = Keeps-pure tt
  main_raised-Keeps (error t) = Keeps-pure tt
  main_raised-Keeps keyboard_interrupt = Keeps-raise _
  main_raised-Keeps (system_exit n) = Keeps-raise _

  pub main-Keeps :
      (test : Bool) (script : Text) (c : Config) → Keeps P (main {F = F} {W = W} test script c)
  unfolding main
  main-Keeps test script c =
      Keeps-finally _ _
        (Keeps-try _ _ (main_body-Keeps (effective test c) script) main_raised-Keeps)
        (cleanup_processes-Quiet P ((k.ledger baseline).sees))

IsConsistent-SeesAccounts : {F : Floats} → SeesAccounts {F = F} (IsConsistent {F = F})
IsConsistent-SeesAccounts {F} = record {
  at = λ b b' e e' h. record { at = λ t. rw (e, e') ((h.at) t) };
}

IsConsistent-Ledger : {F : Floats} {W : World} (t : TestName) → Ledger W t (IsConsistent {F = F})
IsConsistent-Ledger t = record {
  sees = IsConsistent-SeesAccounts;
  failed = mark_failed-IsConsistent t;
  valid = mark_valid-IsConsistent t;
  retry = mark_retry-IsConsistent t;
}

IsConsistent-Kept : {F : Floats} {W : World} → Kept W (IsConsistent {F = F})
unfolding set_targets
IsConsistent-Kept = record {
  ledger = IsConsistent-Ledger;
  targets = λ n. Keeps-modify _ (λ b h. record {
    at = λ t. record {
      counted = (h.at t).counted;
      classified = (h.at t).classified;
      readiness = (h.at t).readiness;
      attach = (h.at t).attach;
    };
  });
}

pub initial_book-IsConsistent : (F : Floats) (c : Config) → IsConsistent {F = F} (initial_book F c)
unfolding initial_book
initial_book-IsConsistent F c = record { at = go }
  where
    go : (t : TestName) → Tally F t [] ((initial_book F c).run_stats t)
    go baseline = record { counted = refl; classified = refl; readiness = refl; attach = refl }
    go kernel_sslsniff = record {
      counted = refl;
      classified = refl;
      readiness = refl;
      attach = refl;
    }
    go bpftime_sslsniff = record {
      counted = refl;
      classified = refl;
      readiness = refl;
      attach = refl;
    }

-- Where `main` returns, and where it ends by an exception that a call of the system raises or by an
-- exit of its own, the accounts that it leaves are consistent: every test has as many values as valid
-- runs, and as many failed attempts as failures by reason. The exit by a signal that comes between two
-- statements is not among these ends.
pub main-IsConsistent :
    (F : Floats) (W : World) (test : Bool) (script : Text) (c : Config) (w : W.State)
    → IsConsistent {F = F}
        (main {F = F} {W = W} test script c (record { book = initial_book F c; world = w })).1.book
main-IsConsistent F W test script c w =
    (main-Keeps (IsConsistent {F = F}) IsConsistent-Kept test script c).at _
      (initial_book-IsConsistent F c)
