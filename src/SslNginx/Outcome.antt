-- ===== src/SslNginx/Outcome.antt =====
-- What it means that the measurements of `main` end without an exception.
use bpftime_benchmark.Prelude.{
  ℕ, ◌≡◌, ◌≤◌, refl, ◌∷◌, Bool, true, false, Option, none, some, List, [], arith, if◌then◌else◌,
}
use bpftime_benchmark.Text.Base.{Text}
use bpftime_benchmark.Python.Exec.{
  Exec, error, timeout_expired, keyboard_interrupt, Result, ok, raised, recover, settle,
  system_exit, pure, raise, gets, continue, try_except, try_finally, ◌>>=◌,
}
use bpftime_benchmark.Python.World.{World}
use bpftime_benchmark.Python.Run.{Run}
use bpftime_benchmark.Python.Floats.{Floats}
use bpftime_benchmark.SslNginx.Book.{
  Config, TestName, baseline, kernel_sslsniff, bpftime_sslsniff, Stats, Book,
}
use bpftime_benchmark.SslNginx.Process.{cleanup_processes}
use bpftime_benchmark.SslNginx.Phase.{run_baseline, run_kernel_sslsniff}
use bpftime_benchmark.SslNginx.Bpftime.{run_bpftime_sslsniff}
use bpftime_benchmark.SslNginx.Main.{
  result_key, is_active, falls_short, benchmark_failed, run_phase, run_named, run_benchmarks,
  save_results, judge, measure, effective, main_body, main_raised, main, exit_status,
}

module _ {S A C : Type 0} where
  -- A sequence returns only if its first part does.
  bind_ok :
      (m : Exec S A) (f : A → Exec S C) (s : S) (c : C)
      → ((m >>= f) s).0 ≡ ok c
      → (a : A) × ((m s).0 ≡ ok a) × ((m >>= f) s ≡ f a (m s).1)
  unfolding ◌>>=◌
  bind_ok m f s c h = go (m s).0 (m s).1 h
    where
      go :
          (r : Result A) (s' : S)
          → (continue r f s').0 ≡ ok c
          → (a : A) × (r ≡ ok a) × (continue r f s' ≡ f a s')
      go (ok a) s' e = (a, refl, refl)
      go (raised x) s' e = cc

not_short :
    (order : List Text) (stats : TestName → Stats) (t : TestName)
    → falls_short order stats t ≡ false
    → is_active order t ≡ true
    → (stats t).target_runs ≤ (stats t).valid_runs
unfolding falls_short
not_short order stats t h active = ground arith

-- Where `benchmark_failed` is false, every active test has the valid runs that it asks for.
pub benchmark_failed-false :
    (order : List Text) (stats : TestName → Stats)
    → benchmark_failed order stats ≡ false
    → (t : TestName) → is_active order t ≡ true
    → (stats t).target_runs ≤ (stats t).valid_runs
unfolding benchmark_failed
benchmark_failed-false order stats h baseline = not_short order stats baseline (ground arith)
benchmark_failed-false order stats h kernel_sslsniff =
    not_short order stats kernel_sslsniff (ground arith)
benchmark_failed-false order stats h bpftime_sslsniff =
    not_short order stats bpftime_sslsniff (ground arith)

module _ {F : Floats} {W : World} (c : Config) where
  judge_ok :
      (s : Run (Book F) W)
      → (judge {F = F} {W = W} c s).0 ≡ ok tt
      → (benchmark_failed c.bench_order s.book.run_stats ≡ false)
        × ((judge {F = F} {W = W} c s).1 ≡ s)
  unfolding judge gets raise pure ◌>>=◌
  judge_ok s h = go (benchmark_failed c.bench_order s.book.run_stats) h
    where
      go :
          (b : Bool)
          → ((if b then raise (system_exit 1) else pure tt) s).0 ≡ ok tt
          → (b ≡ false) × (((if b then raise (system_exit 1) else pure tt) s).1 ≡ s)
      go true e = cc
      go false e = (refl, refl)

  -- The phase of a test has returned, and has taken one state to the other.
  abbrev pub Returned : TestName → Run (Book F) W → Run (Book F) W → Type 0
  Returned baseline s s' = run_baseline c s ≡ (ok tt, s')
  Returned kernel_sslsniff s s' = run_kernel_sslsniff c s ≡ (ok tt, s')
  Returned bpftime_sslsniff s s' = run_bpftime_sslsniff c s ≡ (ok tt, s')

  -- One phase after the other has returned, as the names ask for them.
  pub data PhasesRan : List Text → Run (Book F) W → Run (Book F) W → Type 0 where
    none_left : (s : Run (Book F) W) → PhasesRan [] s s
    phase_ran :
        (name : Text) (names : List Text) (t : TestName) (s s' s'' : Run (Book F) W)
        → result_key name ≡ some t
        → Returned t s s'
        → PhasesRan names s' s''
        → PhasesRan (name ∷ names) s s''

  phase_Returned :
      (t : TestName) (s : Run (Book F) W)
      → (run_phase {F = F} {W = W} c t s).0 ≡ ok tt
      → Returned t s (run_phase c t s).1
  phase_Returned baseline s h = λ i. (h i, (run_baseline c s).1)
  phase_Returned kernel_sslsniff s h = λ i. (h i, (run_kernel_sslsniff c s).1)
  phase_Returned bpftime_sslsniff s h = λ i. (h i, (run_bpftime_sslsniff c s).1)

  named_Returned :
      (o : Option TestName) (s : Run (Book F) W)
      → (run_named {F = F} {W = W} c o s).0 ≡ ok tt
      → (t : TestName) × (o ≡ some t) × Returned t s (run_named c o s).1
  unfolding raise
  named_Returned none s h = cc
  named_Returned (some t) s h = (t, refl, phase_Returned t s h)

  run_benchmarks-PhasesRan :
      (names : List Text) (s : Run (Book F) W)
      → (run_benchmarks {F = F} {W = W} c names s).0 ≡ ok tt
      → PhasesRan names s (run_benchmarks c names s).1
  unfolding run_benchmarks pure
  run_benchmarks-PhasesRan [] s h = none_left s
  run_benchmarks-PhasesRan (name ∷ names) s h =
      let (a, e, e') = bind_ok (run_named c (result_key name)) _ s tt h in
      let s' = (run_named {F = F} {W = W} c (result_key name) s).1 in
      let (t, known, returned) = named_Returned (result_key name) s e in
      let later = run_benchmarks-PhasesRan names s' (rw e' at h) in
      rw e' (phase_ran name names t s s' (run_benchmarks c names s').1 known returned later)

-- Measurements that return without an exception have run the phase of every name in the order, one
-- after the other, each of which has returned; the results have been saved then; and every test asked
-- for has as many valid runs as it was to have.
pub measure_ok :
    (F : Floats) (W : World) (c : Config) (s : Run (Book F) W)
    → (measure c s).0 ≡ ok tt
    → (t : TestName) → is_active c.bench_order t ≡ true
    → let stats = (measure c s).1.book.run_stats in
      (s1 : Run (Book F) W) × PhasesRan c c.bench_order s s1
      × (save_results s1 ≡ (ok tt, (measure c s).1))
      × ((stats t).target_runs ≤ (stats t).valid_runs)
unfolding measure
measure_ok F W c s h t active =
    let s1 = (run_benchmarks {F = F} {W = W} c c.bench_order s).1 in
    let s2 = (save_results {F = F} {W = W} s1).1 in
    let (a, e, e') = bind_ok (run_benchmarks {F = F} {W = W} c c.bench_order) _ s tt h in
    let (b, f, f') = bind_ok (save_results {F = F} {W = W}) (λ _. judge c) s1 tt (rw e' at h) in
    let judged : (judge {F = F} {W = W} c s2).0 ≡ ok tt = rw (e', f') at h in
    let (fine, same_state) = judge_ok c s2 judged in
    (
      s1,
      run_benchmarks-PhasesRan c c.bench_order s e,
      rw (e', f', same_state) (λ i. (f i, s2)),
      rw (e', f', same_state)
          (benchmark_failed-false c.bench_order s2.book.run_stats fine t active),
    )

-- The status of a script whose body and cleanup end as given: an exception of the cleanup takes the
-- place of what came before it; of those of the body only an interrupt and an exit show.
abbrev pub status_of : Result (Unit {0}) → Result (Unit {0}) → ℕ
status_of r (raised (system_exit n)) = n
status_of r (raised keyboard_interrupt) = 130
status_of r (raised (error e)) = 1
status_of r (raised (timeout_expired e)) = 1
status_of (raised (system_exit n)) (ok a) = n
status_of (raised keyboard_interrupt) (ok a) = 130
status_of (raised (error e)) (ok a) = 0
status_of (raised (timeout_expired e)) (ok a) = 0
status_of (ok b) (ok a) = 0

-- An exception of the cleanup takes the place of what came before it.
by_cleanup :
    (q r : Result (Unit {0}))
    → exit_status q ≡ status_of r (ok tt)
    → (f : Result (Unit {0})) → exit_status (settle q f) ≡ status_of r f
unfolding exit_status
by_cleanup q r h (ok tt) = h
by_cleanup q r h (raised (system_exit n)) = refl
by_cleanup q r h (raised keyboard_interrupt) = refl
by_cleanup q r h (raised (error e)) = refl
by_cleanup q r h (raised (timeout_expired e)) = refl

-- However the body of `main` and the cleanup behind it end, the status of the script is this: that of
-- an exception of the cleanup if there is one; otherwise the one that the body exits with, 130 for a
-- `KeyboardInterrupt`, and 0 for every other exception, which does not show, as where there is none.
pub exit_status-main :
    (F : Floats) (W : World) (test : Bool) (script : Text) (c : Config) (s : Run (Book F) W)
    → let (r, s') = main_body {F = F} {W = W} (effective test c) script s in
      exit_status (main test script c s).0 ≡ status_of r (cleanup_processes s').0
unfolding main main_raised exit_status try_except try_finally pure raise
exit_status-main F W test script c s =
    go (main_body (effective test c) script s).0 (main_body (effective test c) script s).1
  where
    go :
        (r : Result (Unit {0})) (s' : Run (Book F) W)
        → let (q, s'') = recover r main_raised s' in
          exit_status (settle q (cleanup_processes s'').0) ≡ status_of r (cleanup_processes s').0
    go (ok a) s' = by_cleanup (ok a) (ok a) refl (cleanup_processes s').0
    go (raised (error e)) s' = by_cleanup (ok tt) (raised (error e)) refl (cleanup_processes s').0
    go (raised (timeout_expired e)) s' =
        by_cleanup (ok tt) (raised (timeout_expired e)) refl (cleanup_processes s').0
    go (raised keyboard_interrupt) s' =
        by_cleanup (raised (system_exit 130)) (raised keyboard_interrupt) refl
          (cleanup_processes s').0
    go (raised (system_exit n)) s' =
        by_cleanup (raised (system_exit n)) (raised (system_exit n)) refl (cleanup_processes s').0
