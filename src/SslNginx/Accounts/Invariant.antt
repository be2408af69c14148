-- ===== src/SslNginx/Accounts/Invariant.antt =====
-- The invariant of `results` and `run_stats`, and the two functions that write to them.
use bpftime_benchmark.Prelude.{
  ℕ, ◌+◌, ◌≡◌, Bool, true, false, Option, none, some, List, [], ◌∷◌, ◌++◌, arith, length,
  length-append,
}
use bpftime_benchmark.Python.Exec.{pure, ◌>>=◌, ◌>>◌}
use bpftime_benchmark.Python.World.{World}
use bpftime_benchmark.Python.Run.{modify}
use bpftime_benchmark.Python.Rules.Keeps.{Keeps}
use bpftime_benchmark.Python.Floats.{Floats}
use bpftime_benchmark.SslNginx.Book.{
  TestName, baseline, kernel_sslsniff, bpftime_sslsniff, Reason, readiness_failures,
  attach_failures, Stats, Book, update, add_valid, add_failed, add_retry, append_result, mark_valid,
  mark_failed, mark_retry,
}

abbrev pub or_zero : Option ℕ → ℕ
or_zero none = 0
or_zero (some n) = n

-- The sum of the failures by reason.
abbrev pub breakdown : Stats → ℕ
breakdown s =
    s.timeouts
    + s.parse_failures
    + s.wrk_failures
    + s.exceptions
    + or_zero s.readiness_failures
    + or_zero s.attach_failures

-- The reasons that the dict of a test has.
abbrev pub counts_reason : TestName → Reason → Bool
counts_reason bpftime_sslsniff r = true
counts_reason t readiness_failures = false
counts_reason baseline attach_failures = false
counts_reason _ _ = true

abbrev pub is_some {ℓ} : {A : Type ℓ} → Option A → Bool
is_some none = false
is_some (some a) = true

pub record Tally (F : Floats) (t : TestName) (xs : List F.Float) (s : Stats) : Type 0 where
  pub counted : length xs ≡ s.valid_runs
  pub classified : s.failed_attempts ≡ breakdown s
  pub readiness : is_some s.readiness_failures ≡ counts_reason t readiness_failures
  pub attach : is_some s.attach_failures ≡ counts_reason t attach_failures

-- Every valid run has its value, and every failure its reason.
pub record IsConsistent {F : Floats} (b : Book F) : Type 0 where
  pub at : (t : TestName) → Tally F t (b.results t) (b.run_stats t)

-- A property of all keys of two dicts outlives a write to both that has it at its own.
pub update_all {ℓ κ μ} :
    {V : Type ℓ} {X : Type κ} (P : TestName → V → X → Type μ) (d : TestName → V) (e : TestName → X)
    (t : TestName) (v : V) (x : X)
    → ((u : TestName) → P u (d u) (e u))
    → P t v x
    → (u : TestName) → P u (update d t v u) (update e t x u)
update_all P d e baseline v x h hv baseline = hv
update_all P d e baseline v x h hv kernel_sslsniff = h kernel_sslsniff
update_all P d e baseline v x h hv bpftime_sslsniff = h bpftime_sslsniff
update_all P d e kernel_sslsniff v x h hv baseline = h baseline
update_all P d e kernel_sslsniff v x h hv kernel_sslsniff = hv
update_all P d e kernel_sslsniff v x h hv bpftime_sslsniff = h bpftime_sslsniff
update_all P d e bpftime_sslsniff v x h hv baseline = h baseline
update_all P d e bpftime_sslsniff v x h hv kernel_sslsniff = h kernel_sslsniff
update_all P d e bpftime_sslsniff v x h hv bpftime_sslsniff = hv

-- To write back what a key has changes nothing.
update_self {ℓ κ} :
    {V : Type ℓ} (P : V → Type κ) (d : TestName → V) (t u : TestName)
    → P (update d t (d t) u)
    → P (d u)
update_self P d baseline baseline h = h
update_self P d baseline kernel_sslsniff h = h
update_self P d baseline bpftime_sslsniff h = h
update_self P d kernel_sslsniff baseline h = h
update_self P d kernel_sslsniff kernel_sslsniff h = h
update_self P d kernel_sslsniff bpftime_sslsniff h = h
update_self P d bpftime_sslsniff baseline h = h
update_self P d bpftime_sslsniff kernel_sslsniff h = h
update_self P d bpftime_sslsniff bpftime_sslsniff h = h

module _ {F : Floats} where
  Tally-add_failed :
      (t : TestName) (r : Reason) (xs : List F.Float) (s : Stats)
      → counts_reason t r ≡ true
      → Tally F t xs s
      → Tally F t xs (add_failed r s)
  unfolding add_failed
  Tally-add_failed t r xs s known h = ground arith

  Tally-add_retry :
      (t : TestName) (xs : List F.Float) (s : Stats) → Tally F t xs s → Tally F t xs (add_retry s)
  unfolding add_retry
  Tally-add_retry t xs s h = record {
    counted = h.counted;
    classified = h.classified;
    readiness = h.readiness;
    attach = h.attach;
  }

  Tally-add_valid :
      (t : TestName) (x : F.Float) (xs : List F.Float) (s : Stats)
      → Tally F t xs s
      → Tally F t (xs ++ x ∷ []) (add_valid s)
  unfolding add_valid
  Tally-add_valid t x xs s h = record {
    counted = omega (arith, h.counted, length-append xs (x ∷ []));
    classified = h.classified;
    readiness = h.readiness;
    attach = h.attach;
  }

-- One test's numbers change, and its list of values does not.
Tally-set_stats :
    {F : Floats} (b : Book F) (t : TestName) (v : Stats)
    → IsConsistent b
    → Tally F t (b.results t) v
    → (u : TestName) → Tally F u (b.results u) (update b.run_stats t v u)
Tally-set_stats {F} b t v h k u =
    update_self (λ xs. Tally F u xs (update b.run_stats t v u)) b.results t u
      (update_all (λ w xs s. Tally F w xs s) b.results b.run_stats t (b.results t) v h.at k u)

module _ {F : Floats} {W : World} where
  pub mark_failed-IsConsistent :
      (t : TestName) (r : Reason)
      → counts_reason t r ≡ true
      → Keeps {W = W} (IsConsistent {F = F}) (mark_failed t r)
  unfolding mark_failed modify
  mark_failed-IsConsistent t r known = record {
    at = λ s h. record {
      at = Tally-set_stats s.book t _ h (Tally-add_failed t r _ _ known (h.at t));
    };
  }

  pub mark_retry-IsConsistent : (t : TestName) → Keeps {W = W} (IsConsistent {F = F}) (mark_retry t)
  unfolding mark_retry modify
  mark_retry-IsConsistent t = record {
    at = λ s h. record { at = Tally-set_stats s.book t _ h (Tally-add_retry t _ _ (h.at t)) };
  }

  -- A value and its mark go together.
  pub mark_valid-IsConsistent :
      (t : TestName) (x : F.Float)
      → Keeps {W = W}
          (IsConsistent {F = F})
          (append_result {F = F} t x >> (mark_valid t >> pure true))
  unfolding append_result mark_valid modify pure ◌>>=◌
  mark_valid-IsConsistent t x = record {
    at = λ s h. record {
      at =
          update_all (λ u xs v. Tally F u xs v) s.book.results s.book.run_stats t _ _ h.at
            (Tally-add_valid t x _ _ (h.at t));
    };
  }
