-- ===== src/Syscall/Spares.antt =====
-- The cleanup kills no process that is safe when it begins.
use bpftime_benchmark.Prelude.{
  ℕ, ◌≡◌, ◌&&◌, Bool, true, false, none, some, List, [], ◌∷◌, arith, Bool-cases, Option-cases,
  if◌then◌else◌, ◌⊎◌, inl, inr,
}
use bpftime_benchmark.Text.Base.{Text, codes, contains}
use bpftime_benchmark.Text.Lines.{strip}
use bpftime_benchmark.Python.Exec.{
  Exec, Exn, timeout_expired, error, keyboard_interrupt, system_exit, Result, ok, raised, pure,
  raise, gets, try_except, try_finally, on_exception, recover, continue, for_each, ◌>>=◌,
}
use bpftime_benchmark.Python.World.{World}
use bpftime_benchmark.Python.Run.{Run, io, modify}
use bpftime_benchmark.Syscall.{
  Numerals, Guard, mem, add_safe, ps_command, sudo_kill, pgrep_exact, kill_unless_script,
  kill_unless_safe, kill_found, kill_named, set_cleaning, cleanup_body, cleanup,
}

-- A property of the world that outlives all calls of the cleanup but `sudo kill -9` of a process in
-- the list.
pub record Outlives (W : World) (N : Numerals) (spared : List ℕ) (Q : W.State → Type 0)
    : Type 0 where
  pub asks_name : (name : Text) (w : W.State) → Q w → Q (W.run (pgrep_exact name) w).1
  pub asks_command : (pid : Text) (w : W.State) → Q w → Q (W.run (ps_command pid) w).1
  pub kills_other :
      (pid : Text) (n : ℕ)
      → N.int pid ≡ some n
      → mem n spared ≡ false
      → (w : W.State) → Q w
      → Q (W.run (sudo_kill pid) w).1
  pub asks_self : (w : W.State) → Q w → Q (W.getpid w).1
  pub asks_parent : (w : W.State) → Q w → Q (W.getppid w).1
  pub sleeps : (n : ℕ) (w : W.State) → Q w → Q (W.sleep n w).1

module _ {W : World} (N : Numerals) (spared : List ℕ) (Q : W.State → Type 0)
    (outlives : Outlives W N spared Q) where
  -- The property holds, and the spared ones are safe.
  record Holds (s : Run Guard W) : Type 0 where
    holds : Q s.world
    guards : (n : ℕ) → mem n s.book.safe ≡ false → mem n spared ≡ false

  record Spares {A : Type 0} (m : Exec (Run Guard W) A) : Type 0 where
    go : (s : Run Guard W) → Holds s → Holds (m s).1

  Spares-pure : {A : Type 0} (a : A) → Spares (pure a)
  unfolding pure
  Spares-pure a = record { go = λ s h. h }

  Spares-raise : {A : Type 0} (e : Exn) → Spares {A = A} (raise e)
  unfolding raise
  Spares-raise e = record { go = λ s h. h }

  Spares-io :
      {A : Type 0} (m : Exec W.State A) → ((w : W.State) → Q w → Q (m w).1) → Spares (io W m)
  unfolding io
  Spares-io m k = record { go = λ s h. record { holds = k s.world h.holds; guards = h.guards } }

  Spares-bind :
      {A C : Type 0} (m : Exec (Run Guard W) A) (f : A → Exec (Run Guard W) C)
      → Spares m
      → ((a : A) → Spares (f a))
      → Spares (m >>= f)
  unfolding ◌>>=◌
  Spares-bind {A} {C} m f hm hf = record { go = λ s h. next (m s).0 (m s).1 (hm.go s h) }
    where
      next : (r : Result A) (s : Run Guard W) → Holds s → Holds (continue r f s).1
      next (ok a) s h = (hf a).go s h
      next (raised e) s h = h

  Spares-try :
      {A : Type 0} (m : Exec (Run Guard W) A) (handler : Exn → Exec (Run Guard W) A)
      → Spares m
      → ((e : Exn) → Spares (handler e))
      → Spares (try_except m handler)
  unfolding try_except
  Spares-try {A} m handler hm hh = record { go = λ s h. next (m s).0 (m s).1 (hm.go s h) }
    where
      next : (r : Result A) (s : Run Guard W) → Holds s → Holds (recover r handler s).1
      next (ok a) s h = h
      next (raised e) s h = (hh e).go s h

  Spares-swallow : (e : Exn) → Spares (on_exception (λ _. pure tt) e)
  unfolding on_exception
  Spares-swallow (timeout_expired t) = Spares-pure tt
  Spares-swallow (error t) = Spares-pure tt
  Spares-swallow keyboard_interrupt = Spares-raise keyboard_interrupt
  Spares-swallow (system_exit n) = Spares-raise (system_exit n)

  Spares-for_each :
      (xs : List Text) (body : Text → Exec (Run Guard W) (Unit {0}))
      → ((x : Text) → Spares (body x))
      → Spares (for_each xs body)
  unfolding for_each
  Spares-for_each [] body k = Spares-pure tt
  Spares-for_each (x ∷ xs) body k = Spares-bind (body x) _ (k x) (λ _. Spares-for_each xs body k)

  Spares-if :
      {A : Type 0} (b : Bool) (m n : Exec (Run Guard W) A)
      → Spares m
      → Spares n
      → Spares (if b then m else n)
  Spares-if true m n hm hn = hm
  Spares-if false m n hm hn = hn

  -- The list only grows.
  add_safe-Spares : (pid : ℕ) → Spares (add_safe N pid)
  unfolding add_safe modify mem
  add_safe-Spares pid = record {
    go = λ s h. record { holds = h.holds; guards = λ n e. h.guards n (ground arith) };
  }

  set_cleaning-Spares : (b : Bool) → Spares (set_cleaning N b)
  unfolding set_cleaning modify
  set_cleaning-Spares b = record { go = λ s h. record { holds = h.holds; guards = h.guards } }

  kill_unless_script-Spares :
      (script_name pid : Text) (n : ℕ)
      → N.int pid ≡ some n
      → mem n spared ≡ false
      → Spares (kill_unless_script N script_name pid)
  unfolding kill_unless_script
  kill_unless_script-Spares script_name pid n e f =
      Spares-bind _ _ (Spares-io _ (outlives.asks_command pid)) (λ r.
        Spares-if
          (contains (strip r.stdout) script_name && contains (strip r.stdout) (codes "python")) _ _
          (Spares-pure tt)
          (Spares-bind _ _ (Spares-io _ (outlives.kills_other pid n e f)) (λ _. Spares-pure tt)))

  kill_unless_safe-Spares : (script_name pid : Text) → Spares (kill_unless_safe N script_name pid)
  unfolding kill_unless_safe gets pure raise ◌>>=◌
  kill_unless_safe-Spares script_name pid = record {
    go = λ s h. split s h (Option-cases (N.int pid));
  }
    where
      split :
          (s : Run Guard W)
          → Holds s
          → (N.int pid ≡ none) ⊎ ((n : ℕ) × (N.int pid ≡ some n))
          → Holds (kill_unless_safe N script_name pid s).1
      split s h (inl bad) = rw bad h
      split s h (inr (n, e)) = elim (Bool-cases (mem n s.book.safe)) [
        | inl safe ↦ rw (e, safe) h
        | inr other ↦
            rw (e, other)
              ((kill_unless_script-Spares script_name pid n e (h.guards n other)).go s h)
      ]

  kill_found-Spares : (script_name pid : Text) → Spares (kill_found N script_name pid)
  unfolding kill_found
  kill_found-Spares script_name pid =
      Spares-try _ _ (kill_unless_safe-Spares script_name pid) Spares-swallow

  kill_named-Spares : (script_name name : Text) → Spares (kill_named N script_name name)
  unfolding kill_named
  kill_named-Spares script_name name =
      Spares-try _ _
        (Spares-bind _ _ (Spares-io _ (outlives.asks_name name))
          (λ r. Spares-for_each _ _ (kill_found-Spares script_name)))
        Spares-swallow

  cleanup_body-Spares :
      (script_name : Text) (names : List Text) → Spares (cleanup_body N script_name names)
  unfolding cleanup_body
  cleanup_body-Spares script_name names = Spares-bind _ _ (set_cleaning-Spares true) (λ _.
      Spares-bind _ _ (Spares-io _ outlives.asks_self) (λ current.
        Spares-bind _ _ (add_safe-Spares current) (λ _.
          Spares-bind _ _
            (Spares-try _ _ (Spares-bind _ _ (Spares-io _ outlives.asks_parent) add_safe-Spares)
              (λ e. Spares-pure tt))
            (λ _.
              Spares-bind _ _ (Spares-for_each names _ (kill_named-Spares script_name))
                (λ _. Spares-io _ (outlives.sleeps 1000))))))

  Spares-finally :
      {A C : Type 0} (m : Exec (Run Guard W) A) (fin : Exec (Run Guard W) C)
      → Spares m
      → Spares fin
      → Spares (try_finally m fin)
  unfolding try_finally
  Spares-finally m fin hm hf = record { go = λ s h. hf.go (m s).1 (hm.go s h) }

  cleanup-Spares : (script_name : Text) (names : List Text) → Spares (cleanup N script_name names)
  unfolding cleanup gets ◌>>=◌
  cleanup-Spares script_name names = record {
    go = λ s h.
        (Spares-if s.book.cleaning _ _ (Spares-pure tt) (
            Spares-finally _ _
              (Spares-try _ _ (cleanup_body-Spares script_name names) Spares-swallow)
              (set_cleaning-Spares false))).go
          s h;
  }

-- Whatever outlives every call of the cleanup but a `sudo kill -9` of a process that is safe when it
-- begins, outlives the cleanup, however it ends: it kills none of them.
pub cleanup_spares :
    (W : World) (N : Numerals) (Q : W.State → Type 0) (s : Run Guard W) (script_name : Text)
    (names : List Text)
    → Outlives W N s.book.safe Q
    → Q s.world
    → Q (cleanup N script_name names s).1.world
cleanup_spares W N Q s script_name names outlives q =
    ((cleanup-Spares N s.book.safe Q outlives script_name names).go s
      (record { holds = q; guards = λ n e. e })).holds
