-- ===== src/Syscall/Runs/Bounds.antt =====
-- How many times a measurement keeps.
use bpftime_benchmark.Prelude.{
  ℕ, ◌+◌, ◌≡◌, ◌≤◌, ◌++◌, refl, sym, ap, ◌∙◌, append_assoc, append-nil, Bool, true, false, Option,
  none, some, List, [], ◌∷◌, ◌⊎◌, inl, inr, arith, length, length-append, ◌&&◌,
}
use bpftime_benchmark.Text.Base.{Text, codes, contains}
use bpftime_benchmark.Text.Lines.{strip}
use bpftime_benchmark.Text.Scan.{Decimal}
use bpftime_benchmark.Python.Exec.{Exec, Exn, attempt}
use bpftime_benchmark.Python.World.{World, Proc, Status, Command, failed}
use bpftime_benchmark.Python.Run.{Run}
use bpftime_benchmark.Python.Rules.Keeps.{
  Keeps, Keeps-pure, Keeps-io, Keeps-gets, Keeps-raise, Keeps-if, Keeps-bind, Keeps-try,
  Keeps-finally, Keeps-on_exception, Keeps-for_each, Keeps-modify, Keeps-repeat,
}
use bpftime_benchmark.Python.Rules.AtMost.{
  AtMost, Between, AtMost-mono, AtMost-return, AtMost-io, AtMost-if, AtMost-try, AtMost-raise,
  AtMost-on_exception, AtMost-after, AtMost-finally, AtMost-modify, AtMost-repeat, AtMost-Keeps,
}
use bpftime_benchmark.Syscall.{
  Numerals, Guard, mem, add_safe, or_value_error, kill_unless_script, kill_unless_safe, kill_found,
  kill_named, set_cleaning, cleanup_body, cleanup,
}
use bpftime_benchmark.Syscall.Runs.{
  Kind, native_runs, kernel_runs, userspace_runs, push_time, Setup, keep_time, measure_once,
  measure_all, run_native, stop_running, kernel_finally, kernel_measured, kernel_begun,
  run_kernel_tracepoint, clean,
}

-- What a property of the globals does not look at.
pub record SeesTimes (P : Guard → Type 0) : Type 0 where
  pub safely : (g : Guard) (qs : List ℕ) → P g → P (record g { safe = qs })
  pub cleanly : (g : Guard) (b : Bool) → P g → P (record g { cleaning = b })

module _ {W : World} (N : Numerals) (P : Guard → Type 0) (sees : SeesTimes P) where
  add_safe-Keeps : (pid : ℕ) → Keeps {W = W} P (add_safe N pid)
  unfolding add_safe
  add_safe-Keeps pid = Keeps-modify _ (λ g h. sees.safely g _ h)

  set_cleaning-Keeps : (b : Bool) → Keeps {W = W} P (set_cleaning N b)
  unfolding set_cleaning
  set_cleaning-Keeps b = Keeps-modify _ (λ g h. sees.cleanly g b h)

  kill_unless_script-Keeps :
      (script_name pid : Text) → Keeps {W = W} P (kill_unless_script N script_name pid)
  unfolding kill_unless_script
  kill_unless_script-Keeps script_name pid = Keeps-bind _ _ (Keeps-io _) (λ r.
      Keeps-if (contains (strip r.stdout) script_name && contains (strip r.stdout) (codes "python"))
        _ _ (Keeps-pure tt) (Keeps-bind _ _ (Keeps-io _) (λ _. Keeps-pure tt)))

  or_value_error-Keeps : (o : Option ℕ) → Keeps {W = W} P (or_value_error N o)
  or_value_error-Keeps none = Keeps-raise _
  or_value_error-Keeps (some n) = Keeps-pure n

  kill_unless_safe-Keeps :
      (script_name pid : Text) → Keeps {W = W} P (kill_unless_safe N script_name pid)
  unfolding kill_unless_safe
  kill_unless_safe-Keeps script_name pid = Keeps-bind _ _ (or_value_error-Keeps (N.int pid)) (λ n.
      Keeps-bind _ _ (Keeps-gets _) (λ safe.
        Keeps-if (mem n safe) _ _ (Keeps-pure tt) (kill_unless_script-Keeps script_name pid)))

  kill_named-Keeps : (script_name name : Text) → Keeps {W = W} P (kill_named N script_name name)
  unfolding kill_named kill_found
  kill_named-Keeps script_name name =
      Keeps-try _ _
        (Keeps-bind _ _ (Keeps-io _) (λ r. Keeps-for_each _ _ (λ pid.
          Keeps-try _ _ (kill_unless_safe-Keeps script_name pid)
            (λ e. Keeps-on_exception _ e (λ _. Keeps-pure tt)))))
        (λ e. Keeps-on_exception _ e (λ _. Keeps-pure tt))

  cleanup_body-Keeps :
      (script_name : Text) (names : List Text) → Keeps {W = W} P (cleanup_body N script_name names)
  unfolding cleanup_body
  cleanup_body-Keeps script_name names = Keeps-bind _ _ (set_cleaning-Keeps true) (λ _.
      Keeps-bind _ _ (Keeps-io _) (λ current. Keeps-bind _ _ (add_safe-Keeps current) (λ _.
        Keeps-bind _ _
          (Keeps-try _ _ (Keeps-bind _ _ (Keeps-io _) add_safe-Keeps) (λ e. Keeps-pure tt))
          (λ _.
            Keeps-bind _ _ (Keeps-for_each names _ (kill_named-Keeps script_name))
              (λ _. Keeps-io _)))))

  -- The cleanup leaves the times alone.
  pub cleanup-Keeps :
      (script_name : Text) (names : List Text) → Keeps {W = W} P (cleanup N script_name names)
  unfolding cleanup
  cleanup-Keeps script_name names = Keeps-bind _ _ (Keeps-gets _) (λ cleaning.
      Keeps-if cleaning _ _ (Keeps-pure tt) (
        Keeps-finally _ _
          (Keeps-try _ _ (cleanup_body-Keeps script_name names)
            (λ e. Keeps-on_exception _ e (λ _. Keeps-pure tt)))
          (set_cleaning-Keeps false)))

-- The times that are kept of one kind.
abbrev pub kept : Kind → Guard → ℕ
kept native_runs g = length g.native
kept kernel_runs g = length g.kernel_tracepoint
kept userspace_runs g = length g.userspace_syscall

kept-SeesTimes : (k : Kind) (n : ℕ) → SeesTimes (λ g. kept k g ≡ n)
kept-SeesTimes native_runs n = record { safely = λ g qs h. h; cleanly = λ g b h. h }
kept-SeesTimes kernel_runs n = record { safely = λ g qs h. h; cleanly = λ g b h. h }
kept-SeesTimes userspace_runs n = record { safely = λ g qs h. h; cleanly = λ g b h. h }

push_time-kept : (k : Kind) (x : Decimal) (g : Guard) → kept k (push_time k x g) ≡ kept k g + 1
push_time-kept native_runs x g = omega (arith, length-append g.native (x ∷ []))
push_time-kept kernel_runs x g = omega (arith, length-append g.kernel_tracepoint (x ∷ []))
push_time-kept userspace_runs x g = omega (arith, length-append g.userspace_syscall (x ∷ []))

module _ {W : World} (N : Numerals) (u : Setup) (k : Kind) where
  clean-AtMost : AtMost {W = W} (kept k) 0 (clean N u)
  clean-AtMost = AtMost-Keeps _ (λ n. cleanup-Keeps N _ (kept-SeesTimes k n) _ _)

  keep_time-AtMost : (x : Option Decimal) → AtMost {W = W} (kept k) 1 (keep_time N u k x)
  unfolding keep_time
  keep_time-AtMost none = AtMost-return tt
  keep_time-AtMost (some x) =
      AtMost-if (u.truthy x) _ _ (AtMost-modify _ (λ g. omega (arith, push_time-kept k x g)))
        (AtMost-return tt)

  measure_once-AtMost : (cmd : Command) → AtMost {W = W} (kept k) 1 (measure_once N u k cmd)
  unfolding measure_once
  measure_once-AtMost cmd =
      AtMost-mono _
        (AtMost-try {k = 0} _ _
          (AtMost-after _ _ (AtMost-io _)
            (λ r. AtMost-if (failed r.returncode) _ _ (AtMost-return tt) (keep_time-AtMost _)))
          (λ e. AtMost-on_exception _ e (λ _. clean-AtMost)))
        (omega arith)

  measure_all-AtMost : (cmd : Command) → AtMost {W = W} (kept k) u.num_runs (measure_all N u k cmd)
  measure_all-AtMost cmd =
      AtMost-mono _ (AtMost-repeat u.num_runs 0 _ (λ i. measure_once-AtMost cmd)) (omega arith)

  stop_running-AtMost :
      (p : Proc) (e : Option Status) → AtMost {W = W} (kept k) 0 (stop_running N u p e)
  unfolding stop_running
  stop_running-AtMost p (some x) = AtMost-return tt
  stop_running-AtMost p none =
      AtMost-after _ _ (AtMost-io _)
        (λ _. AtMost-try {j = 0} {k = 0} _ _ (AtMost-io _) (λ e. AtMost-io _))

  add_safe-AtMost : (pid : ℕ) → AtMost {W = W} (kept k) 0 (add_safe N pid)
  add_safe-AtMost pid = AtMost-Keeps _ (λ n. add_safe-Keeps N _ (kept-SeesTimes k n) pid)

module _ {W : World} (N : Numerals) (u : Setup) where
  kernel_begun-AtMost :
      (r : Exn ⊎ Proc) → AtMost {W = W} (kept kernel_runs) u.num_runs (kernel_begun N u r)
  unfolding kernel_begun kernel_measured kernel_finally
  kernel_begun-AtMost (inl e) =
      AtMost-mono _ (AtMost-finally _ _ (AtMost-raise e) (clean-AtMost N u kernel_runs))
        (omega arith)
  kernel_begun-AtMost (inr p) =
      AtMost-mono _
        (AtMost-finally _ _
          (AtMost-after _ _ (add_safe-AtMost N u kernel_runs p)
            (λ _. AtMost-after _ _ (AtMost-io _) (λ _. measure_all-AtMost N u kernel_runs _)))
          (AtMost-after _ _ (AtMost-io _) (λ e.
            AtMost-after _ _ (stop_running-AtMost N u kernel_runs p e)
              (λ _. clean-AtMost N u kernel_runs))))
        (omega arith)

-- The times of one kind.
abbrev pub times : Kind → Guard → List Decimal
times native_runs g = g.native
times kernel_runs g = g.kernel_tracepoint
times userspace_runs g = g.userspace_syscall

-- Times have been put behind those that there were.
abbrev pub Extends : Kind → List Decimal → Guard → Type 0
Extends k xs g = (ys : List Decimal) × (times k g ≡ xs ++ ys)

-- At most so many.
abbrev pub ExtendsBy : Kind → ℕ → Guard → Guard → Type 0
ExtendsBy k n g g' = (ys : List Decimal) × (times k g' ≡ times k g ++ ys) × (length ys ≤ n)

Extends-SeesTimes : (k : Kind) (xs : List Decimal) → SeesTimes (Extends k xs)
Extends-SeesTimes native_runs xs = record { safely = λ g qs h. h; cleanly = λ g b h. h }
Extends-SeesTimes kernel_runs xs = record { safely = λ g qs h. h; cleanly = λ g b h. h }
Extends-SeesTimes userspace_runs xs = record { safely = λ g qs h. h; cleanly = λ g b h. h }

times-push_time :
    (k : Kind) (x : Decimal) (g : Guard) → times k (push_time k x g) ≡ times k g ++ x ∷ []
times-push_time native_runs x g = refl
times-push_time kernel_runs x g = refl
times-push_time userspace_runs x g = refl

push_time-Extends :
    (k : Kind) (xs : List Decimal) (x : Decimal) (g : Guard)
    → Extends k xs g
    → Extends k xs (push_time k x g)
push_time-Extends k xs x g (ys, e) =
    (ys ++ x ∷ [], times-push_time k x g ∙ ap (λ zs. zs ++ x ∷ []) e ∙ append_assoc xs ys (x ∷ []))

kept-times : (k : Kind) (g : Guard) → kept k g ≡ length (times k g)
kept-times native_runs g = refl
kept-times kernel_runs g = refl
kept-times userspace_runs g = refl

-- What keeps the times there are, and adds so many at most, puts them behind those.
ExtendsBy-intro :
    (k : Kind) (n : ℕ) (g g' : Guard)
    → Extends k (times k g) g'
    → Between (kept k g) n (kept k g')
    → ExtendsBy k n g g'
ExtendsBy-intro k n g g' (ys, e) b = (
  ys,
  e,
  omega (arith, b, kept-times k g, kept-times k g', ap length e, length-append (times k g) ys),
)

module _ {W : World} (N : Numerals) (u : Setup) (k : Kind) (xs : List Decimal) where
  abbrev Kept : {A : Type 0} → Exec (Run Guard W) A → Type 0
  Kept m = Keeps (Extends k xs) m

  clean-Kept : Kept (clean N u)
  clean-Kept = cleanup-Keeps N _ (Extends-SeesTimes k xs) _ _

  keep_time-Kept : (x : Option Decimal) → Kept (keep_time N u k x)
  unfolding keep_time
  keep_time-Kept none = Keeps-pure tt
  keep_time-Kept (some x) =
      Keeps-if (u.truthy x) _ _ (Keeps-modify _ (λ g h. push_time-Extends k xs x g h))
        (Keeps-pure tt)

  measure_once-Kept : (cmd : Command) → Kept (measure_once N u k cmd)
  unfolding measure_once
  measure_once-Kept cmd =
      Keeps-try _ _
        (Keeps-bind _ _ (Keeps-io _)
          (λ r. Keeps-if (failed r.returncode) _ _ (Keeps-pure tt) (keep_time-Kept _)))
        (λ e. Keeps-on_exception _ e (λ _. clean-Kept))

  measure_all-Kept : (cmd : Command) → Kept (measure_all N u k cmd)
  measure_all-Kept cmd = Keeps-repeat u.num_runs 0 _ (λ i. measure_once-Kept cmd)

  stop_running-Kept : (p : Proc) (e : Option Status) → Kept (stop_running N u p e)
  unfolding stop_running
  stop_running-Kept p (some x) = Keeps-pure tt
  stop_running-Kept p none =
      Keeps-bind _ _ (Keeps-io _) (λ _. Keeps-try _ _ (Keeps-io _) (λ e. Keeps-io _))

module _ {W : World} (N : Numerals) (u : Setup) (xs : List Decimal) where
  kernel_begun-Kept : (r : Exn ⊎ Proc) → Kept {W = W} N u kernel_runs xs (kernel_begun N u r)
  unfolding kernel_begun kernel_measured kernel_finally
  kernel_begun-Kept (inl e) = Keeps-finally _ _ (Keeps-raise e) (clean-Kept N u kernel_runs xs)
  kernel_begun-Kept (inr p) =
      Keeps-finally _ _
        (Keeps-bind _ _ (add_safe-Keeps N _ (Extends-SeesTimes kernel_runs xs) p)
          (λ _. Keeps-bind _ _ (Keeps-io _) (λ _. measure_all-Kept N u kernel_runs xs _)))
        (Keeps-bind _ _ (Keeps-io _) (λ e.
          Keeps-bind _ _ (stop_running-Kept N u kernel_runs xs p e)
            (λ _. clean-Kept N u kernel_runs xs)))

-- The native measurement, however it ends, leaves the times that were kept before where they are, and
-- puts at most one for each run behind them.
pub run_native_bound :
    (W : World) (N : Numerals) (u : Setup) (s : Run Guard W)
    → ExtendsBy native_runs u.num_runs s.book (run_native N u s).1.book
unfolding run_native
run_native_bound W N u s =
    ExtendsBy-intro native_runs u.num_runs s.book (run_native N u s).1.book
      ((measure_all-Kept N u native_runs s.book.native _).at s ([], sym (append-nil _)))
      ((measure_all-AtMost N u native_runs _).at s)

-- The kernel measurement, however it ends, leaves the times that were kept before where they are, and
-- puts at most one for each run behind them.
pub run_kernel_tracepoint_bound :
    (W : World) (N : Numerals) (u : Setup) (s : Run Guard W)
    → ExtendsBy kernel_runs u.num_runs s.book (run_kernel_tracepoint N u s).1.book
unfolding run_kernel_tracepoint attempt
run_kernel_tracepoint_bound W N u s =
    ExtendsBy-intro kernel_runs u.num_runs s.book (run_kernel_tracepoint N u s).1.book
      ((Keeps-bind _ _
          (Keeps-try _ _ (Keeps-bind _ _ (Keeps-io _) (λ _. Keeps-pure _)) (λ e. Keeps-pure _))
          (kernel_begun-Kept N u s.book.kernel_tracepoint)).at
        s ([], sym (append-nil _)))
      ((AtMost-after _ _
          (AtMost-Keeps _ (λ n.
            Keeps-try _ _ (Keeps-bind _ _ (Keeps-io _) (λ _. Keeps-pure _)) (λ e. Keeps-pure _)))
          (kernel_begun-AtMost N u)).at
        s)
