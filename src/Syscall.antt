-- ===== src/Syscall.antt =====
-- benchmark/syscall/benchmark.py: the processes that its cleanup must spare, and the cleanup.
pub mod Climb
pub mod Spares
pub mod Runs
use bpftime_benchmark.Prelude.{
  ℕ, zero, suc, ◌==◌, ◌&&◌, ◌||◌, not, Bool, true, false, Option, none, some, List, [], ◌∷◌, ◌⊎◌,
  inl, inr, if◌then◌else◌,
}
use bpftime_benchmark.Text.Base.{Text, codes, contains}
use bpftime_benchmark.Text.Lines.{strip, words}
use bpftime_benchmark.Text.Scan.{Decimal}
use bpftime_benchmark.Python.Exec.{
  Exec, Exn, error, pure, raise, gets, try_except, try_finally, on_exception, attempt, for_each,
  ◌>>=◌, ◌>>◌,
}
use bpftime_benchmark.Python.World.{World, Command, plain}
use bpftime_benchmark.Python.Run.{Run, io, modify}

-- `str(n)`, and `int(s)` where it does not raise; a process number is no negative one.
pub record Numerals : Type 0 where
  pub str : ℕ → Text
  pub int : Text → Option ℕ

-- `_cleanup_in_progress`, `_safe_pids` and `results`, whose times are kept as they are read.
pub record Guard : Type 0 where
  pub cleaning : Bool
  pub safe : List ℕ
  pub native : List Decimal
  pub kernel_tracepoint : List Decimal
  pub userspace_syscall : List Decimal

unfoldable pub mem : ℕ → List ℕ → Bool
mem p [] = false
mem p (q ∷ qs) = p == q || mem p qs

unfoldable pub ps_parent : Numerals → ℕ → Command
ps_parent N pid = record {
  argv = codes "ps" ∷ codes "-o" ∷ codes "ppid=" ∷ codes "-p" ∷ N.str pid ∷ [];
  preload = none;
  timeout = some 3;
}

unfoldable pub ps_command : Text → Command
ps_command pid = plain (codes "ps" ∷ codes "-p" ∷ pid ∷ codes "-o" ∷ codes "cmd=" ∷ [])

unfoldable pub sudo_kill : Text → Command
sudo_kill pid = plain (codes "sudo" ∷ codes "kill" ∷ codes "-9" ∷ pid ∷ [])

abbrev pub pgrep_exact : Text → Command
pgrep_exact name = record {
  argv = codes "pgrep" ∷ codes "-x" ∷ name ∷ [];
  preload = none;
  timeout = some 3;
}

module _ {W : World} (N : Numerals) where
  unfoldable pub add_safe : ℕ → Exec (Run Guard W) (Unit {0})
  add_safe pid = modify λ g. record g { safe = pid ∷ g.safe }

  abbrev pub or_value_error : Option ℕ → Exec (Run Guard W) ℕ
  or_value_error none = raise (error (codes "ValueError"))
  or_value_error (some n) = pure n

  -- `int(s)`.
  abbrev pub to_int : Text → Exec (Run Guard W) ℕ
  to_int s = or_value_error (N.int s)

  -- `int(parent_output) if parent_output else 0`.
  unfoldable pub read_parent : Text → Exec (Run Guard W) ℕ
  read_parent [] = pure 0
  read_parent (c ∷ s) = to_int (c ∷ s)

  unfoldable pub parent_of : ℕ → Exec (Run Guard W) ℕ
  parent_of pid = do result ← io W (W.run (ps_parent N pid)); read_parent (strip result.stdout)

  -- `except: break`, which takes every exception.
  abbrev pub climb_on : Exn ⊎ ℕ → (ℕ → Exec (Run Guard W) Bool) → Exec (Run Guard W) Bool
  climb_on (inl e) go = pure true
  climb_on (inr parent) go = go parent

  -- The loop from a process to its ancestors; `false` means that the fuel ran out.
  unfoldable pub climb : ℕ → ℕ → Exec (Run Guard W) Bool
  climb zero pid = pure false
  climb (suc fuel) pid =
      let go = climb fuel in
      do
        safe ← gets (λ s. s.book.safe)
        if pid == 0 || mem pid safe
            then pure true
            else do add_safe pid; parent ← attempt (parent_of pid); climb_on parent go

  unfoldable pub add_group : Exec (Run Guard W) (Unit {0})
  add_group = try_except (do pgid ← io W W.getpgid; add_safe pgid) (λ e. pure tt)

  unfoldable pub add_found : Text → Exec (Run Guard W) (Unit {0})
  add_found pid = try_except (do n ← to_int pid; add_safe n) (λ e. pure tt)

  -- Every process that runs a script of this name with Python; the argument is the command that
  -- looks for them.
  unfoldable pub add_scripts : Command → Exec (Run Guard W) (Unit {0})
  add_scripts pgrep_scripts =
      try_except
        (do result ← io W (W.run pgrep_scripts); for_each (words (strip result.stdout)) add_found)
        (λ e. pure tt)

  -- `init_safe_pids`, whose loop has the fuel `limit + 1`.
  unfoldable pub init_safe_pids : ℕ → Command → Exec (Run Guard W) (Unit {0})
  init_safe_pids limit pgrep_scripts = do
    current ← io W W.getpid
    climb (suc limit) current
    add_group
    add_scripts pgrep_scripts

  -- A process that looks like the benchmark script is skipped.
  unfoldable pub kill_unless_script : Text → Text → Exec (Run Guard W) (Unit {0})
  kill_unless_script script_name pid = do
    result ← io W (W.run (ps_command pid))
    let proc_cmd = strip result.stdout
    if contains proc_cmd script_name && contains proc_cmd (codes "python")
        then pure tt
        else (io W (W.run (sudo_kill pid)) >> pure tt)

  unfoldable pub kill_unless_safe : Text → Text → Exec (Run Guard W) (Unit {0})
  kill_unless_safe script_name pid = do
    n ← to_int pid
    safe ← gets (λ s. s.book.safe)
    if mem n safe then pure tt else kill_unless_script script_name pid

  unfoldable pub kill_found : Text → Text → Exec (Run Guard W) (Unit {0})
  kill_found script_name pid =
      try_except (kill_unless_safe script_name pid) (on_exception λ _. pure tt)

  unfoldable pub kill_named : Text → Text → Exec (Run Guard W) (Unit {0})
  kill_named script_name name =
      try_except
        (do
          result ← io W (W.run (pgrep_exact name))
          for_each (words (strip result.stdout)) (kill_found script_name))
        (on_exception λ _. pure tt)

  unfoldable pub set_cleaning : Bool → Exec (Run Guard W) (Unit {0})
  set_cleaning b = modify λ g. record g { cleaning = b }

  -- The body of the outer `try`; the names are those of the victim, of syscall and of bpftime.
  unfoldable pub cleanup_body : Text → List Text → Exec (Run Guard W) (Unit {0})
  cleanup_body script_name names = do
    set_cleaning true
    current ← io W W.getpid
    add_safe current
    try_except (do parent ← io W W.getppid; add_safe parent) (λ e. pure tt)
    for_each names (kill_named script_name)
    io W (W.sleep 1000)

  -- A cleanup that is under way is not begun again.
  unfoldable pub cleanup : Text → List Text → Exec (Run Guard W) (Unit {0})
  cleanup script_name names = do
    cleaning ← gets (λ s. s.book.cleaning)
    if cleaning
        then pure tt
        else try_finally (try_except (cleanup_body script_name names) (on_exception λ _. pure tt))
            (set_cleaning false)
