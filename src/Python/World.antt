-- ===== src/Python/World.antt =====
-- The operating system as the scripts see it: processes, files and time are operations on an
-- unknown state, and each may raise. Nothing is assumed of them here.
use bpftime_benchmark.Prelude.{ℕ, zero, suc, Bool, true, false, Option, none, List}
use bpftime_benchmark.Text.Base.{Text}
use bpftime_benchmark.Python.Exec.{Exec}

-- An exit status: `signaled n` is the status -(n + 1).
pub data Status : Type 0 where
  exited signaled : ℕ → Status

-- `returncode != 0`.
abbrev pub failed : Status → Bool
failed (exited zero) = false
failed (exited (suc n)) = true
failed (signaled n) = true

-- A command line with the `LD_PRELOAD` and the timeout in seconds that it is started with, if any.
pub record Command : Type 0 where
  pub argv : List Text
  pub preload : Option Text
  pub timeout : Option ℕ

-- A command with neither.
abbrev pub plain : List Text → Command
plain argv = record { argv = argv; preload = none; timeout = none }

pub record Completed : Type 0 where
  pub returncode : Status
  pub stdout : Text
  pub stderr : Text

-- A process that `Popen` has started, by its process number.
abbrev pub Proc : Type 0
Proc = ℕ

pub record World : Type 1 where
  pub State : Type 0
  -- `subprocess.run` and `subprocess.Popen`.
  pub run : Command → Exec State Completed
  pub popen : Command → Exec State Proc
  -- Methods of a process; the timeouts are in seconds.
  pub poll : Proc → Exec State (Option Status)
  pub returncode : Proc → Exec State (Option Status)
  pub communicate : Proc → Option ℕ → Exec State (Text × Text)
  pub terminate : Proc → Exec State (Unit {0})
  pub kill : Proc → Exec State (Unit {0})
  pub wait : Proc → ℕ → Exec State (Unit {0})
  -- `time.time()` and `time.sleep`, in milliseconds.
  pub time : Exec State ℕ
  pub sleep : ℕ → Exec State (Unit {0})
  -- `os.path.abspath`, `os.path.exists`, `os.remove` and `os.chdir`.
  pub abspath : Text → Exec State Text
  pub exists : Text → Exec State Bool
  pub remove : Text → Exec State (Unit {0})
  pub chdir : Text → Exec State (Unit {0})
  -- `open(path, 'w')` with what is written to the file.
  pub write_file : Text → Exec State (Unit {0})
  -- `datetime.now().strftime("%Y%m%d_%H%M%S")`.
  pub timestamp : Exec State Text
  -- `os.getpid()`, `os.getppid()` and `os.getpgid(0)`.
  pub getpid : Exec State ℕ
  pub getppid : Exec State ℕ
  pub getpgid : Exec State ℕ
