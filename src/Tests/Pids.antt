-- ===== src/Tests/Pids.antt =====
-- The processes that benchmark/syscall/benchmark.py spares, on the stage.
use bpftime_benchmark.Prelude.{
  ℕ, ◌<◌, ◌≡◌, ◌≢◌, refl, Bool, true, false, Option, none, some, List, [], ◌∷◌, ◌==◌, if◌then◌else◌,
  arith,
}
use bpftime_benchmark.Text.Base.{Text, codes, text_eq}
use bpftime_benchmark.Text.Lines.{strip}
use bpftime_benchmark.Python.Exec.{ok}
use bpftime_benchmark.Python.World.{World, exited}
use bpftime_benchmark.Python.Run.{Run}
use bpftime_benchmark.Syscall.{Numerals, Guard, climb, cleanup, mem, pgrep_exact, ps_command}
use bpftime_benchmark.Syscall.Spares.{Outlives, cleanup_spares}
use bpftime_benchmark.Syscall.Runs.{
  Setup, native_runs, kernel_runs, run_native, run_kernel_tracepoint,
}
use bpftime_benchmark.Syscall.Runs.Bounds.{ExtendsBy, run_native_bound, run_kernel_tracepoint_bound}
use bpftime_benchmark.Syscall.Climb.{IsBounded, climb_terminates}
use bpftime_benchmark.Tests.Stage.{stage}

-- One digit.
abbrev one_digit : Text → Option ℕ
one_digit [] = none
one_digit (c ∷ t) = if c == b'3' then some 3 else none

abbrev numerals : Numerals
numerals = record { str = λ n. b'3' ∷ []; int = one_digit }

one_digit-small : (t : Text) (n : ℕ) → one_digit t ≡ some n → n < 10
one_digit-small [] n h = cc
one_digit-small (c ∷ t) n h = ground arith

bounded : IsBounded stage numerals 10
bounded = record {
  positive = omega arith;
  reported = λ pid w r n e h. one_digit-small (strip r.stdout) n h;
}

guarded : Run Guard stage
guarded = record {
  book = record {
    cleaning = false;
    safe = 1 ∷ [];
    native = [];
    kernel_tracepoint = [];
    userspace_syscall = [];
  };
  world = 0;
}

climb_terminates_example : (climb numerals 11 7 guarded).0 ≢ ok false
climb_terminates_example = climb_terminates stage numerals 10 bounded 7 guarded (omega arith)

-- A stage whose state is whether process 3 is alive; it is found under every name.
abbrev is_kill : List Text → Bool
is_kill (a ∷ b ∷ c) = text_eq b (codes "kill")
is_kill args = false

abbrev lone_stage : World
lone_stage = record {
  State = Bool;
  run = λ c w. (
    ok (record { returncode = exited 0; stdout = b'3' ∷ []; stderr = [] }),
    if is_kill c.argv then false else w,
  );
  popen = λ c w. (ok 1, w);
  poll = λ p w. (ok none, w);
  returncode = λ p w. (ok (some (exited 0)), w);
  communicate = λ p t w. (ok ([], []), w);
  terminate = λ p w. (ok tt, w);
  kill = λ p w. (ok tt, w);
  wait = λ p t w. (ok tt, w);
  time = λ w. (ok 0, w);
  sleep = λ n w. (ok tt, w);
  abspath = λ p w. (ok p, w);
  exists = λ p w. (ok true, w);
  remove = λ p w. (ok tt, w);
  chdir = λ p w. (ok tt, w);
  write_file = λ p w. (ok tt, w);
  timestamp = λ w. (ok [], w);
  getpid = λ w. (ok 7, w);
  getppid = λ w. (ok 1, w);
  getpgid = λ w. (ok 7, w);
}

abbrev IsAlive : Bool → Type 0
IsAlive w = w ≡ true

one_digit-three : (t : Text) (n : ℕ) → one_digit t ≡ some n → n ≡ 3
one_digit-three [] n h = cc
one_digit-three (c ∷ t) n h = ground arith

outlives : Outlives lone_stage numerals (3 ∷ []) IsAlive
unfolding pgrep_exact ps_command text_eq mem
outlives = record {
  asks_name = λ name w q. q;
  asks_command = λ pid w q. q;
  kills_other = λ pid n e f w q. let three : n ≡ 3 = one_digit-three pid n e in cc (rw three at f);
  asks_self = λ w q. q;
  asks_parent = λ w q. q;
  sleeps = λ n w q. q;
}

abbrev lone : Run Guard lone_stage
lone = record {
  book = record {
    cleaning = false;
    safe = 3 ∷ [];
    native = [];
    kernel_tracepoint = [];
    userspace_syscall = [];
  };
  world = true;
}

cleanup_spares_example :
    IsAlive (cleanup numerals (codes "benchmark.py") (codes "victim" ∷ []) lone).1.world
cleanup_spares_example =
    cleanup_spares lone_stage numerals IsAlive lone (codes "benchmark.py") (codes "victim" ∷ [])
      outlives refl

abbrev setup : Setup
setup = record {
  num_runs = 2;
  victim = codes "victim";
  syscall_bpf = codes "syscall";
  agent = codes "agent.so";
  transformer = codes "transformer.so";
  syscall_server = codes "server.so";
  bpftime = codes "bpftime";
  script_name = codes "benchmark.py";
  leftovers = codes "victim" ∷ [];
  truthy = λ d. true;
}

run_native_bound_example :
    ExtendsBy native_runs 2 guarded.book (run_native numerals setup guarded).1.book
run_native_bound_example = run_native_bound stage numerals setup guarded

run_kernel_tracepoint_bound_example :
    ExtendsBy kernel_runs 2 guarded.book (run_kernel_tracepoint numerals setup guarded).1.book
run_kernel_tracepoint_bound_example = run_kernel_tracepoint_bound stage numerals setup guarded
