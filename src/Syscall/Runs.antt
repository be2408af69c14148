-- ===== src/Syscall/Runs.antt =====
-- The three measurements of benchmark/syscall/benchmark.py.
pub mod Bounds
use bpftime_benchmark.Prelude.{
  ℕ, not, ◌==◌, Bool, true, false, Option, none, some, List, [], ◌∷◌, ◌++◌, ◌⊎◌, inl, inr,
  if◌then◌else◌,
}
use bpftime_benchmark.Text.Base.{Text, codes, starts_with}
use bpftime_benchmark.Text.Scan.{Decimal, after_prefix, some_spaces, leading_digits, bind, or_else}
use bpftime_benchmark.Python.Exec.{
  Exec, Exn, pure, raise, gets, try_except, try_finally, on_exception, attempt, repeat, ◌>>=◌, ◌>>◌,
}
use bpftime_benchmark.Python.World.{World, Proc, Status, Command, failed}
use bpftime_benchmark.Python.Run.{Run, io, modify}
use bpftime_benchmark.Syscall.{Numerals, Guard, add_safe, cleanup}

-- `Average time usage\s+(\d+\.\d+)ns`, from the digits on.
abbrev pub nanoseconds_of : Text → Text → Text → Option Decimal
nanoseconds_of whole [] rest = none
nanoseconds_of whole (f ∷ fs) rest =
    if starts_with rest (codes "ns")
    then some (record { whole = whole; fraction = f ∷ fs })
    else none

abbrev pub nanoseconds_point : Text → Text → Option Decimal
nanoseconds_point [] rest = none
nanoseconds_point (d ∷ ds) [] = none
nanoseconds_point (d ∷ ds) (c ∷ rest) =
    if c == b'.'
    then nanoseconds_of (d ∷ ds) (leading_digits rest).0 (leading_digits rest).1
    else none

unfoldable pub nanoseconds : Text → Option Decimal
unfolding leading_digits starts_with
nanoseconds s = let (ds, rest) = leading_digits s in nanoseconds_point ds rest

unfoldable pub time_at : Text → Option Decimal
unfolding after_prefix some_spaces nanoseconds
time_at s =
    bind (after_prefix (codes "Average time usage") s) (λ t. bind (some_spaces t) nanoseconds)

unfoldable pub parse_average_time : Text → Option Decimal
unfolding time_at
parse_average_time [] = time_at []
parse_average_time (c ∷ s) = let later = parse_average_time s in or_else (time_at (c ∷ s)) later

pub data Kind : Type 0 where
  native_runs kernel_runs userspace_runs : Kind

-- `results[k].append(x)`.
abbrev pub push_time : Kind → Decimal → Guard → Guard
push_time native_runs x g = record g { native = g.native ++ x ∷ [] }
push_time kernel_runs x g = record g { kernel_tracepoint = g.kernel_tracepoint ++ x ∷ [] }
push_time userspace_runs x g = record g { userspace_syscall = g.userspace_syscall ++ x ∷ [] }

-- The paths of the configuration, the arguments of the cleanup, `NUM_RUNS`, and whether a time that
-- was read counts as true.
pub record Setup : Type 0 where
  pub num_runs : ℕ
  pub victim : Text
  pub syscall_bpf : Text
  pub agent : Text
  pub transformer : Text
  pub syscall_server : Text
  pub bpftime : Text
  pub script_name : Text
  pub leftovers : List Text
  pub truthy : Decimal → Bool

abbrev pub command : List Text → Option Text → Option ℕ → Command
command argv preload timeout = record { argv = argv; preload = preload; timeout = timeout }

abbrev pub any_time : List Decimal → Bool
any_time [] = false
any_time (x ∷ xs) = true

module _ {W : World} (N : Numerals) (u : Setup) where
  abbrev pub clean : Exec (Run Guard W) (Unit {0})
  clean = cleanup N u.script_name u.leftovers

  -- A time that is missing or zero is not kept.
  unfoldable pub keep_time : Kind → Option Decimal → Exec (Run Guard W) (Unit {0})
  keep_time k none = pure tt
  keep_time k (some x) = if u.truthy x then modify (push_time k x) else pure tt

  -- One round of each loop: the victim, started in one way or another.
  unfoldable pub measure_once : Kind → Command → Exec (Run Guard W) (Unit {0})
  measure_once k cmd =
      try_except
        (do
          result ← io W (W.run cmd)
          if failed result.returncode
              then pure tt
              else keep_time k (parse_average_time result.stdout))
        (on_exception λ _. clean)

  abbrev pub measure_all : Kind → Command → Exec (Run Guard W) (Unit {0})
  measure_all k cmd = repeat u.num_runs 0 (λ i. measure_once k cmd)

  unfoldable pub run_native : Exec (Run Guard W) (Unit {0})
  run_native = measure_all native_runs (command (u.victim ∷ []) none (some 60))

  unfoldable pub stop_running : Proc → Option Status → Exec (Run Guard W) (Unit {0})
  stop_running proc (some _) = pure tt
  stop_running proc none = do
    io W (W.terminate proc)
    try_except (io W (W.wait proc 5)) (λ e. io W (W.kill proc))

  -- The `finally` block of the kernel run.
  unfoldable pub kernel_finally : Proc → Exec (Run Guard W) (Unit {0})
  kernel_finally proc = do ended ← io W (W.poll proc); stop_running proc ended; clean

  unfoldable pub kernel_measured : Proc → Exec (Run Guard W) (Unit {0})
  kernel_measured proc = do
    add_safe N proc
    io W (W.sleep 2000)
    measure_all kernel_runs (command (u.victim ∷ []) none (some 60))

  unfoldable pub kernel_begun : Exn ⊎ Proc → Exec (Run Guard W) (Unit {0})
  kernel_begun (inl e) = try_finally (raise e) clean
  kernel_begun (inr proc) = try_finally (kernel_measured proc) (kernel_finally proc)

  unfoldable pub run_kernel_tracepoint : Exec (Run Guard W) (Unit {0})
  run_kernel_tracepoint = do
    started ← attempt (io W (W.popen (command (u.syscall_bpf ∷ []) none none)))
    kernel_begun started

  unfoldable pub unload : Exec (Run Guard W) (Unit {0})
  unload =
      try_except
        (do
          result ← io W (W.run (command (u.bpftime ∷ codes "unload" ∷ []) none (some 10)))
          if failed result.returncode then clean else pure tt)
        (on_exception λ _. clean)

  -- What follows a successful `bpftime load`; the result says whether the function returns.
  unfoldable pub loaded : Exec (Run Guard W) Bool
  loaded = do
    io W (W.sleep 2000)
    measure_all userspace_runs
        (command (u.bpftime ∷ codes "start" ∷ codes "-s" ∷ u.victim ∷ []) none (some 60))
    unload
    times ← gets (λ s. s.book.userspace_syscall)
    pure (any_time times)

  unfoldable pub with_bpftime : Exec (Run Guard W) Bool
  with_bpftime =
      try_except
        (do
          result ←
              io W (W.run (command (u.bpftime ∷ codes "load" ∷ u.syscall_bpf ∷ []) none (some 10)))
          if failed result.returncode then pure false else loaded)
        (on_exception λ _. clean >> pure false)

  abbrev pub files_found : Exec (Run Guard W) Bool
  files_found = do
    server ← io W (W.exists u.syscall_server)
    if not server then pure false else do
      agent ← io W (W.exists u.agent)
      if not agent then pure false else io W (W.exists u.transformer)

  -- Up to the start of the server; the result says whether it is to be started.
  unfoldable pub prepared : Exec (Run Guard W) Bool
  prepared = do
    found ← io W (W.exists u.bpftime)
    finished ← (if found then with_bpftime else pure false)
    if finished then pure false else files_found

  unfoldable pub served_polled : Option Status → Exec (Run Guard W) (Unit {0})
  served_polled (some _) = pure tt
  served_polled none = do
    io W (W.sleep 2000)
    measure_all userspace_runs (command (u.victim ∷ []) (some u.transformer) (some 60))

  unfoldable pub served : Proc → Exec (Run Guard W) (Unit {0})
  served proc = do
    add_safe N proc
    io W (W.sleep 1000)
    ended ← io W (W.poll proc)
    served_polled ended

  -- The `finally` block of the userspace run.
  unfoldable pub userspace_finally : Proc → Exec (Run Guard W) (Unit {0})
  userspace_finally proc = do
    ended ← io W (W.poll proc)
    try_except (stop_running proc ended) (on_exception λ _. pure tt)
    clean

  unfoldable pub server_begun : Exn ⊎ Proc → Exec (Run Guard W) (Unit {0})
  server_begun (inl e) = try_finally (on_exception (λ _. pure tt) e) clean
  server_begun (inr proc) =
      try_finally (try_except (served proc) (on_exception λ _. pure tt)) (userspace_finally proc)

  unfoldable pub userspace_prepared : Exn ⊎ Bool → Exec (Run Guard W) (Unit {0})
  userspace_prepared (inl e) = try_finally (raise e) clean
  userspace_prepared (inr false) = try_finally (pure tt) clean
  userspace_prepared (inr true) = do
    started ← attempt (io W (W.popen (command (u.syscall_bpf ∷ []) (some u.syscall_server) none)))
    server_begun started

  unfoldable pub run_userspace_syscall : Exec (Run Guard W) (Unit {0})
  run_userspace_syscall = do ready ← attempt prepared; userspace_prepared ready
