-- ===== src/SslNginx/Bpftime.antt =====
-- `run_bpftime_sslsniff`: nginx and sslsniff are started anew for every attempt.
use bpftime_benchmark.Prelude.{
  ℕ, zero, suc, ◌+◌, not, Bool, true, false, Option, none, some, ◌∷◌, ◌⊎◌, inl, inr, if◌then◌else◌,
}
use bpftime_benchmark.Text.Base.{Text, codes}
use bpftime_benchmark.Python.Exec.{
  Exec, Exn, pure, raise, try_except, try_finally, on_exception, on_timeout, attempt, for_range,
  repeat, ◌>>=◌, ◌>>◌,
}
use bpftime_benchmark.Python.World.{World, Proc, Status, Command}
use bpftime_benchmark.Python.Run.{Run, io}
use bpftime_benchmark.Python.Floats.{Floats}
use bpftime_benchmark.SslNginx.Book.{
  Config, bpftime_sslsniff, timeouts, readiness_failures, attach_failures, exceptions, Summary,
  Book, mark_failed, mark_retry,
}
use bpftime_benchmark.SslNginx.Trace.{
  curl, terminate_process, summarize, trace_is_effective, mark_trace_preflight_failed,
}
use bpftime_benchmark.SslNginx.Process.{
  remove_access_log, check_file_exists, cleanup_processes, score,
}
use bpftime_benchmark.SslNginx.Ready.{wait_for_nginx_ready}
use bpftime_benchmark.SslNginx.Phase.{nginx_conf, sslsniff_path, nginx_argv, wrk}

unfoldable pub agent_path : Text
agent_path = codes "build/runtime/agent/libbpftime-agent.so"

unfoldable pub syscall_server_path : Text
syscall_server_path = codes "build/runtime/syscall-server/libbpftime-syscall-server.so"

unfoldable pub bpftime_command : Config → Command
unfolding sslsniff_path syscall_server_path
bpftime_command c = record {
  argv = sslsniff_path ∷ c.sslsniff_args;
  preload = some syscall_server_path;
  timeout = none;
}

-- nginx inside the agent; the argument is the absolute path of nginx.conf.
unfoldable pub nginx_in_agent : Text → Command
unfolding nginx_argv agent_path
nginx_in_agent conf = record { argv = nginx_argv conf; preload = some agent_path; timeout = none }

module _ {F : Floats} {W : World} where
  -- The `finally` block of the preflight.
  unfoldable pub preflight_cleanup : Option Proc → Option Proc → Exec (Run (Book F) W) (Unit {0})
  preflight_cleanup nginx sslsniff = do
    terminate_process nginx
    terminate_process sslsniff
    cleanup_processes

  abbrev pub stop_some : Option Proc → Exec (Run (Book F) W) (Unit {0})
  stop_some none = pure tt
  stop_some (some proc) = io W (W.terminate proc) >> io W (W.wait proc 5)

  -- The `finally` block of an attempt.
  unfoldable pub attempt_cleanup : Option Proc → Option Proc → Exec (Run (Book F) W) (Unit {0})
  attempt_cleanup nginx sslsniff = do
    try_except (stop_some nginx) (on_exception λ _. pure tt)
    terminate_process sslsniff
    cleanup_processes

  -- The handlers of an attempt, which does not count then.
  unfoldable pub attempt_raised : Exn → Exec (Run (Book F) W) Bool
  attempt_raised =
      on_timeout (mark_failed bpftime_sslsniff timeouts >> pure false)
        (mark_failed bpftime_sslsniff exceptions >> pure false)

  -- `if retry > 0`.
  abbrev pub note_retry : ℕ → Exec (Run (Book F) W) (Unit {0})
  note_retry zero = pure tt
  note_retry (suc k) = mark_retry bpftime_sslsniff

module _ {F : Floats} {W : World} (c : Config) (conf : Text) where
  -- The steps of the preflight from the last to the first. The result says whether to go on.
  unfoldable pub preflight_judged : Summary → Exec (Run (Book F) W) Bool
  preflight_judged summary =
      if not (trace_is_effective summary)
      then (mark_trace_preflight_failed bpftime_sslsniff >> pure false)
      else pure true

  unfoldable pub preflight_ready : Proc → Bool → Exec (Run (Book F) W) Bool
  preflight_ready sslsniff false = mark_failed bpftime_sslsniff readiness_failures >> pure false
  preflight_ready sslsniff true = do
    io W (W.run (curl c))
    terminate_process (some sslsniff)
    texts ← io W (W.communicate sslsniff (some c.trace_check_timeout))
    code ← io W (W.returncode sslsniff)
    summary ← summarize bpftime_sslsniff texts code
    preflight_judged summary

  unfoldable pub preflight_serving : Proc → Proc → Exec (Run (Book F) W) Bool
  preflight_serving sslsniff nginx = do
    io W (W.sleep 2000)
    ready ← wait_for_nginx_ready c nginx
    preflight_ready sslsniff ready

  unfoldable pub preflight_nginx : Proc → Exn ⊎ Proc → Exec (Run (Book F) W) Bool
  preflight_nginx sslsniff (inl e) = try_finally (raise e) (preflight_cleanup none (some sslsniff))
  preflight_nginx sslsniff (inr nginx) =
      try_finally (preflight_serving sslsniff nginx)
        (preflight_cleanup (some nginx) (some sslsniff))

  -- An sslsniff that has ended by itself is summarized and recorded as a failure to attach.
  unfoldable pub preflight_exited : Proc → Exec (Run (Book F) W) Bool
  preflight_exited sslsniff = do
    texts ← io W (W.communicate sslsniff (some 1))
    code ← io W (W.returncode sslsniff)
    summarize bpftime_sslsniff texts code
    mark_trace_preflight_failed bpftime_sslsniff
    pure false

  unfoldable pub preflight_polled : Proc → Exn ⊎ Option Status → Exec (Run (Book F) W) Bool
  preflight_polled sslsniff (inl e) = try_finally (raise e) (preflight_cleanup none (some sslsniff))
  preflight_polled sslsniff (inr (some _)) =
      try_finally (preflight_exited sslsniff) (preflight_cleanup none (some sslsniff))
  preflight_polled sslsniff (inr none) = do
    started ← attempt (io W (W.popen (nginx_in_agent conf)))
    preflight_nginx sslsniff started

  unfoldable pub preflight_started : Exn ⊎ Proc → Exec (Run (Book F) W) Bool
  preflight_started (inl e) = try_finally (raise e) (preflight_cleanup none none)
  preflight_started (inr sslsniff) = do
    polled ← attempt (io W (W.sleep 2000) >> io W (W.poll sslsniff))
    preflight_polled sslsniff polled

  unfoldable pub bpftime_preflight : Exec (Run (Book F) W) Bool
  bpftime_preflight = do
    started ← attempt (io W (W.popen (bpftime_command c)))
    preflight_started started

  -- The steps of an attempt, likewise. The result says whether it produced a valid value, which
  -- ends the retries.
  unfoldable pub attempt_ready : Bool → Exec (Run (Book F) W) Bool
  attempt_ready false = mark_failed bpftime_sslsniff readiness_failures >> pure false
  attempt_ready true = do result ← io W (W.run (wrk c)); score bpftime_sslsniff result

  unfoldable pub attempt_serving : Proc → Exec (Run (Book F) W) Bool
  attempt_serving nginx = do
    io W (W.sleep 2000)
    ready ← wait_for_nginx_ready c nginx
    attempt_ready ready

  unfoldable pub attempt_nginx : Proc → Exn ⊎ Proc → Exec (Run (Book F) W) Bool
  attempt_nginx sslsniff (inl e) =
      try_finally (attempt_raised e) (attempt_cleanup none (some sslsniff))
  attempt_nginx sslsniff (inr nginx) =
      try_finally (try_except (attempt_serving nginx) attempt_raised)
        (attempt_cleanup (some nginx) (some sslsniff))

  unfoldable pub attempt_polled : Proc → Exn ⊎ Option Status → Exec (Run (Book F) W) Bool
  attempt_polled sslsniff (inl e) =
      try_finally (attempt_raised e) (attempt_cleanup none (some sslsniff))
  attempt_polled sslsniff (inr (some _)) =
      try_finally (mark_failed bpftime_sslsniff attach_failures >> pure false)
        (attempt_cleanup none (some sslsniff))
  attempt_polled sslsniff (inr none) = do
    started ← attempt (io W (W.popen (nginx_in_agent conf)))
    attempt_nginx sslsniff started

  unfoldable pub attempt_started : Exn ⊎ Proc → Exec (Run (Book F) W) Bool
  attempt_started (inl e) = try_finally (attempt_raised e) (attempt_cleanup none none)
  attempt_started (inr sslsniff) = do
    polled ← attempt (io W (W.sleep 2000) >> io W (W.poll sslsniff))
    attempt_polled sslsniff polled

  unfoldable pub bpftime_attempt : ℕ → Exec (Run (Book F) W) Bool
  bpftime_attempt k = do
    note_retry k
    started ← attempt (io W (W.popen (bpftime_command c)))
    attempt_started started

  -- One run: attempts until one is valid.
  unfoldable pub bpftime_run : Exec (Run (Book F) W) Bool
  bpftime_run = for_range (c.bpftime_retries + 1) 0 bpftime_attempt

  unfoldable pub bpftime_runs : Bool → Exec (Run (Book F) W) (Unit {0})
  bpftime_runs false = pure tt
  bpftime_runs true = repeat c.num_runs 0 (λ i. bpftime_run >> pure tt)

module _ {F : Floats} {W : World} where
  -- `check_file_exists(a) ... or check_file_exists(b) ...`, in order.
  unfoldable pub required_files : Exec (Run (Book F) W) Bool
  required_files = do
    sslsniff ← check_file_exists sslsniff_path
    if not sslsniff then pure false else do
      agent ← check_file_exists agent_path
      if not agent then pure false else check_file_exists syscall_server_path

module _ {F : Floats} {W : World} (c : Config) where
  unfoldable pub bpftime_found : Bool → Exec (Run (Book F) W) (Unit {0})
  bpftime_found false = pure tt
  bpftime_found true = do
    found ← io W (W.exists nginx_conf)
    if not found then pure tt else do
      conf ← io W (W.abspath nginx_conf)
      effective ← bpftime_preflight c conf
      bpftime_runs c conf effective

  unfoldable pub run_bpftime_sslsniff : Exec (Run (Book F) W) (Unit {0})
  run_bpftime_sslsniff = do
    cleanup_processes
    remove_access_log
    found ← required_files
    bpftime_found found
