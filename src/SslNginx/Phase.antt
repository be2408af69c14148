-- ===== src/SslNginx/Phase.antt =====
-- `run_baseline` and `run_kernel_sslsniff`: nginx is started once, and every round runs wrk.
use bpftime_benchmark.Prelude.{not, Option, none, some, List, [], ◌∷◌, ◌⊎◌, inl, inr, if◌then◌else◌}
use bpftime_benchmark.Text.Base.{Text, codes}
use bpftime_benchmark.Text.Paths.{dirname}
use bpftime_benchmark.Python.Exec.{
  Exec, Exn, pure, try_except, try_finally, on_exception, on_timeout, attempt, repeat, ◌>>=◌, ◌>>◌,
}
use bpftime_benchmark.Python.World.{World, Proc, Status, Command, plain}
use bpftime_benchmark.Python.Run.{Run, io}
use bpftime_benchmark.Python.Floats.{Floats}
use bpftime_benchmark.SslNginx.Book.{
  Config, TestName, baseline, kernel_sslsniff, timeouts, attach_failures, exceptions, Summary, Book,
  mark_failed,
}
use bpftime_benchmark.SslNginx.Trace.{
  test_url, terminate_process, collect_trace_preflight, trace_is_effective,
  mark_trace_preflight_failed,
}
use bpftime_benchmark.SslNginx.Process.{
  remove_access_log, check_file_exists, check_command_exists, cleanup_processes, score,
}
use bpftime_benchmark.SslNginx.Ready.{curl_code}

unfoldable pub nginx_conf : Text
nginx_conf = codes "benchmark/ssl-nginx/nginx.conf"

unfoldable pub sslsniff_path : Text
sslsniff_path = codes "example/tracing/sslsniff/sslsniff"

-- `modified_nginx_cmd`.
unfoldable pub nginx_argv : Text → List Text
unfolding dirname
nginx_argv conf = codes "nginx" ∷ codes "-c" ∷ conf ∷ codes "-p" ∷ dirname conf ∷ []

unfoldable pub wrk : Config → Command
unfolding test_url
wrk c = record {
  argv = codes "wrk" ∷ test_url ∷ codes "-c" ∷ c.wrk_connections ∷ codes "-d" ∷ c.wrk_duration ∷ [];
  preload = none;
  timeout = some c.wrk_timeout;
}

unfoldable pub kernel_command : Config → Command
unfolding sslsniff_path
kernel_command c = plain (codes "sudo" ∷ sslsniff_path ∷ c.sslsniff_args)

unfoldable pub pkill_sslsniff : Command
pkill_sslsniff = plain (codes "sudo" ∷ codes "pkill" ∷ codes "-f" ∷ codes "sslsniff" ∷ [])

module _ {F : Floats} {W : World} where
  -- The `finally` block that ends a phase.
  unfoldable pub stop_nginx : Proc → Exec (Run (Book F) W) (Unit {0})
  stop_nginx proc =
      try_except (io W (W.terminate proc) >> io W (W.wait proc 5))
        (on_exception λ _. try_except (io W (W.kill proc)) (λ _. pure tt))

  -- `except subprocess.TimeoutExpired` and `except Exception` of a round.
  unfoldable pub round_raised : TestName → Exn → Exec (Run (Book F) W) (Unit {0})
  round_raised t = on_timeout (mark_failed t timeouts) (mark_failed t exceptions)

  -- The statement `try: nginx_proc = Popen(...); ...; except Exception: ...; finally: ...`. Where
  -- `Popen` raises, the `finally` block fails on the unbound name, and takes that back.
  unfoldable pub phase_started :
      (Proc → Exec (Run (Book F) W) (Unit {0})) → Exn ⊎ Proc → Exec (Run (Book F) W) (Unit {0})
  phase_started body (inl e) = on_exception (λ _. pure tt) e
  phase_started body (inr proc) =
      try_finally (try_except (body proc) (on_exception λ _. pure tt)) (stop_nginx proc)

  -- Either phase from its check for nginx.conf on.
  unfoldable pub nginx_phase :
      (Proc → Exec (Run (Book F) W) (Unit {0})) → Exec (Run (Book F) W) (Unit {0})
  nginx_phase body = do
    found ← io W (W.exists nginx_conf)
    if not found then pure tt else do
      conf ← io W (W.abspath nginx_conf)
      started ← attempt (io W (W.popen (plain (nginx_argv conf))))
      phase_started body started

  unfoldable pub kernel_cleanup : Option Proc → Exec (Run (Book F) W) (Unit {0})
  kernel_cleanup proc = do terminate_process proc; io W (W.run pkill_sslsniff); io W (W.sleep 1000)

module _ {F : Floats} {W : World} (c : Config) where
  unfoldable pub baseline_round : Exec (Run (Book F) W) (Unit {0})
  baseline_round =
      try_except (do result ← io W (W.run (wrk c)); score baseline result; pure tt)
        (round_raised baseline)

  unfoldable pub baseline_polled : Proc → Option Status → Exec (Run (Book F) W) (Unit {0})
  baseline_polled proc (some _) = io W (W.communicate proc none) >> pure tt
  baseline_polled proc none = do
    try_except (io W (W.run (curl_code 5)) >> pure tt) (on_exception λ _. pure tt)
    repeat c.num_runs 0 (λ i. baseline_round)

  unfoldable pub baseline_body : Proc → Exec (Run (Book F) W) (Unit {0})
  baseline_body proc = do
    io W (W.sleep 2000)
    ended ← io W (W.poll proc)
    baseline_polled proc ended

  unfoldable pub run_baseline : Exec (Run (Book F) W) (Unit {0})
  run_baseline = do
    cleanup_processes
    remove_access_log
    check_command_exists (codes "nginx")
    io W (W.exists nginx_conf)
    nginx_phase baseline_body

  unfoldable pub kernel_polled : Option Status → Exec (Run (Book F) W) (Unit {0})
  kernel_polled (some _) = mark_failed kernel_sslsniff attach_failures
  kernel_polled none = do result ← io W (W.run (wrk c)); score kernel_sslsniff result; pure tt

  unfoldable pub kernel_traced : Proc → Exec (Run (Book F) W) (Unit {0})
  kernel_traced proc = do io W (W.sleep 2000); ended ← io W (W.poll proc); kernel_polled ended

  unfoldable pub kernel_started : Exn ⊎ Proc → Exec (Run (Book F) W) (Unit {0})
  kernel_started (inl e) = try_finally (round_raised kernel_sslsniff e) (kernel_cleanup none)
  kernel_started (inr proc) =
      try_finally (try_except (kernel_traced proc) (round_raised kernel_sslsniff))
        (kernel_cleanup (some proc))

  unfoldable pub kernel_round : Exec (Run (Book F) W) (Unit {0})
  kernel_round = do started ← attempt (io W (W.popen (kernel_command c))); kernel_started started

  unfoldable pub kernel_preflighted : Summary → Exec (Run (Book F) W) (Unit {0})
  kernel_preflighted summary = do
    io W (W.run pkill_sslsniff)
    if not (trace_is_effective summary)
        then mark_trace_preflight_failed kernel_sslsniff
        else repeat c.num_runs 0 (λ i. kernel_round)

  unfoldable pub kernel_ready : Proc → Option Status → Exec (Run (Book F) W) (Unit {0})
  kernel_ready proc (some _) = io W (W.communicate proc none) >> pure tt
  kernel_ready proc none = do
    summary ← collect_trace_preflight c kernel_sslsniff (kernel_command c)
    kernel_preflighted summary

  unfoldable pub kernel_body : Proc → Exec (Run (Book F) W) (Unit {0})
  kernel_body proc = do io W (W.sleep 2000); ended ← io W (W.poll proc); kernel_ready proc ended

  unfoldable pub run_kernel_sslsniff : Exec (Run (Book F) W) (Unit {0})
  run_kernel_sslsniff = do
    cleanup_processes
    remove_access_log
    found ← check_file_exists sslsniff_path
    if not found then pure tt else nginx_phase kernel_body
