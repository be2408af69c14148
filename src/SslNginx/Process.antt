-- ===== src/SslNginx/Process.antt =====
-- The helpers that look for files and commands, remove the old log, kill processes left over, and
-- read the result of a run of wrk.
use bpftime_benchmark.Prelude.{
  Bool, true, false, not, ◌&&◌, Option, none, some, List, [], ◌∷◌, if◌then◌else◌,
}
use mathlib.Core.Option
use bpftime_benchmark.Text.Base.{Text, codes, text_eq}
use bpftime_benchmark.Text.Lines.{strip, words}
use bpftime_benchmark.Text.Scan.{search_decimal}
use bpftime_benchmark.Python.Exec.{Exec, pure, try_except, on_exception, for_each, ◌>>=◌, ◌>>◌}
use bpftime_benchmark.Python.World.{World, Completed, Command, failed, plain}
use bpftime_benchmark.Python.Run.{Run, io, modify}
use bpftime_benchmark.Python.Floats.{Floats}
use bpftime_benchmark.SslNginx.Book.{
  TestName, parse_failures, wrk_failures, Book, append_result, mark_valid, mark_failed,
}

unfoldable pub requests_label : Text
requests_label = codes "Requests/sec:"

unfoldable pub parse_wrk_output : (F : Floats) → Text → Option F.Float
unfolding search_decimal requests_label
parse_wrk_output F output = Option.map F.of_decimal (search_decimal requests_label output)

unfoldable pub pgrep : Text → Command
pgrep name = plain (codes "pgrep" ∷ codes "-x" ∷ name ∷ [])

unfoldable pub kill_command : Text → Command
kill_command pid = plain (codes "kill" ∷ pid ∷ [])

unfoldable pub sudo_kill_command : Text → Command
sudo_kill_command pid = plain (codes "sudo" ∷ codes "kill" ∷ pid ∷ [])

unfoldable pub kill_9_command : Text → Command
kill_9_command pid = plain (codes "kill" ∷ codes "-9" ∷ pid ∷ [])

unfoldable pub sudo_kill_9_command : Text → Command
sudo_kill_9_command pid = plain (codes "sudo" ∷ codes "kill" ∷ codes "-9" ∷ pid ∷ [])

unfoldable pub which : Text → Command
which cmd = plain (codes "which" ∷ cmd ∷ [])

abbrev pub common_paths : List Text
common_paths =
    codes "/usr/sbin/nginx"
    ∷ codes "/usr/local/sbin/nginx"
    ∷ codes "/usr/local/bin/nginx"
    ∷ codes "/opt/nginx/sbin/nginx"
    ∷ []

unfoldable pub access_log : Text
access_log = codes "benchmark/ssl-nginx/access.log"

module _ {F : Floats} {W : World} where
  -- The status of a command is not looked at (`check=False`).
  abbrev pub run_quietly : Command → Exec (Run (Book F) W) (Unit {0})
  run_quietly cmd = io W (W.run cmd) >> pure tt

  unfoldable pub remove_access_log : Exec (Run (Book F) W) (Unit {0})
  remove_access_log = do
    path ← io W (W.abspath access_log)
    try_except (do found ← io W (W.exists path); if found then io W (W.remove path) else pure tt)
        (on_exception λ _. pure tt)

  unfoldable pub check_file_exists : Text → Exec (Run (Book F) W) Bool
  check_file_exists path = do full ← io W (W.abspath path); io W (W.exists full)

  unfoldable pub set_nginx_program : Text → Exec (Run (Book F) W) (Unit {0})
  set_nginx_program path = modify λ b. record b { nginx_program = path }

  -- The first of the paths that exists becomes `NGINX_CMD[0]`.
  unfoldable pub find_nginx : List Text → Exec (Run (Book F) W) Bool
  find_nginx [] = pure false
  find_nginx (path ∷ paths) =
      let rest = find_nginx paths in
      do found ← io W (W.exists path); if found then (set_nginx_program path >> pure true) else rest

  unfoldable pub check_command_exists : Text → Exec (Run (Book F) W) Bool
  check_command_exists cmd =
      try_except
        (do
          result ← io W (W.run (which cmd))
          let exists = not (failed result.returncode)
          if not exists && text_eq cmd (codes "nginx")
              then find_nginx common_paths
              else pure exists)
        (on_exception λ _. pure false)

  unfoldable pub pids_of : Text → Exec (Run (Book F) W) (List Text)
  pids_of name = do result ← io W (W.run (pgrep name)); pure (words (strip result.stdout))

  unfoldable pub kill_nginx : (Text → Command) → Text → Exec (Run (Book F) W) (Unit {0})
  kill_nginx with_signal pid =
      try_except (run_quietly (with_signal pid)) (on_exception λ _. pure tt)

  unfoldable pub kill_sslsniff :
      (Text → Command) → (Text → Command) → Text → Exec (Run (Book F) W) (Unit {0})
  kill_sslsniff with_signal with_sudo pid =
      try_except (run_quietly (with_signal pid))
        (on_exception λ _. try_except (run_quietly (with_sudo pid)) (on_exception λ _. pure tt))

  unfoldable pub cleanup_processes : Exec (Run (Book F) W) (Unit {0})
  cleanup_processes =
      try_except
        (do
          nginx_pids ← pids_of (codes "nginx")
          sslsniff_pids ← pids_of (codes "sslsniff")
          for_each nginx_pids (kill_nginx kill_command)
          for_each sslsniff_pids (kill_sslsniff kill_command sudo_kill_command)
          io W (W.sleep 1000)
          remaining_nginx_pids ← pids_of (codes "nginx")
          remaining_sslsniff_pids ← pids_of (codes "sslsniff")
          for_each remaining_nginx_pids (kill_nginx kill_9_command)
          for_each remaining_sslsniff_pids (kill_sslsniff kill_9_command sudo_kill_9_command))
        (on_exception λ _. pure tt)

  -- `if req_per_sec:`, with what follows it. A result of zero counts as a failure to parse.
  unfoldable pub score_parsed : TestName → Option F.Float → Exec (Run (Book F) W) Bool
  score_parsed t none = mark_failed t parse_failures >> pure false
  score_parsed t (some x) =
      if F.truthy x
      then (append_result {F = F} t x >> (mark_valid t >> pure true))
      else (mark_failed t parse_failures >> pure false)

  -- What is done with a run of wrk that ended; the result says whether it counted.
  unfoldable pub score : TestName → Completed → Exec (Run (Book F) W) Bool
  score t result =
      if failed result.returncode
      then (mark_failed t wrk_failures >> pure false)
      else score_parsed t (parse_wrk_output F result.stdout)
