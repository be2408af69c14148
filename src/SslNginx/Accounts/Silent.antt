-- ===== src/SslNginx/Accounts/Silent.antt =====
-- The helpers of benchmark/ssl-nginx/benchmark.py that leave `results` and `run_stats` alone.
use bpftime_benchmark.Prelude.{
  ℕ, zero, suc, ◌≡◌, refl, Bool, true, false, Option, none, some, List, [], ◌∷◌, ◌⊎◌, inl, inr,
}
use bpftime_benchmark.Text.Base.{Text}
use bpftime_benchmark.Python.Exec.{Exec, Exn, attempt}
use bpftime_benchmark.Python.World.{World, Proc, Status, Command}
use bpftime_benchmark.Python.Run.{Run}
use bpftime_benchmark.Python.Rules.Keeps.{
  Keeps, Keeps-pure, Keeps-raise, Keeps-io, Keeps-try, Keeps-if, Keeps-modify, Keeps-bind,
  keeps_rules,
}
use bpftime_benchmark.Python.Floats.{Floats}
use bpftime_benchmark.SslNginx.Book.{
  Config, TestName, baseline, kernel_sslsniff, bpftime_sslsniff, Summary, Book,
}
use bpftime_benchmark.SslNginx.Trace.{
  append_trace, summarize, terminate_process, observe_polled, observe, poll_of, preflight_raised,
  preflight_started, collect_trace_preflight,
}
use bpftime_benchmark.SslNginx.Process.{
  remove_access_log, check_file_exists, set_nginx_program, find_nginx, check_command_exists,
  pids_of, kill_nginx, kill_sslsniff, cleanup_processes, common_paths,
}
use bpftime_benchmark.SslNginx.Ready.{
  after_page, after_poll, page_answers, ready_rounds, wait_for_nginx_ready,
}
use bpftime_benchmark.SslNginx.Phase.{stop_nginx, kernel_cleanup}
use bpftime_benchmark.SslNginx.Bpftime.{
  preflight_cleanup, stop_some, attempt_cleanup, required_files,
}

-- What a property of the global variables says of `results` and `run_stats` only.
pub record SeesAccounts {F : Floats} (P : Book F → Type 0) : Type 0 where
  pub at : (b b' : Book F) → b'.results ≡ b.results → b'.run_stats ≡ b.run_stats → P b → P b'

module _ {F : Floats} {W : World} (P : Book F → Type 0) (sees : SeesAccounts P) where
  abbrev Quiet : {A : Type 0} → Exec (Run (Book F) W) A → Type 0
  Quiet m = Keeps P m

  pub attempt-Quiet : {A : Type 0} (m : Exec (Run (Book F) W) A) → Quiet m → Quiet (attempt m)
  unfolding attempt
  attempt-Quiet m h = Keeps-try _ _ (Keeps-bind _ _ h (λ _. Keeps-pure _)) (λ _. Keeps-pure _)

  pub remove_access_log-Quiet : Quiet remove_access_log
  unfolding remove_access_log
  remove_access_log-Quiet = search keeps_rules depth 12

  pub check_file_exists-Quiet : (path : Text) → Quiet (check_file_exists path)
  unfolding check_file_exists
  check_file_exists-Quiet path = search keeps_rules

  pub set_nginx_program-Quiet : (path : Text) → Quiet (set_nginx_program path)
  unfolding set_nginx_program
  set_nginx_program-Quiet path = Keeps-modify _ (λ b h. sees.at b _ refl refl h)

  pub find_nginx-Quiet : (paths : List Text) → Quiet (find_nginx paths)
  unfolding find_nginx
  find_nginx-Quiet [] = Keeps-pure false
  find_nginx-Quiet (path ∷ paths) = Keeps-bind _ _ (Keeps-io _) (λ found.
      Keeps-if found _ _ (Keeps-bind _ _ (set_nginx_program-Quiet path) (λ _. Keeps-pure true))
        (find_nginx-Quiet paths))

  pub check_command_exists-Quiet : (cmd : Text) → Quiet (check_command_exists cmd)
  unfolding check_command_exists
  check_command_exists-Quiet cmd =
      Keeps-try _ _
        (Keeps-bind _ _ (Keeps-io _)
          (λ r. Keeps-if _ _ _ (find_nginx-Quiet common_paths) (Keeps-pure _)))
        (λ e. search keeps_rules)

  pub pids_of-Quiet : (name : Text) → Quiet (pids_of name)
  unfolding pids_of
  pids_of-Quiet name = search keeps_rules

  pub kill_nginx-Quiet : (f : Text → Command) (pid : Text) → Quiet (kill_nginx f pid)
  unfolding kill_nginx
  kill_nginx-Quiet f pid = search keeps_rules depth 8

  pub kill_sslsniff-Quiet : (f g : Text → Command) (pid : Text) → Quiet (kill_sslsniff f g pid)
  unfolding kill_sslsniff
  kill_sslsniff-Quiet f g pid = search keeps_rules depth 8

  pub cleanup_processes-Quiet : Quiet cleanup_processes
  unfolding cleanup_processes
  cleanup_processes-Quiet =
      search (keeps_rules, pids_of-Quiet, kill_nginx-Quiet, kill_sslsniff-Quiet) depth 20

  pub terminate_process-Quiet : (p : Option Proc) → Quiet (terminate_process p)
  unfolding terminate_process
  terminate_process-Quiet none = Keeps-pure tt
  terminate_process-Quiet (some p) = search keeps_rules depth 8

  pub append_trace-Quiet : (t : TestName) (x : Summary) → Quiet (append_trace t x)
  unfolding append_trace
  append_trace-Quiet baseline x = Keeps-raise _
  append_trace-Quiet kernel_sslsniff x = Keeps-modify _ (λ b h. sees.at b _ refl refl h)
  append_trace-Quiet bpftime_sslsniff x = Keeps-modify _ (λ b h. sees.at b _ refl refl h)

  pub summarize-Quiet :
      (t : TestName) (texts : Text × Text) (code : Option Status) → Quiet (summarize t texts code)
  unfolding summarize
  summarize-Quiet t (out, err) code = search (keeps_rules, append_trace-Quiet)

  pub observe_polled-Quiet :
      (c : Config) (t : TestName) (p : Proc) (e : Option Status) → Quiet (observe_polled c t p e)
  unfolding observe_polled
  observe_polled-Quiet c t p (some x) = search (keeps_rules, summarize-Quiet) depth 8
  observe_polled-Quiet c t p none = Keeps-bind _ _ (Keeps-io _) (λ _.
      Keeps-bind _ _ (terminate_process-Quiet (some p))
        (λ _. search (keeps_rules, summarize-Quiet) depth 8))

  pub observe-Quiet : (c : Config) (t : TestName) (p : Proc) → Quiet (observe c t p)
  unfolding observe
  observe-Quiet c t p = search (keeps_rules, observe_polled-Quiet) depth 8

  pub poll_of-Quiet : (p : Option Proc) → Quiet (poll_of p)
  unfolding poll_of
  poll_of-Quiet none = search keeps_rules
  poll_of-Quiet (some p) = search keeps_rules

  pub preflight_raised-Quiet :
      (c : Config) (t : TestName) (p : Option Proc) (e : Text) → Quiet (preflight_raised c t p e)
  unfolding preflight_raised
  preflight_raised-Quiet c t p e =
      search (keeps_rules, terminate_process-Quiet, poll_of-Quiet, append_trace-Quiet) depth 12

  pub preflight_started-Quiet :
      (c : Config) (t : TestName) (r : Exn ⊎ Proc) → Quiet (preflight_started c t r)
  unfolding preflight_started
  preflight_started-Quiet c t (inl e) = search (keeps_rules, preflight_raised-Quiet)
  preflight_started-Quiet c t (inr p) =
      search (keeps_rules, preflight_raised-Quiet, observe-Quiet) depth 8

  pub collect_trace_preflight-Quiet :
      (c : Config) (t : TestName) (cmd : Command) → Quiet (collect_trace_preflight c t cmd)
  unfolding collect_trace_preflight
  collect_trace_preflight-Quiet c t cmd =
      Keeps-bind _ _ (attempt-Quiet _ (Keeps-io _)) (preflight_started-Quiet c t)

  pub page_answers-Quiet : Quiet page_answers
  unfolding page_answers
  page_answers-Quiet = search keeps_rules depth 8

  pub after_page-Quiet :
      (b : Bool) (rest : Exec (Run (Book F) W) (Option Bool))
      → Quiet rest
      → Quiet (after_page b rest)
  after_page-Quiet true rest h = search keeps_rules
  after_page-Quiet false rest h = Keeps-bind _ _ (Keeps-io _) (λ _. h)

  pub after_poll-Quiet :
      (p : Proc) (e : Option Status) (rest : Exec (Run (Book F) W) (Option Bool))
      → Quiet rest
      → Quiet (after_poll p e rest)
  after_poll-Quiet p (some x) rest h = search keeps_rules
  after_poll-Quiet p none rest h =
      Keeps-bind _ _ page_answers-Quiet (λ b. after_page-Quiet b rest h)

  pub ready_rounds-Quiet :
      (fuel : ℕ) (p : Proc) (deadline : ℕ) → Quiet (ready_rounds fuel p deadline)
  unfolding ready_rounds
  ready_rounds-Quiet zero p deadline = search keeps_rules
  ready_rounds-Quiet (suc fuel) p deadline = Keeps-bind _ _ (Keeps-io _) (λ now.
      Keeps-if _ _ _
        (Keeps-bind _ _ (Keeps-io _)
          (λ e. after_poll-Quiet p e _ (ready_rounds-Quiet fuel p deadline)))
        (Keeps-pure (some false)))

  pub wait_for_nginx_ready-Quiet : (c : Config) (p : Proc) → Quiet (wait_for_nginx_ready c p)
  unfolding wait_for_nginx_ready
  wait_for_nginx_ready-Quiet c p = search (keeps_rules, ready_rounds-Quiet) depth 8

  pub stop_nginx-Quiet : (p : Proc) → Quiet (stop_nginx p)
  unfolding stop_nginx
  stop_nginx-Quiet p = search keeps_rules depth 10

  pub kernel_cleanup-Quiet : (p : Option Proc) → Quiet (kernel_cleanup p)
  unfolding kernel_cleanup
  kernel_cleanup-Quiet p =
      Keeps-bind _ _ (terminate_process-Quiet p)
        (λ _. Keeps-bind _ _ (Keeps-io _) (λ _. Keeps-io _))

  pub preflight_cleanup-Quiet : (p q : Option Proc) → Quiet (preflight_cleanup p q)
  unfolding preflight_cleanup
  preflight_cleanup-Quiet p q =
      search (keeps_rules, terminate_process-Quiet, cleanup_processes-Quiet) depth 8

  pub stop_some-Quiet : (p : Option Proc) → Quiet (stop_some p)
  stop_some-Quiet none = search keeps_rules
  stop_some-Quiet (some p) = search keeps_rules

  pub attempt_cleanup-Quiet : (p q : Option Proc) → Quiet (attempt_cleanup p q)
  unfolding attempt_cleanup
  attempt_cleanup-Quiet p q =
      search (keeps_rules, stop_some-Quiet, terminate_process-Quiet, cleanup_processes-Quiet) depth
        10

  pub required_files-Quiet : Quiet required_files
  unfolding required_files
  required_files-Quiet = search (keeps_rules, check_file_exists-Quiet) depth 12
