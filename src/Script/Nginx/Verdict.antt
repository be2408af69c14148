-- ===== src/Script/Nginx/Verdict.antt =====
-- What the status of .github/script/run_nginx_attach_example.py says about the answers of nginx.
use bpftime_benchmark.Script.Process.{start_signal, final_signal}
use bpftime_benchmark.Script.Nginx.Lines.{controller_shows, nginx_shows, run-shown}
use bpftime_benchmark.Prelude.{any, ◌≡◌, refl, ap, true, List, arith}
use mathlib.Core.Path.{subst}
use bpftime_benchmark.Script.Process.{ended}
use bpftime_benchmark.Script.Process.Invariant.{AtPlace}
use bpftime_benchmark.Script.Nginx.Invariant.{shape}
use bpftime_benchmark.Script.Nginx.Steps.{nginx-IsWellFormed}
use bpftime_benchmark.Script.Nginx.{
  Outcome, succeeded, timed_out, not_created, request_failed, wrong_status, unbound, Event,
  run_nginx, nginx_start, nginx_exit_code,
}
use bpftime_benchmark.Script.Nginx.Stages.{denied_then_allowed, stage, run-due}

-- If the script ends with status 0, a response with status 403 has come, and behind it one with
-- status 200, and the controller and nginx have each printed the line that says that it has started.
pub nginx_exit_code_sound :
    (es : List Event) (r : Outcome)
    → (run_nginx es nginx_start).place ≡ ended r
    → nginx_exit_code r ≡ 0
    → (denied_then_allowed es ≡ true)
      × (any controller_shows es ≡ true)
      × (any nginx_shows es ≡ true)
unfolding nginx_exit_code
nginx_exit_code_sound es succeeded h z =
    let s = run_nginx es nginx_start in
    let e = subst (λ p. AtPlace shape p s) h (nginx-IsWellFormed es).at_place in
    (
      run-due es nginx_start (ap stage h),
      run-shown start_signal es (e.earned_start refl),
      run-shown final_signal es (e.earned_final refl),
    )
nginx_exit_code_sound es timed_out h z = ground arith
nginx_exit_code_sound es not_created h z = ground arith
nginx_exit_code_sound es request_failed h z = ground arith
nginx_exit_code_sound es wrong_status h z = ground arith
nginx_exit_code_sound es unbound h z = ground arith
