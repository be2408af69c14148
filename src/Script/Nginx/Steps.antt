-- ===== src/Script/Nginx/Steps.antt =====
-- Every event of .github/script/run_nginx_attach_example.py keeps what holds between two events.
use bpftime_benchmark.Prelude.{ℕ, refl, false, List, [], ◌∷◌}
use bpftime_benchmark.Script.Process.{
  Place, body, gathering, communicating, ended, gather_tasks, leave,
}
use bpftime_benchmark.Script.Process.Invariant.{AtPlace, Fits-Quiet}
use bpftime_benchmark.Script.Process.Finally.{after_gather-Fits, after_communicate-Fits}
use bpftime_benchmark.Script.Monitor.{as_notified}
use bpftime_benchmark.Script.Monitor.Turns.{
  first_turn-Quiet, second_turn-Quiet, first_exit-Quiet, second_exit-Quiet,
}
use bpftime_benchmark.Script.Nginx.{
  Await, Outcome, Event, woken, raised, answered, controller_turn, nginx_turn, controller_exit,
  nginx_exit, NginxState, controller_callbacks, nginx_callbacks, turn_controller, turn_nginx,
  woken_nginx, answered_nginx, raised_nginx, react_nginx, step_nginx_at, step_nginx, run_nginx,
  nginx_start,
}
use bpftime_benchmark.Script.Nginx.Invariant.{
  shape, IsWellFormed, resume-IsWellFormed, answer-IsWellFormed, fail-IsWellFormed,
}

woken-IsWellFormed :
    (p : Place Await Outcome) (s : NginxState)
    → IsWellFormed s
    → AtPlace shape p s
    → IsWellFormed (woken_nginx p s)
unfolding woken_nginx
woken-IsWellFormed (body p) s f b = resume-IsWellFormed p s f b
woken-IsWellFormed (gathering r) s f e =
    after_gather-Fits shape r (gather_tasks s.first_out s.second_out) s f e
woken-IsWellFormed (communicating r) s f e = after_communicate-Fits shape r s f e
woken-IsWellFormed (ended r) s f e = f

answered-IsWellFormed :
    (code : ℕ) (p : Place Await Outcome) (s : NginxState)
    → IsWellFormed s
    → AtPlace shape p s
    → IsWellFormed (answered_nginx code p s)
unfolding answered_nginx
answered-IsWellFormed code (body p) s f b = answer-IsWellFormed code p s f b
answered-IsWellFormed code (gathering r) s f e = f
answered-IsWellFormed code (communicating r) s f e = f
answered-IsWellFormed code (ended r) s f e = f

raised-IsWellFormed :
    (p : Place Await Outcome) (s : NginxState)
    → IsWellFormed s
    → AtPlace shape p s
    → IsWellFormed (raised_nginx p s)
unfolding raised_nginx
raised-IsWellFormed (body p) s f b = fail-IsWellFormed p s f b
raised-IsWellFormed (gathering r) s f e = f
raised-IsWellFormed (communicating r) s f e = record {
  first_paired = f.first_paired;
  second_paired = f.second_paired;
  at_place = e.earned;
}
raised-IsWellFormed (ended r) s f e = f

react-IsWellFormed : (e : Event) (s : NginxState) → IsWellFormed s → IsWellFormed (react_nginx e s)
unfolding react_nginx turn_controller turn_nginx
react-IsWellFormed woken s f = woken-IsWellFormed s.place s f f.at_place
react-IsWellFormed raised s f = raised-IsWellFormed s.place s f f.at_place
react-IsWellFormed (answered code) s f = answered-IsWellFormed code s.place s f f.at_place
react-IsWellFormed (controller_turn t) s f =
    Fits-Quiet shape s (turn_controller t s)
      (first_turn-Quiet s controller_callbacks false (as_notified s.should_exit t)) f
react-IsWellFormed (nginx_turn t) s f =
    Fits-Quiet shape s (turn_nginx t s)
      (second_turn-Quiet s nginx_callbacks false (as_notified s.should_exit t)) f
react-IsWellFormed controller_exit s f =
    Fits-Quiet shape s (record s { first = leave s.first }) (first_exit-Quiet s) f
react-IsWellFormed nginx_exit s f =
    Fits-Quiet shape s (record s { second = leave s.second }) (second_exit-Quiet s) f

pub step-IsWellFormed :
    (e : Event) (s : NginxState) → IsWellFormed s → IsWellFormed (step_nginx e s)
unfolding step_nginx
step-IsWellFormed e s f = go s.place
  where
    go : (p : Place Await Outcome) → IsWellFormed (step_nginx_at e p s)
    go (ended r) = f
    go (body p) = react-IsWellFormed e s f
    go (gathering r) = react-IsWellFormed e s f
    go (communicating r) = react-IsWellFormed e s f

pub run-IsWellFormed :
    (es : List Event) (s : NginxState) → IsWellFormed s → IsWellFormed (run_nginx es s)
unfolding run_nginx
run-IsWellFormed [] s f = f
run-IsWellFormed (e ∷ es) s f = run-IsWellFormed es (step_nginx e s) (step-IsWellFormed e s f)

pub start-IsWellFormed : IsWellFormed nginx_start
start-IsWellFormed = record {
  first_paired = refl;
  second_paired = refl;
  at_place = record {
    stays = refl;
    first_is = refl;
    second_is = refl;
    start_is = λ h. cc;
    final_is = λ h. cc;
  };
}

-- Whatever happens, a task of the nginx script exists just where its process has been created; in the
-- body of the `try` the processes are those of the place at which `main` waits, behind the wait for a
-- process its event is set, and so are both where a request is made; `main` waits in the `finally`
-- block only for two processes that both exist; and a success, a request that failed and a status
-- that is wrong have both events set.
pub nginx-IsWellFormed : (es : List Event) → IsWellFormed (run_nginx es nginx_start)
nginx-IsWellFormed es = run-IsWellFormed es nginx_start start-IsWellFormed
