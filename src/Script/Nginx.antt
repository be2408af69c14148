-- ===== src/Script/Nginx.antt =====
-- `main` of .github/script/run_nginx_attach_example.py: a controller is started, then nginx, then two
-- requests are made, the first of which must be refused. The events are those of Script/Example, and
-- the answers.
pub mod Invariant
pub mod Steps
pub mod Monitor
pub mod Lines
pub mod Stages
pub mod Verdict
pub mod Winding
pub mod Progress
use bpftime_benchmark.Prelude.{
  ℕ, ◌==◌, ◌&&◌, Bool, true, false, Option, none, some, List, [], ◌∷◌, if◌then◌else◌,
}
use bpftime_benchmark.Text.Base.{Text, codes}
use bpftime_benchmark.Script.Process.{
  Life, unstarted, running, Task, absent, listening, start_signal, final_signal, Signals, unset,
  Place, body, gathering, communicating, ended, State, gather_tasks, leave, go_to, wind_down,
  after_gather, after_communicate,
}
use bpftime_benchmark.Script.Monitor.{Turn, as_notified, Heard, Callbacks, take_turn}

pub record NginxArgs : Type 0 where
  pub nginx_bin : Text
  pub controller : Text
  pub attach_implementation_dir : Text

-- `sys.argv[1:]`, with the directory made absolute by `pathlib`; `none` is a `ValueError`.
unfoldable pub unpack_nginx : (absolute : Text → Text) → List Text → Option NginxArgs
unpack_nginx absolute (nginx_bin ∷ controller ∷ dir ∷ []) = some (record {
  nginx_bin = nginx_bin;
  controller = controller;
  attach_implementation_dir = absolute dir;
})
unpack_nginx absolute args = none

unfoldable pub controller_command : NginxArgs → List Text
controller_command a = a.controller ∷ codes "/aaaa" ∷ []

unfoldable pub nginx_command : NginxArgs → List Text
nginx_command a =
    a.nginx_bin ∷ codes "-p" ∷ a.attach_implementation_dir ∷ codes "-c" ∷ codes "./nginx.conf" ∷ []

-- The `await` in the body of the `try` at which `main` is suspended; the last two are the requests.
pub data Await : Type 0 where
  starting_controller awaiting_controller settling_controller : Await
  starting_nginx awaiting_nginx settling_nginx : Await
  asking_denied asking_allowed : Await

-- How that body ended. `unbound` is the `UnboundLocalError` of a `should_exit` that was not created.
pub data Outcome : Type 0 where
  succeeded timed_out not_created request_failed wrong_status unbound : Outcome

pub data Event : Type 0 where
  woken raised : Event
  -- The status code of the response.
  answered : ℕ → Event
  controller_turn nginx_turn : Turn → Event
  controller_exit nginx_exit : Event

abbrev pub NginxState : Type 0
NginxState = State Await Outcome

unfoldable pub controller_started : Text
controller_started = codes "Epoll fd is"

unfoldable pub nginx_started : Text
nginx_started = codes "Module init (0 is success): 0"

unfoldable pub controller_callbacks : Callbacks
unfolding controller_started
controller_callbacks = (start_signal, controller_started) ∷ []

unfoldable pub nginx_callbacks : Callbacks
unfolding nginx_started
nginx_callbacks = (final_signal, nginx_started) ∷ []

-- Neither output is searched for errors.
unfoldable pub turn_controller : Turn → NginxState → NginxState
unfolding controller_callbacks take_turn
turn_controller t s =
    let u = as_notified s.should_exit t in
    let h = take_turn controller_callbacks false u s.signals s.first_out in
    record s { signals = h.signals; first_out = h.task }

unfoldable pub turn_nginx : Turn → NginxState → NginxState
unfolding nginx_callbacks take_turn
turn_nginx t s =
    let u = as_notified s.should_exit t in
    let h = take_turn nginx_callbacks false u s.signals s.second_out in
    record s { signals = h.signals; second_out = h.task }

unfoldable pub resume_nginx : Await → NginxState → NginxState
resume_nginx starting_controller s = record s {
  place = body awaiting_controller;
  first = running;
  first_out = listening;
}
resume_nginx awaiting_controller s =
    if s.signals.start then go_to (body settling_controller) s else s
resume_nginx settling_controller s = go_to (body starting_nginx) s
resume_nginx starting_nginx s = record s {
  place = body awaiting_nginx;
  second = running;
  second_out = listening;
}
resume_nginx awaiting_nginx s = if s.signals.final then go_to (body settling_nginx) s else s
resume_nginx settling_nginx s = go_to (body asking_denied) s
resume_nginx asking_denied s = s
resume_nginx asking_allowed s = s

-- The assertions on the status codes.
unfoldable pub answer : ℕ → Await → NginxState → NginxState
unfolding wind_down
answer code asking_denied s =
    if code == 403 then go_to (body asking_allowed) s else wind_down wrong_status s
answer code asking_allowed s =
    if code == 200 then wind_down succeeded s else wind_down wrong_status s
answer code p s = s

-- What it awaits raises; a sleep does not. The controller is created before `should_exit`, which the
-- `finally` block uses first, outside of its own `try`.
unfoldable pub fail_nginx : Await → NginxState → NginxState
unfolding wind_down
fail_nginx starting_controller s = go_to (ended unbound) s
fail_nginx awaiting_controller s = wind_down timed_out s
fail_nginx settling_controller s = s
fail_nginx starting_nginx s = wind_down not_created s
fail_nginx awaiting_nginx s = wind_down timed_out s
fail_nginx settling_nginx s = s
fail_nginx asking_denied s = wind_down request_failed s
fail_nginx asking_allowed s = wind_down request_failed s

unfoldable pub woken_nginx : Place Await Outcome → NginxState → NginxState
unfolding resume_nginx after_gather gather_tasks after_communicate
woken_nginx (body p) s = resume_nginx p s
woken_nginx (gathering r) s = after_gather r (gather_tasks s.first_out s.second_out) s
woken_nginx (communicating r) s = after_communicate r s
woken_nginx (ended r) s = s

unfoldable pub answered_nginx : ℕ → Place Await Outcome → NginxState → NginxState
unfolding answer
answered_nginx code (body p) s = answer code p s
answered_nginx code place s = s

unfoldable pub raised_nginx : Place Await Outcome → NginxState → NginxState
unfolding fail_nginx
raised_nginx (body p) s = fail_nginx p s
raised_nginx (gathering r) s = s
raised_nginx (communicating r) s = go_to (ended r) s
raised_nginx (ended r) s = s

unfoldable pub react_nginx : Event → NginxState → NginxState
unfolding turn_controller turn_nginx woken_nginx answered_nginx raised_nginx
react_nginx woken s = woken_nginx s.place s
react_nginx raised s = raised_nginx s.place s
react_nginx (answered code) s = answered_nginx code s.place s
react_nginx (controller_turn t) s = turn_controller t s
react_nginx (nginx_turn t) s = turn_nginx t s
react_nginx controller_exit s = record s { first = leave s.first }
react_nginx nginx_exit s = record s { second = leave s.second }

unfoldable pub step_nginx_at : Event → Place Await Outcome → NginxState → NginxState
unfolding react_nginx
step_nginx_at e (ended r) s = s
step_nginx_at e place s = react_nginx e s

unfoldable pub step_nginx : Event → NginxState → NginxState
unfolding step_nginx_at
step_nginx e s = step_nginx_at e s.place s

unfoldable pub run_nginx : List Event → NginxState → NginxState
unfolding step_nginx
run_nginx [] s = s
run_nginx (e ∷ es) s = run_nginx es (step_nginx e s)

abbrev pub nginx_start : NginxState
nginx_start = record {
  place = body starting_controller;
  signals = unset;
  should_exit = false;
  first = unstarted;
  second = unstarted;
  first_out = absent;
  second_out = absent;
}

unfoldable pub nginx_exit_code : Outcome → ℕ
nginx_exit_code succeeded = 0
nginx_exit_code r = 1
