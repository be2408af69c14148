-- ===== src/Script/Example.antt =====
-- `main` of .github/script/run_example.py: a server is loaded, then an agent started, until the
-- expected text is printed. Between two `await`s the coroutine runs by itself, so that what can
-- happen is a sequence of events: each resumes `main` or one of its two tasks, or is the end of a
-- process.
pub mod Invariant
pub mod Contract
pub mod Refinement
pub mod Verdict
pub mod Simulation
pub mod Winding
pub mod Progress
pub mod Faults
pub mod Success
use bpftime_benchmark.Prelude.{ℕ, ◌&&◌, Bool, true, false, List, [], ◌∷◌, if◌then◌else◌}
use bpftime_benchmark.Text.Base.{Text, codes}
use bpftime_benchmark.Script.Process.{
  Life, unstarted, running, Task, absent, listening, start_signal, final_signal, Signals, unset,
  Place, body, gathering, communicating, ended, State, gather_tasks, leave, go_to, wind_down,
  after_gather, after_communicate,
}
use bpftime_benchmark.Script.Monitor.{Turn, as_notified, Heard, Callbacks, take_turn}
use bpftime_benchmark.Script.Command.{Args, skips_check}

-- The `await` in the body of the `try` at which `main` is suspended.
pub data Await : Type 0 where
  loading waiting_for_server sleeping starting waiting_for_text : Await

-- How that body ended: behind `Test successfully`, by the early `return`, by the exception of
-- `wait_for`, or by that of a process that cannot be created.
pub data Outcome : Type 0 where
  succeeded returned timed_out not_created : Outcome

pub data Event : Type 0 where
  -- What is awaited is there, or raises. `woken` stands for the end of what `wait_for` waits for, of
  -- a sleep, of the creation of a process, or of a `gather`.
  woken raised : Event
  server_turn agent_turn : Turn → Event
  server_exit agent_exit : Event

abbrev pub ExampleState : Type 0
ExampleState = State Await Outcome

unfoldable pub server_start_signal : Text
server_start_signal = codes "bpftime-syscall-server started"

unfoldable pub server_callbacks : Args → Callbacks
unfolding server_start_signal
server_callbacks a = (start_signal, server_start_signal) ∷ (final_signal, a.expected_str) ∷ []

unfoldable pub agent_callbacks : Args → Callbacks
agent_callbacks a = (final_signal, a.expected_str) ∷ []

unfoldable pub turn_server : Args → Turn → ExampleState → ExampleState
unfolding server_callbacks take_turn
turn_server a t s =
    let h =
      take_turn (server_callbacks a) false (as_notified s.should_exit t) s.signals s.first_out in
    record s { signals = h.signals; first_out = h.task }

-- Only the output of the agent is searched for errors.
unfoldable pub turn_agent : Args → Turn → ExampleState → ExampleState
unfolding agent_callbacks take_turn
turn_agent a t s =
    let h =
      take_turn (agent_callbacks a) true (as_notified s.should_exit t) s.signals s.second_out in
    record s { signals = h.signals; second_out = h.task }

-- The server runs, and its task is created with it.
abbrev pub with_server : ExampleState → ExampleState
with_server s = record s { place = body waiting_for_server; first = running; first_out = listening }

abbrev pub with_agent : ExampleState → ExampleState
with_agent s = record s { place = body waiting_for_text; second = running; second_out = listening }

-- `main` goes on in its body.
unfoldable pub resume : Args → Await → ExampleState → ExampleState
unfolding wind_down skips_check
resume a loading s = with_server s
resume a waiting_for_server s = if s.signals.start then go_to (body sleeping) s else s
resume a sleeping s = go_to (body starting) s
resume a starting s = if skips_check a then wind_down returned (with_agent s) else with_agent s
resume a waiting_for_text s = if s.signals.final then wind_down succeeded s else s

-- What it awaits raises; a sleep does not.
unfoldable pub fail : Await → ExampleState → ExampleState
unfolding wind_down
fail loading s = wind_down not_created s
fail waiting_for_server s = wind_down timed_out s
fail sleeping s = s
fail starting s = wind_down not_created s
fail waiting_for_text s = wind_down timed_out s

-- `main` is resumed.
unfoldable pub woken_at : Args → Place Await Outcome → ExampleState → ExampleState
unfolding resume after_gather gather_tasks after_communicate
woken_at a (body p) s = resume a p s
woken_at a (gathering r) s = after_gather r (gather_tasks s.first_out s.second_out) s
woken_at a (communicating r) s = after_communicate r s
woken_at a (ended r) s = s

-- What an `await` of the `finally` block raises is printed.
unfoldable pub raised_at : Place Await Outcome → ExampleState → ExampleState
unfolding fail
raised_at (body p) s = fail p s
raised_at (gathering r) s = s
raised_at (communicating r) s = go_to (ended r) s
raised_at (ended r) s = s

-- With `main` the event loop ends.
unfoldable pub react : Args → Event → ExampleState → ExampleState
unfolding turn_server turn_agent woken_at raised_at
react a woken s = woken_at a s.place s
react a raised s = raised_at s.place s
react a (server_turn t) s = turn_server a t s
react a (agent_turn t) s = turn_agent a t s
react a server_exit s = record s { first = leave s.first }
react a agent_exit s = record s { second = leave s.second }

unfoldable pub step_at : Args → Event → Place Await Outcome → ExampleState → ExampleState
unfolding react
step_at a e (ended r) s = s
step_at a e (body p) s = react a e s
step_at a e (gathering r) s = react a e s
step_at a e (communicating r) s = react a e s

unfoldable pub step : Args → Event → ExampleState → ExampleState
unfolding step_at
step a e s = step_at a e s.place s

unfoldable pub run : Args → List Event → ExampleState → ExampleState
unfolding step
run a [] s = s
run a (e ∷ es) s = run a es (step a e s)

abbrev pub start : ExampleState
start = record {
  place = body loading;
  signals = unset;
  should_exit = false;
  first = unstarted;
  second = unstarted;
  first_out = absent;
  second_out = absent;
}

-- The status of the interpreter: an exception of `main` is one.
unfoldable pub exit_code : Outcome → ℕ
exit_code succeeded = 0
exit_code returned = 0
exit_code timed_out = 1
exit_code not_created = 1
