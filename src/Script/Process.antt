-- ===== src/Script/Process.antt =====
-- What the scripts keep: where the coroutine `main` stands, its two events that the monitors set, and
-- the two processes with the tasks that follow their output.
pub mod Invariant
pub mod Finally
pub mod Outcome
use bpftime_benchmark.Prelude.{ℕ, ◌&&◌, Bool, true, false, Option, none, some, if◌then◌else◌}

-- A process, as far as the event loop has noticed.
pub data Life : Type 0 where
  unstarted running interrupted gone : Life

-- The task of a `handle_stdout`: not created, under way, returned, or ended by an exception.
pub data Task : Type 0 where
  absent listening finished failed : Task

-- The two objects of `asyncio.Event` that callbacks set: `server_started_signal` and
-- `expected_str_signal` in run_example.py, `controller_started_signal` and `nginx_started_signal` in
-- run_nginx_attach_example.py.
pub data Signal : Type 0 where
  start_signal final_signal : Signal

pub record Signals : Type 0 where
  pub start : Bool
  pub final : Bool

-- `evt.set()`.
abbrev pub set_signal : Signal → Signals → Signals
set_signal start_signal g = record g { start = true }
set_signal final_signal g = record g { final = true }

-- Where `main` is suspended: in the body of its `try`, or in its `finally` block, with what the body
-- ended with.
pub data Place (P O : Type 0) : Type 0 where
  body : P → Place P O
  gathering communicating ended : O → Place P O

pub record State (P O : Type 0) : Type 0 where
  pub place : Place P O
  pub signals : Signals
  pub should_exit : Bool
  pub first : Life
  pub second : Life
  pub first_out : Task
  pub second_out : Task

abbrev pub unset : Signals
unset = record { start = false; final = false }

-- Both tasks, as `asyncio.gather` finds them: done, with an exception among them, or not yet.
pub data Gathered : Type 0 where
  all_done some_raised not_yet : Gathered

unfoldable pub gather_tasks : Task → Task → Gathered
gather_tasks failed t = some_raised
gather_tasks t failed = some_raised
gather_tasks finished finished = all_done
gather_tasks t u = not_yet

-- A process that has started ends at some time.
abbrev pub leave : Life → Life
leave unstarted = unstarted
leave l = gone

abbrev pub is_gone : Life → Bool
is_gone gone = true
is_gone l = false

module _ {P O : Type 0} where
  abbrev pub go_to : Place P O → State P O → State P O
  go_to p s = record s { place = p }

  -- `second.send_signal(SIGINT)`: the variable may be unbound and the process gone, and either is an
  -- exception, which ends the `finally` block.
  unfoldable pub interrupt_second : O → Life → State P O → State P O
  interrupt_second r running s = record s { second = interrupted; place = gathering r }
  interrupt_second r interrupted s = record s { second = interrupted; place = gathering r }
  interrupt_second r unstarted s = go_to (ended r) s
  interrupt_second r gone s = go_to (ended r) s

  -- `first.send_signal(SIGINT)` comes before it, with the same exceptions.
  unfoldable pub interrupt_first : O → Life → State P O → State P O
  unfolding interrupt_second
  interrupt_first r running s = interrupt_second r s.second (record s { first = interrupted })
  interrupt_first r interrupted s = interrupt_second r s.second (record s { first = interrupted })
  interrupt_first r unstarted s = go_to (ended r) s
  interrupt_first r gone s = go_to (ended r) s

  -- The `finally` block up to the first `await`, after a body that ended with `r`.
  unfoldable pub wind_down : O → State P O → State P O
  unfolding interrupt_first
  wind_down r s = interrupt_first r s.first (record s { should_exit = true })

  -- `await asyncio.gather(first_out, second_out)`, when it is looked at. What a task raised is caught
  -- and printed.
  unfoldable pub after_gather : O → Gathered → State P O → State P O
  after_gather r all_done s = go_to (communicating r) s
  after_gather r some_raised s = go_to (ended r) s
  after_gather r not_yet s = s

  -- `await asyncio.gather(first.communicate(), second.communicate())`.
  unfoldable pub after_communicate : O → State P O → State P O
  after_communicate r s = if is_gone s.first && is_gone s.second then go_to (ended r) s else s
