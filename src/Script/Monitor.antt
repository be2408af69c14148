-- ===== src/Script/Monitor.antt =====
-- `handle_stdout` of .github/script/run_example.py, one round at a time.
pub mod Laws
pub mod Turns
pub mod Closing
use bpftime_benchmark.Prelude.{◌||◌, ◌&&◌, Bool, true, false, List, [], ◌∷◌, if◌then◌else◌}
use bpftime_benchmark.Text.Base.{Text, codes, contains}
use bpftime_benchmark.Script.Process.{
  Task, absent, listening, finished, failed, Signal, Signals, set_signal,
}

-- The read of a line: under way, done, or an exception, such as that of bytes that are no UTF-8. At
-- the end of the output the line is empty.
pub data Read : Type 0 where
  pending : Read
  line : Text → Read
  unreadable : Read

-- What `asyncio.wait` comes back with, and what `stdout.at_eof()` says then.
pub record Turn : Type 0 where
  pub read : Read
  pub notified : Bool
  pub at_eof : Bool

-- The notification can be done only where `should_exit` is set.
abbrev pub as_notified : Bool → Turn → Turn
as_notified should_exit t = record t { notified = t.notified && should_exit }

-- The events after a round, and what has become of the task.
pub record Heard : Type 0 where
  pub signals : Signals
  pub task : Task

abbrev pub Callbacks : Type 0
Callbacks = List (Signal × Text)

-- `for callback in callback_all`.
unfoldable pub ring : Text → Callbacks → Signals → Signals
ring s [] g = g
ring s ((evt, sig) ∷ callbacks) g =
    ring s callbacks (if contains s sig then set_signal evt g else g)

abbrev pub error_mark : Text
error_mark = codes "[error]"

-- The two tests at the end of a round.
unfoldable pub end_round : Turn → Signals → Heard
end_round t g = record {
  signals = g;
  task = if t.notified then finished else if t.at_eof then finished else listening;
}

-- The assertion stands behind the callbacks: a line can set an event and end the task.
unfoldable pub hear_read : Callbacks → Bool → Turn → Signals → Read → Heard
unfolding ring end_round
hear_read callbacks check_error t g pending = end_round t g
hear_read callbacks check_error t g unreadable = record { signals = g; task = failed }
hear_read callbacks check_error t g (line s) =
    if check_error && contains s error_mark
    then record { signals = ring s callbacks g; task = failed }
    else end_round t (ring s callbacks g)

unfoldable pub monitor_round : Callbacks → Bool → Turn → Signals → Heard
unfolding hear_read
monitor_round callbacks check_error t g = hear_read callbacks check_error t g t.read

-- A task that is not under way takes no turn.
unfoldable pub take_turn : Callbacks → Bool → Turn → Signals → Task → Heard
unfolding monitor_round
take_turn callbacks check_error t g listening = monitor_round callbacks check_error t g
take_turn callbacks check_error t g task = record { signals = g; task = task }

-- The loop over the turns that there are.
unfoldable pub follow : Callbacks → Bool → List Turn → Heard → Heard
unfolding take_turn
follow callbacks check_error [] h = h
follow callbacks check_error (t ∷ ts) h =
    follow callbacks check_error ts (take_turn callbacks check_error t h.signals h.task)
