-- ===== src/Script/Monitor/Closing.antt =====
-- The end of the tasks and of the processes, once a script winds down.
use bpftime_benchmark.Prelude.{◌≡◌, refl, ap, ◌∙◌, Bool, true, false, arith}
use bpftime_benchmark.Script.Process.{
  Life, unstarted, running, interrupted, gone, Task, absent, listening, finished, failed, Signals,
  leave,
}
use bpftime_benchmark.Script.Process.Invariant.{is_unstarted, is_absent}
use bpftime_benchmark.Script.Monitor.{
  Read, pending, line, unreadable, Turn, Callbacks, monitor_round, take_turn,
}
use bpftime_benchmark.Script.Monitor.Laws.{task_after, hear_read-task}

abbrev pub is_closed : Task → Bool
is_closed finished = true
is_closed failed = true
is_closed k = false

task_after-is_closed :
    (check_error : Bool) (t : Turn) (r : Read)
    → t.notified ≡ true
    → is_closed (task_after check_error t r) ≡ true
task_after-is_closed check_error t pending h = ground arith
task_after-is_closed check_error t unreadable h = refl
task_after-is_closed check_error t (line s) h = ground arith

-- A task that is notified is over behind its turn.
pub take_turn-is_closed :
    (callbacks : Callbacks) (check_error : Bool) (t : Turn) (g : Signals) (k : Task)
    → t.notified ≡ true
    → is_absent k ≡ false
    → is_closed (take_turn callbacks check_error t g k).task ≡ true
unfolding take_turn monitor_round
take_turn-is_closed callbacks check_error t g absent h e = cc
take_turn-is_closed callbacks check_error t g finished h e = refl
take_turn-is_closed callbacks check_error t g failed h e = refl
take_turn-is_closed callbacks check_error t g listening h e =
    ap is_closed (hear_read-task callbacks check_error t g t.read)
    ∙ task_after-is_closed check_error t t.read h

pub leave-gone : (l : Life) → is_unstarted l ≡ false → leave l ≡ gone
leave-gone unstarted e = cc
leave-gone running e = refl
leave-gone interrupted e = refl
leave-gone gone e = refl
