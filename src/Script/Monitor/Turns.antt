-- ===== src/Script/Monitor/Turns.antt =====
-- What a turn of a task changes: it sets events, as the line that it reads rings them, and neither
-- creates a task nor moves `main`.
use bpftime_benchmark.Prelude.{◌≡◌, refl, Bool, true, false, inl, ◌⊎◌, arith}
use bpftime_benchmark.Script.Process.{
  Task, absent, listening, finished, failed, Signal, start_signal, final_signal, Signals, State,
  leave,
}
use bpftime_benchmark.Script.Process.Invariant.{
  is_absent, Implies, Grows, Grows-refl, Quiet, leave-is_unstarted,
}
use bpftime_benchmark.Script.Monitor.{
  Read, pending, line, unreadable, Turn, Callbacks, monitor_round, take_turn,
}
use bpftime_benchmark.Script.Monitor.Laws.{
  is_set, read_rings, task_after, hear_read-is_set, hear_read-task,
}

module _ (callbacks : Callbacks) (check_error : Bool) (t : Turn) (g : Signals) where
  -- An event that is set behind a turn was set before or is rung by the line.
  pub take_turn-is_set :
      (e : Signal) (k : Task)
      → is_set e (take_turn callbacks check_error t g k).signals ≡ true
      → (is_set e g ≡ true) ⊎ (read_rings e callbacks t.read ≡ true)
  unfolding take_turn monitor_round
  take_turn-is_set e absent h = inl h
  take_turn-is_set e finished h = inl h
  take_turn-is_set e failed h = inl h
  take_turn-is_set e listening h =
      let rung = hear_read-is_set e callbacks check_error t g t.read in ground (arith, rung)

  take_turn-stays_set :
      (e : Signal) (k : Task)
      → Implies (is_set e g) (is_set e (take_turn callbacks check_error t g k).signals)
  unfolding take_turn monitor_round
  take_turn-stays_set e absent h = h
  take_turn-stays_set e finished h = h
  take_turn-stays_set e failed h = h
  take_turn-stays_set e listening h =
      let rung = hear_read-is_set e callbacks check_error t g t.read in ground (arith, rung)

  take_turn-Grows : (k : Task) → Grows g (take_turn callbacks check_error t g k).signals
  take_turn-Grows k = record {
    start_grows = take_turn-stays_set start_signal k;
    final_grows = take_turn-stays_set final_signal k;
  }

  task_after-is_absent : (r : Read) → is_absent (task_after check_error t r) ≡ false
  task_after-is_absent pending = ground arith
  task_after-is_absent unreadable = refl
  task_after-is_absent (line s) = ground arith

  take_turn-is_absent :
      (k : Task) → is_absent (take_turn callbacks check_error t g k).task ≡ is_absent k
  unfolding take_turn monitor_round
  take_turn-is_absent absent = refl
  take_turn-is_absent finished = refl
  take_turn-is_absent failed = refl
  take_turn-is_absent listening =
      rw (hear_read-task callbacks check_error t g t.read) (task_after-is_absent t.read)

module _ {P O : Type 0} (s : State P O) where
  pub first_turn-Quiet :
      (callbacks : Callbacks) (check_error : Bool) (t : Turn)
      → let h = take_turn callbacks check_error t s.signals s.first_out in
        Quiet s (record s { signals = h.signals; first_out = h.task })
  first_turn-Quiet callbacks check_error t = record {
    same_place = refl;
    same_exit = refl;
    same_first = refl;
    same_second = refl;
    same_first_out = take_turn-is_absent callbacks check_error t s.signals s.first_out;
    same_second_out = refl;
    grows = take_turn-Grows callbacks check_error t s.signals s.first_out;
  }

  pub second_turn-Quiet :
      (callbacks : Callbacks) (check_error : Bool) (t : Turn)
      → let h = take_turn callbacks check_error t s.signals s.second_out in
        Quiet s (record s { signals = h.signals; second_out = h.task })
  second_turn-Quiet callbacks check_error t = record {
    same_place = refl;
    same_exit = refl;
    same_first = refl;
    same_second = refl;
    same_first_out = refl;
    same_second_out = take_turn-is_absent callbacks check_error t s.signals s.second_out;
    grows = take_turn-Grows callbacks check_error t s.signals s.second_out;
  }

  pub first_exit-Quiet : Quiet s (record s { first = leave s.first })
  first_exit-Quiet = record {
    same_place = refl;
    same_exit = refl;
    same_first = leave-is_unstarted s.first;
    same_second = refl;
    same_first_out = refl;
    same_second_out = refl;
    grows = Grows-refl s.signals;
  }

  pub second_exit-Quiet : Quiet s (record s { second = leave s.second })
  second_exit-Quiet = record {
    same_place = refl;
    same_exit = refl;
    same_first = refl;
    same_second = leave-is_unstarted s.second;
    same_first_out = refl;
    same_second_out = refl;
    grows = Grows-refl s.signals;
  }
