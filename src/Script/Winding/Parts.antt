-- ===== src/Script/Winding/Parts.antt =====
-- What the events of a script do to the tasks and processes that its `finally` block waits for.
use bpftime_benchmark.Prelude.{◌≡◌, refl, ap, ◌∙◌, Bool, true, false, ◌&&◌, if◌then◌else◌, if_intro}
use bpftime_benchmark.Script.Process.{
  Life, unstarted, running, interrupted, gone, Task, absent, listening, finished, failed, Signals,
  Place, communicating, ended, State, Gathered, all_done, some_raised, not_yet, gather_tasks, leave,
  is_gone, go_to, after_gather, after_communicate,
}
use bpftime_benchmark.Script.Process.Invariant.{is_unstarted, Implies}
use bpftime_benchmark.Script.Monitor.{Turn, Callbacks, take_turn}
use bpftime_benchmark.Script.Monitor.Closing.{is_closed, leave-gone}
use bpftime_benchmark.Script.Winding.{Settles, Past, tasks_over, all_over}

-- A task that is over takes no turn.
take_turn-stays_closed :
    (callbacks : Callbacks) (check_error : Bool) (t : Turn) (g : Signals) (k : Task)
    → Implies (is_closed k) (is_closed (take_turn callbacks check_error t g k).task)
unfolding take_turn
take_turn-stays_closed callbacks check_error t g absent h = h
take_turn-stays_closed callbacks check_error t g listening h = cc
take_turn-stays_closed callbacks check_error t g finished h = h
take_turn-stays_closed callbacks check_error t g failed h = h

leave-is_gone : (l : Life) → Implies (is_gone l) (is_gone (leave l))
leave-is_gone unstarted h = h
leave-is_gone running h = refl
leave-is_gone interrupted h = refl
leave-is_gone gone h = refl

pub leaves : (l : Life) → is_unstarted l ≡ false → is_gone (leave l) ≡ true
leaves l h = ap is_gone (leave-gone l h)

module _ {P O : Type 0} (s : State P O) where
  pub Settles-refl : Settles s s
  Settles-refl = record {
    first_closed = λ h. h;
    second_closed = λ h. h;
    first_gone = λ h. h;
    second_gone = λ h. h;
  }

  pub moved-Settles : (p : Place P O) → Settles s (go_to p s)
  moved-Settles p = record {
    first_closed = λ h. h;
    second_closed = λ h. h;
    first_gone = λ h. h;
    second_gone = λ h. h;
  }

  pub first_turn-Settles :
      (callbacks : Callbacks) (check_error : Bool) (t : Turn)
      → let h = take_turn callbacks check_error t s.signals s.first_out in
        Settles s (record s { signals = h.signals; first_out = h.task })
  first_turn-Settles callbacks check_error t = record {
    first_closed = take_turn-stays_closed callbacks check_error t s.signals s.first_out;
    second_closed = λ h. h;
    first_gone = λ h. h;
    second_gone = λ h. h;
  }

  pub second_turn-Settles :
      (callbacks : Callbacks) (check_error : Bool) (t : Turn)
      → let h = take_turn callbacks check_error t s.signals s.second_out in
        Settles s (record s { signals = h.signals; second_out = h.task })
  second_turn-Settles callbacks check_error t = record {
    first_closed = λ h. h;
    second_closed = take_turn-stays_closed callbacks check_error t s.signals s.second_out;
    first_gone = λ h. h;
    second_gone = λ h. h;
  }

  pub first_exit-Settles : Settles s (record s { first = leave s.first })
  first_exit-Settles = record {
    first_closed = λ h. h;
    second_closed = λ h. h;
    first_gone = leave-is_gone s.first;
    second_gone = λ h. h;
  }

  pub second_exit-Settles : Settles s (record s { second = leave s.second })
  second_exit-Settles = record {
    first_closed = λ h. h;
    second_closed = λ h. h;
    first_gone = λ h. h;
    second_gone = leave-is_gone s.second;
  }

  pub after_gather-Settles : (r : O) (g : Gathered) → Settles s (after_gather r g s)
  unfolding after_gather
  after_gather-Settles r all_done = moved-Settles (communicating r)
  after_gather-Settles r some_raised = moved-Settles (ended r)
  after_gather-Settles r not_yet = Settles-refl

  pub after_communicate-Settles : (r : O) → Settles s (after_communicate r s)
  unfolding after_communicate
  after_communicate-Settles r =
      if_intro (Settles s) (is_gone s.first && is_gone s.second) (λ _. moved-Settles (ended r))
        (λ _. Settles-refl)

  -- Two tasks that are over end the first wait.
  pub after_gather-Past :
      (r : O)
      → is_closed s.first_out ≡ true
      → is_closed s.second_out ≡ true
      → Past r (after_gather r (gather_tasks s.first_out s.second_out) s).place
  unfolding after_gather gather_tasks
  after_gather-Past r hf hs = go s.first_out s.second_out hf hs
    where
      go :
          (k m : Task)
          → is_closed k ≡ true
          → is_closed m ≡ true
          → Past r (after_gather r (gather_tasks k m) s).place
      go failed m hk hm = all_over
      go finished failed hk hm = all_over
      go finished finished hk hm = tasks_over
      go finished absent hk hm = cc
      go finished listening hk hm = cc
      go absent m hk hm = cc
      go listening m hk hm = cc

  pub after_communicate-Past : (r : O) → Past r s.place → Past r (after_communicate r s).place
  unfolding after_communicate
  after_communicate-Past r h =
      if_intro (λ (u : State P O). Past r u.place) (is_gone s.first && is_gone s.second)
        (λ _. all_over) (λ _. h)

  pub after_communicate-ended :
      (r : O)
      → is_gone s.first ≡ true
      → is_gone s.second ≡ true
      → (after_communicate r s).place ≡ ended r
  unfolding after_communicate
  after_communicate-ended r hf hs =
      ap (λ b. (if b then go_to (ended r) s else s).place) (ap (λ b. b && is_gone s.second) hf ∙ hs)
