-- ===== src/Script/Process/Finally.antt =====
-- The `finally` block of either script keeps what holds between two events.
use bpftime_benchmark.Prelude.{◌≡◌, refl, ◌∙◌, ap, true, false, ◌&&◌, Bool-cases, inl, inr}
use bpftime_benchmark.Script.Process.{
  Life, unstarted, running, interrupted, gone, Place, gathering, communicating, ended, State,
  Gathered, all_done, some_raised, not_yet, is_gone, go_to, interrupt_second, interrupt_first,
  wind_down, after_gather, after_communicate,
}
use bpftime_benchmark.Script.Process.Invariant.{is_unstarted, is_absent, Shape, Earned, AtEnd, Fits}

module _ {P O : Type 0} (shape : Shape P O) where
  -- An outcome that is decided, and the tasks of the processes.
  record Decided (r : O) (s : State P O) : Type 0 where
    exits : s.should_exit ≡ true
    first_paired : is_absent s.first_out ≡ is_unstarted s.first
    second_paired : is_absent s.second_out ≡ is_unstarted s.second
    earned : Earned shape r s.signals

  over : (r : O) (s : State P O) → Decided r s → Fits shape (go_to (ended r) s)
  over r s d = record {
    first_paired = d.first_paired;
    second_paired = d.second_paired;
    at_place = d.earned;
  }

  both :
      (r : O) (s : State P O)
      → Decided r s
      → is_unstarted s.first ≡ false
      → is_unstarted s.second ≡ false
      → Fits shape (record s { second = interrupted; place = gathering r })
  both r s d f e = record {
    first_paired = d.first_paired;
    second_paired = d.second_paired ∙ e;
    at_place = record {
      exits = d.exits;
      first_started = f;
      second_started = refl;
      earned = d.earned;
    };
  }

  interrupt_second-Fits :
      (r : O) (l : Life) (s : State P O)
      → s.second ≡ l
      → is_unstarted s.first ≡ false
      → Decided r s
      → Fits shape (interrupt_second r l s)
  unfolding interrupt_second
  interrupt_second-Fits r unstarted s e f d = over r s d
  interrupt_second-Fits r running s e f d = both r s d f (ap is_unstarted e)
  interrupt_second-Fits r interrupted s e f d = both r s d f (ap is_unstarted e)
  interrupt_second-Fits r gone s e f d = over r s d

  first_interrupted :
      (r : O) (s : State P O)
      → is_unstarted s.first ≡ false
      → Decided r s
      → Decided r (record s { first = interrupted })
  first_interrupted r s f d = record {
    exits = d.exits;
    first_paired = d.first_paired ∙ f;
    second_paired = d.second_paired;
    earned = d.earned;
  }

  interrupt_first-Fits :
      (r : O) (l : Life) (s : State P O)
      → s.first ≡ l
      → Decided r s
      → Fits shape (interrupt_first r l s)
  unfolding interrupt_first
  interrupt_first-Fits r unstarted s e d = over r s d
  interrupt_first-Fits r running s e d =
      interrupt_second-Fits r s.second (record s { first = interrupted }) refl refl
        (first_interrupted r s (ap is_unstarted e) d)
  interrupt_first-Fits r interrupted s e d =
      interrupt_second-Fits r s.second (record s { first = interrupted }) refl refl
        (first_interrupted r s (ap is_unstarted e) d)
  interrupt_first-Fits r gone s e d = over r s d

  pub wind_down-Fits :
      (r : O) (s : State P O) → Fits shape s → Earned shape r s.signals → Fits shape (wind_down r s)
  unfolding wind_down
  wind_down-Fits r s f e =
      interrupt_first-Fits r s.first (record s { should_exit = true }) refl
        (record {
          exits = refl;
          first_paired = f.first_paired;
          second_paired = f.second_paired;
          earned = e;
        })

  AtEnd-moved :
      (r : O) (p : Place P O) (s : State P O) → AtEnd shape r s → AtEnd shape r (go_to p s)
  AtEnd-moved r p s e = record {
    exits = e.exits;
    first_started = e.first_started;
    second_started = e.second_started;
    earned = e.earned;
  }

  pub after_gather-Fits :
      (r : O) (g : Gathered) (s : State P O)
      → Fits shape s
      → AtEnd shape r s
      → Fits shape (after_gather r g s)
  unfolding after_gather
  after_gather-Fits r all_done s f e = record {
    first_paired = f.first_paired;
    second_paired = f.second_paired;
    at_place = AtEnd-moved r (communicating r) s e;
  }
  after_gather-Fits r some_raised s f e = record {
    first_paired = f.first_paired;
    second_paired = f.second_paired;
    at_place = e.earned;
  }
  after_gather-Fits r not_yet s f e = f

  pub after_communicate-Fits :
      (r : O) (s : State P O) → Fits shape s → AtEnd shape r s → Fits shape (after_communicate r s)
  unfolding after_communicate
  after_communicate-Fits r s f e = elim (Bool-cases (is_gone s.first && is_gone s.second)) [
    | inl done ↦ rw done (record {
      first_paired = f.first_paired;
      second_paired = f.second_paired;
      at_place = e.earned;
    })
    | inr waits ↦ rw waits f
  ]
