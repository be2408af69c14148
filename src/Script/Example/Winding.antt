-- ===== src/Script/Example/Winding.antt =====
-- .github/script/run_example.py as a script whose `finally` block winds down.
use bpftime_benchmark.Prelude.{◌≡◌, refl, ap, ◌∙◌, true, false, some}
use bpftime_benchmark.Script.Process.{
  Place, body, gathering, communicating, ended, gather_tasks, is_gone,
}
use bpftime_benchmark.Script.Process.Invariant.{is_unstarted, is_absent}
use bpftime_benchmark.Script.Process.Outcome.{decided}
use bpftime_benchmark.Script.Monitor.{Turn, as_notified}
use bpftime_benchmark.Script.Monitor.Closing.{is_closed, take_turn-is_closed}
use bpftime_benchmark.Script.Winding.{
  Settles, Waits, for_tasks, for_processes, Past, tasks_over, all_over, Script,
}
use bpftime_benchmark.Script.Winding.Parts.{
  leaves, Settles-refl, moved-Settles, first_turn-Settles, second_turn-Settles, first_exit-Settles,
  second_exit-Settles, after_gather-Settles, after_communicate-Settles, after_gather-Past,
  after_communicate-Past, after_communicate-ended,
}
use bpftime_benchmark.Script.Command.{Args}
use bpftime_benchmark.Script.Example.{
  Await, Outcome, Event, woken, raised, server_turn, agent_turn, server_exit, agent_exit,
  ExampleState, server_callbacks, agent_callbacks, turn_server, turn_agent, woken_at, raised_at,
  react, step_at, step,
}
use bpftime_benchmark.Script.Example.Invariant.{shape, step-IsWellFormed}
use bpftime_benchmark.Script.Example.Refinement.{step-GoesOn}

module _ (a : Args) (s : ExampleState) (r : Outcome) where
  pub step-ended : (e : Event) → s.place ≡ ended r → (step a e s).place ≡ ended r
  unfolding step step_at
  step-ended e h = ap (λ (p : Place Await Outcome). (step_at a e p s).place) h ∙ h

  pub step-Settles : (e : Event) → decided s.place ≡ some r → Settles s (step a e s)
  unfolding step step_at react turn_server turn_agent woken_at raised_at
  step-Settles e h = go e s.place h
    where
      go :
          (e : Event) (p : Place Await Outcome)
          → decided p ≡ some r
          → Settles (record s { place = p }) (step a e (record s { place = p }))
      go e (body p) h = cc
      go e (ended q) h = Settles-refl (record s { place = ended q })
      go woken (gathering q) h =
          after_gather-Settles (record s { place = gathering q }) q
            (gather_tasks s.first_out s.second_out)
      go woken (communicating q) h =
          after_communicate-Settles (record s { place = communicating q }) q
      go raised (gathering q) h = Settles-refl (record s { place = gathering q })
      go raised (communicating q) h = moved-Settles (record s { place = communicating q }) (ended q)
      go (server_turn t) (gathering q) h =
          first_turn-Settles (record s { place = gathering q }) (server_callbacks a) false
            (as_notified s.should_exit t)
      go (server_turn t) (communicating q) h =
          first_turn-Settles (record s { place = communicating q }) (server_callbacks a) false
            (as_notified s.should_exit t)
      go (agent_turn t) (gathering q) h =
          second_turn-Settles (record s { place = gathering q }) (agent_callbacks a) true
            (as_notified s.should_exit t)
      go (agent_turn t) (communicating q) h =
          second_turn-Settles (record s { place = communicating q }) (agent_callbacks a) true
            (as_notified s.should_exit t)
      go server_exit (gathering q) h = first_exit-Settles (record s { place = gathering q })
      go server_exit (communicating q) h = first_exit-Settles (record s { place = communicating q })
      go agent_exit (gathering q) h = second_exit-Settles (record s { place = gathering q })
      go agent_exit (communicating q) h = second_exit-Settles (record s { place = communicating q })

  pub step-Past : (e : Event) → Past r s.place → Past r (step a e s).place
  unfolding step step_at react turn_server turn_agent woken_at raised_at
  step-Past e h = go e s.place h
    where
      go :
          (e : Event) (p : Place Await Outcome)
          → Past r p
          → Past r (step a e (record s { place = p })).place
      go e p all_over = all_over
      go woken p tasks_over =
          after_communicate-Past (record s { place = communicating r }) r tasks_over
      go raised p tasks_over = all_over
      go (server_turn t) p tasks_over = tasks_over
      go (agent_turn t) p tasks_over = tasks_over
      go server_exit p tasks_over = tasks_over
      go agent_exit p tasks_over = tasks_over

  pub first_closes :
      (t : Turn)
      → t.notified ≡ true
      → s.should_exit ≡ true
      → is_absent s.first_out ≡ false
      → Waits r s.place
      → is_closed (step a (server_turn t) s).first_out ≡ true
  unfolding step step_at react turn_server
  first_closes t ht x k w = go s.place w
    where
      v : Turn
      v = as_notified s.should_exit t

      closed : is_closed (turn_server a t s).first_out ≡ true
      closed =
          take_turn-is_closed (server_callbacks a) false v s.signals s.first_out (rw (ht, x) refl) k

      go :
          (p : Place Await Outcome)
          → Waits r p
          → is_closed (step a (server_turn t) (record s { place = p })).first_out ≡ true
      go p for_tasks = closed
      go p for_processes = closed

  pub second_closes :
      (t : Turn)
      → t.notified ≡ true
      → s.should_exit ≡ true
      → is_absent s.second_out ≡ false
      → Waits r s.place
      → is_closed (step a (agent_turn t) s).second_out ≡ true
  unfolding step step_at react turn_agent
  second_closes t ht x k w = go s.place w
    where
      v : Turn
      v = as_notified s.should_exit t

      closed : is_closed (turn_agent a t s).second_out ≡ true
      closed =
          take_turn-is_closed (agent_callbacks a) true v s.signals s.second_out (rw (ht, x) refl) k

      go :
          (p : Place Await Outcome)
          → Waits r p
          → is_closed (step a (agent_turn t) (record s { place = p })).second_out ≡ true
      go p for_tasks = closed
      go p for_processes = closed

  pub gathers :
      is_closed s.first_out ≡ true
      → is_closed s.second_out ≡ true
      → Waits r s.place
      → Past r (step a woken s).place
  unfolding step step_at react woken_at
  gathers hf hs w = go s.place w
    where
      go :
          (p : Place Await Outcome)
          → Waits r p
          → Past r (step a woken (record s { place = p })).place
      go p for_tasks = after_gather-Past (record s { place = gathering r }) r hf hs
      go p for_processes =
          after_communicate-Past (record s { place = communicating r }) r tasks_over

  pub first_leaves :
      is_unstarted s.first ≡ false → Waits r s.place → is_gone (step a server_exit s).first ≡ true
  unfolding step step_at react
  first_leaves h w = go s.place w
    where
      go :
          (p : Place Await Outcome)
          → Waits r p
          → is_gone (step a server_exit (record s { place = p })).first ≡ true
      go p for_tasks = leaves s.first h
      go p for_processes = leaves s.first h

  pub second_leaves :
      is_unstarted s.second ≡ false → Waits r s.place → is_gone (step a agent_exit s).second ≡ true
  unfolding step step_at react
  second_leaves h w = go s.place w
    where
      go :
          (p : Place Await Outcome)
          → Waits r p
          → is_gone (step a agent_exit (record s { place = p })).second ≡ true
      go p for_tasks = leaves s.second h
      go p for_processes = leaves s.second h

  pub communicates :
      is_gone s.first ≡ true
      → is_gone s.second ≡ true
      → Past r s.place
      → (step a woken s).place ≡ ended r
  unfolding step step_at react woken_at
  communicates hf hs w = go s.place w
    where
      go :
          (p : Place Await Outcome)
          → Past r p
          → (step a woken (record s { place = p })).place ≡ ended r
      go p tasks_over = after_communicate-ended (record s { place = communicating r }) r hf hs
      go p all_over = refl

-- The server is the first process, and the agent the second one.
abbrev pub example_script : (a : Args) → Script Await Outcome Event (shape a)
example_script a = record {
  step = step a;
  first_turn = server_turn;
  second_turn = agent_turn;
  woken = woken;
  first_exit = server_exit;
  second_exit = agent_exit;
  step_fits = step-IsWellFormed a;
  step_decided = λ e s r. (step-GoesOn a e s).keeps r;
  step_settles = λ e s r. step-Settles a s r e;
  step_past = λ e s r. step-Past a s r e;
  step_ended = λ e s r. step-ended a s r e;
  first_closes = λ t s r. first_closes a s r t;
  second_closes = λ t s r. second_closes a s r t;
  gathers = gathers a;
  first_leaves = first_leaves a;
  second_leaves = second_leaves a;
  communicates = communicates a;
}
