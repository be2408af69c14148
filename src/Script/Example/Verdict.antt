-- ===== src/Script/Example/Verdict.antt =====
-- What the status of .github/script/run_example.py says about the output of the two processes.
use bpftime_benchmark.Prelude.{
  any, or_later, or_now, any-same, ◌≡◌, refl, ◌∙◌, sym, Bool, true, false, List, [], ◌∷◌, ◌⊎◌, ap,
  inl, inr, arith,
}
use bpftime_benchmark.Text.Base.{Text}
use bpftime_benchmark.Script.Process.{
  Place, body, gathering, communicating, ended, Signal, start_signal, final_signal,
}
use bpftime_benchmark.Script.Process.Invariant.{Earned}
use bpftime_benchmark.Script.Process.Outcome.{decided}
use bpftime_benchmark.Script.Monitor.{as_notified, Read, pending, line, unreadable}
use bpftime_benchmark.Script.Monitor.Laws.{is_set, read_rings, read_shows}
use bpftime_benchmark.Script.Monitor.Turns.{take_turn-is_set}
use bpftime_benchmark.Script.Command.{Args, skips_check}
use bpftime_benchmark.Script.Example.{
  Await, Outcome, succeeded, returned, timed_out, not_created, Event, woken, raised, server_turn,
  agent_turn, server_exit, agent_exit, ExampleState, server_start_signal, server_callbacks,
  agent_callbacks, turn_server, turn_agent, react, step_at, step, run, start, exit_code,
}
use bpftime_benchmark.Script.Example.Invariant.{shape, run-IsWellFormed, start-IsWellFormed}
use bpftime_benchmark.Script.Example.Refinement.{decided-Earned, woken-signals, raised-signals}

-- The server prints a line with the text.
abbrev pub server_shows : Text → Event → Bool
server_shows sig (server_turn t) = read_shows sig t.read
server_shows sig e = false

-- One of the processes does.
abbrev pub shows : Text → Event → Bool
shows sig (server_turn t) = read_shows sig t.read
shows sig (agent_turn t) = read_shows sig t.read
shows sig e = false

module _ (a : Args) where
  -- The lines that set a signal.
  abbrev server_rings : Signal → Read → Bool
  server_rings start_signal r = read_shows server_start_signal r
  server_rings final_signal r = read_shows a.expected_str r

  abbrev agent_rings : Signal → Read → Bool
  agent_rings start_signal r = false
  agent_rings final_signal r = read_shows a.expected_str r

  abbrev pub rings_in : Signal → Event → Bool
  rings_in d (server_turn t) = server_rings d t.read
  rings_in d (agent_turn t) = agent_rings d t.read
  rings_in d e = false

  server_line_rings :
      (d : Signal) (r : Read) → read_rings d (server_callbacks a) r ≡ true → server_rings d r ≡ true
  unfolding server_callbacks
  server_line_rings start_signal (line s) h = ground arith
  server_line_rings final_signal (line s) h = ground arith
  server_line_rings d pending h = cc
  server_line_rings d unreadable h = cc

  agent_line_rings :
      (d : Signal) (r : Read) → read_rings d (agent_callbacks a) r ≡ true → agent_rings d r ≡ true
  unfolding agent_callbacks
  agent_line_rings start_signal (line s) h = ground arith
  agent_line_rings final_signal (line s) h = ground arith
  agent_line_rings d pending h = cc
  agent_line_rings d unreadable h = cc

  react-is_set :
      (d : Signal) (e : Event) (s : ExampleState)
      → is_set d (react a e s).signals ≡ true
      → (is_set d s.signals ≡ true) ⊎ (rings_in d e ≡ true)
  unfolding react turn_server turn_agent
  react-is_set d woken s h = inl (ap (is_set d) (sym (woken-signals a s.place s refl)) ∙ h)
  react-is_set d raised s h = inl (ap (is_set d) (sym (raised-signals s.place s)) ∙ h)
  react-is_set d (server_turn t) s h =
      elim (take_turn-is_set (server_callbacks a) false (as_notified s.should_exit t) s.signals d
        s.first_out h) [
          | inl before ↦ inl before
          | inr rung ↦ inr (server_line_rings d t.read rung)
        ]
  react-is_set d (agent_turn t) s h =
      elim (take_turn-is_set (agent_callbacks a) true (as_notified s.should_exit t) s.signals d
        s.second_out h) [
          | inl before ↦ inl before
          | inr rung ↦ inr (agent_line_rings d t.read rung)
        ]
  react-is_set d server_exit s h = inl h
  react-is_set d agent_exit s h = inl h

  pub step-is_set :
      (d : Signal) (e : Event) (s : ExampleState)
      → is_set d (step a e s).signals ≡ true
      → (is_set d s.signals ≡ true) ⊎ (rings_in d e ≡ true)
  unfolding step
  step-is_set d e s = go s.place
    where
      go :
          (p : Place Await Outcome)
          → is_set d (step_at a e p s).signals ≡ true
          → (is_set d s.signals ≡ true) ⊎ (rings_in d e ≡ true)
      go (ended r) h = inl h
      go (body p) h = react-is_set d e s h
      go (gathering r) h = react-is_set d e s h
      go (communicating r) h = react-is_set d e s h

  run-is_set :
      (d : Signal) (es : List Event) (s : ExampleState)
      → is_set d (run a es s).signals ≡ true
      → (is_set d s.signals ≡ true) ⊎ (any (rings_in d) es ≡ true)
  unfolding run
  run-is_set d [] s h = inl h
  run-is_set d (e ∷ es) s h = elim (run-is_set d es (step a e s) h) [
    | inr later ↦ inr (or_later (rings_in d e) later)
    | inl stepped ↦ elim (step-is_set d e s stepped) [
      | inl before ↦ inl before
      | inr now ↦ inr (or_now (any (rings_in d) es) now)
    ]
  ]

  -- The two events are unset at the start, so that a line has set them.
  set-shown :
      (d : Signal) (es : List Event)
      → is_set d (run a es start).signals ≡ true
      → any (rings_in d) es ≡ true
  set-shown start_signal es h = elim (run-is_set start_signal es start h) [ inl e ↦ cc | inr e ↦ e ]
  set-shown final_signal es h = elim (run-is_set final_signal es start h) [ inl e ↦ cc | inr e ↦ e ]

  pub rings_in-server_shows :
      (e : Event) → rings_in start_signal e ≡ server_shows server_start_signal e
  rings_in-server_shows woken = refl
  rings_in-server_shows raised = refl
  rings_in-server_shows (server_turn t) = refl
  rings_in-server_shows (agent_turn t) = refl
  rings_in-server_shows server_exit = refl
  rings_in-server_shows agent_exit = refl

  started-shown :
      (es : List Event)
      → is_set start_signal (run a es start).signals ≡ true
      → any (server_shows server_start_signal) es ≡ true
  started-shown es h =
      sym (
        any-same (rings_in start_signal) (server_shows server_start_signal) rings_in-server_shows
          es)
      ∙ set-shown start_signal es h

  pub rings_in-shows : (e : Event) → rings_in final_signal e ≡ shows a.expected_str e
  rings_in-shows woken = refl
  rings_in-shows raised = refl
  rings_in-shows (server_turn t) = refl
  rings_in-shows (agent_turn t) = refl
  rings_in-shows server_exit = refl
  rings_in-shows agent_exit = refl

  printed-shown :
      (es : List Event)
      → is_set final_signal (run a es start).signals ≡ true
      → any (shows a.expected_str) es ≡ true
  printed-shown es h =
      sym (any-same (rings_in final_signal) (shows a.expected_str) rings_in-shows es)
      ∙ set-shown final_signal es h

  vouched :
      (es : List Event) (r : Outcome)
      → exit_code r ≡ 0
      → Earned (shape a) r (run a es start).signals
      → (any (server_shows server_start_signal) es ≡ true)
        × ((skips_check a ≡ true) ⊎ (any (shows a.expected_str) es ≡ true))
  unfolding exit_code
  vouched es succeeded z e =
      (started-shown es (e.earned_start refl), inr (printed-shown es (e.earned_final refl)))
  vouched es returned z e = (started-shown es (e.earned_start refl), inl e.admitted)
  vouched es timed_out z e = ground arith
  vouched es not_created z e = ground arith

  -- If the script ends with status 0, the server has printed the line that says that it has started,
  -- and the expected text has been printed by one of the two processes, unless the name of the
  -- executable has `readline` in it.
  pub exit_code_sound :
      (es : List Event) (r : Outcome)
      → (run a es start).place ≡ ended r
      → exit_code r ≡ 0
      → (any (server_shows server_start_signal) es ≡ true)
        × ((skips_check a ≡ true) ⊎ (any (shows a.expected_str) es ≡ true))
  exit_code_sound es r h z =
      let f = run-IsWellFormed a es start (start-IsWellFormed a) in
      let s = run a es start in
      vouched es r z (decided-Earned a r s.place s f.at_place (ap decided h))
