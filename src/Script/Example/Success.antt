-- ===== src/Script/Example/Success.antt =====
-- The wait of .github/script/run_example.py for the expected text, and the line of the agent that ends
-- it.
use bpftime_benchmark.Prelude.{
  ◌≡◌, refl, ap, ◌∙◌, Bool, true, false, any, some, List, [], ◌∷◌, ◌++◌, ◌⊎◌, inl, inr, if_intro,
  arith,
}
use bpftime_benchmark.Script.Process.{listening, final_signal, body, ended}
use bpftime_benchmark.Script.Process.Outcome.{decided, wind_down-Decides}
use bpftime_benchmark.Script.Monitor.{
  Turn, as_notified, line, pending, unreadable, Read, take_turn, monitor_round,
}
use bpftime_benchmark.Script.Monitor.Laws.{read_rings, read_shows, hear_read-is_set}
use bpftime_benchmark.Script.Winding.{Within}
use bpftime_benchmark.Script.Command.{Args}
use bpftime_benchmark.Script.Example.{
  waiting_for_text, succeeded, Event, woken, raised, server_turn, agent_turn, server_exit,
  agent_exit, ExampleState, agent_callbacks, turn_server, turn_agent, resume, woken_at, react, step,
  run, start, exit_code,
}
use bpftime_benchmark.Script.Example.Invariant.{
  IsWellFormed, step-IsWellFormed, example-IsWellFormed,
}
use bpftime_benchmark.Script.Example.Refinement.{step-GoesOn}
use bpftime_benchmark.Script.Example.Progress.{closing, closing_ends}

-- What `main` awaits raises.
abbrev pub raises : Event → Bool
raises raised = true
raises e = false

-- `main` waits for the text, which has come, or has succeeded.
abbrev Assured : ExampleState → Type 0
Assured s =
    ((s.place ≡ body waiting_for_text) × (s.signals.final ≡ true))
    ⊎ (decided s.place ≡ some succeeded)

module _ (a : Args) where
  waits_on :
      (e : Event) (s : ExampleState) → s.place ≡ body waiting_for_text → step a e s ≡ react a e s
  unfolding step
  waits_on e s h = rw h refl

  -- A line with the text sets the event, whether the task that reads it goes on or not.
  agent_line_rings :
      (r : Read)
      → read_shows a.expected_str r ≡ true
      → read_rings final_signal (agent_callbacks a) r ≡ true
  unfolding agent_callbacks
  agent_line_rings (line s) h = ground arith
  agent_line_rings pending h = cc
  agent_line_rings unreadable h = cc

  text_heard :
      (t : Turn) (s : ExampleState)
      → s.second_out ≡ listening
      → read_shows a.expected_str t.read ≡ true
      → (turn_agent a t s).signals.final ≡ true
  unfolding turn_agent take_turn monitor_round
  text_heard t s h shown =
      let u = as_notified s.should_exit t in
      let rung = agent_line_rings t.read shown in
      let set = hear_read-is_set final_signal (agent_callbacks a) true u s.signals t.read in
      rw h (ground (arith, set, rung))

  text_assures :
      (t : Turn) (s : ExampleState)
      → s.place ≡ body waiting_for_text
      → s.second_out ≡ listening
      → read_shows a.expected_str t.read ≡ true
      → Assured (step a (agent_turn t) s)
  unfolding react turn_agent
  text_assures t s h k shown = rw (waits_on (agent_turn t) s h) (inl (h, text_heard t s k shown))

  woken_succeeds :
      (s : ExampleState)
      → s.place ≡ body waiting_for_text
      → s.signals.final ≡ true
      → decided (step a woken s).place ≡ some succeeded
  unfolding react woken_at resume
  woken_succeeds s h k =
      ap (λ (u : ExampleState). decided u.place) (waits_on woken s h)
      ∙ ap (λ p. decided (woken_at a p s).place) h
      ∙ if_intro (λ (u : ExampleState). decided u.place ≡ some succeeded) s.signals.final
          (λ _. (wind_down-Decides succeeded s).decides) (λ no. cc)

  Assured-woken : (s : ExampleState) → Assured s → decided (step a woken s).place ≡ some succeeded
  Assured-woken s (inl (h, k)) = woken_succeeds s h k
  Assured-woken s (inr h) = (step-GoesOn a woken s).keeps succeeded h

  -- While `main` is not resumed, it waits on.
  waiting-Assured :
      (e : Event) (s : ExampleState)
      → raises e ≡ false
      → s.place ≡ body waiting_for_text
      → s.signals.final ≡ true
      → Assured (step a e s)
  unfolding react turn_server turn_agent
  waiting-Assured e s calm h k = go e calm
    where
      still : (e : Event) → (react a e s).place ≡ s.place → Assured (step a e s)
      still e same = inl (
        ap (λ (u : ExampleState). u.place) (waits_on e s h) ∙ same ∙ h,
        (step-GoesOn a e s).grows.final_grows k,
      )

      go : (e : Event) → raises e ≡ false → Assured (step a e s)
      go woken c = inr (woken_succeeds s h k)
      go raised c = cc
      go (server_turn t) c = still (server_turn t) refl
      go (agent_turn t) c = still (agent_turn t) refl
      go server_exit c = still server_exit refl
      go agent_exit c = still agent_exit refl

  step-Assured :
      (e : Event) (s : ExampleState) → raises e ≡ false → Assured s → Assured (step a e s)
  step-Assured e s calm (inl (h, k)) = waiting-Assured e s calm h k
  step-Assured e s calm (inr h) = inr ((step-GoesOn a e s).keeps succeeded h)

  -- Resumed after events of which none raises, `main` has succeeded, and ends.
  Assured-ends :
      (v u : Turn) (gs hs : List Event) (s : ExampleState)
      → v.notified ≡ true
      → u.notified ≡ true
      → any raises gs ≡ false
      → Within (closing v u) hs
      → IsWellFormed a s
      → Assured s
      → (run a (gs ++ woken ∷ hs) s).place ≡ ended succeeded
  unfolding run
  Assured-ends v u [] hs s hv hu calm w f m =
      closing_ends a v u hv hu succeeded (step a woken s) hs (step-IsWellFormed a woken s f)
        (Assured-woken s m) w
  Assured-ends v u (e ∷ gs) hs s hv hu calm w f m =
      Assured-ends v u gs hs (step a e s) hv hu (ground arith) w (step-IsWellFormed a e s f)
        (step-Assured e s (ground arith) m)

-- In every run that comes to the wait for the expected text while the agent's output is followed: if
-- the agent then prints a line with the text, with an error in it or not, and what `main` awaits raises
-- nothing before `main` is resumed, whatever else happens in between, and what the `finally` block
-- waits for then comes in its order, whatever comes between, the run ends as a success, with status 0.
pub text_succeeds :
    (a : Args) (es : List Event) (t v u : Turn) (gs hs : List Event)
    → (run a es start).place ≡ body waiting_for_text
    → (run a es start).second_out ≡ listening
    → read_shows a.expected_str t.read ≡ true
    → any raises gs ≡ false
    → v.notified ≡ true
    → u.notified ≡ true
    → Within (closing v u) hs
    → ((run a (gs ++ woken ∷ hs) (step a (agent_turn t) (run a es start))).place ≡ ended succeeded)
      × (exit_code succeeded ≡ 0)
unfolding exit_code
text_succeeds a es t v u gs hs h k shown calm hv hu w =
    let s = run a es start in
    (
      Assured-ends a v u gs hs (step a (agent_turn t) s) hv hu calm w
          (step-IsWellFormed a (agent_turn t) s (example-IsWellFormed a es))
          (text_assures a t s h k shown),
      refl,
    )
