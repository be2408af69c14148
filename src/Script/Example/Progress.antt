-- ===== src/Script/Example/Progress.antt =====
-- `main` of .github/script/run_example.py comes to its end.
use bpftime_benchmark.Prelude.{◌≡◌, refl, ap, ◌∙◌, true, some, List, [], ◌∷◌}
use bpftime_benchmark.Script.Process.{Place, body, gathering, communicating, ended}
use bpftime_benchmark.Script.Process.Outcome.{decided, wind_down-Decides}
use bpftime_benchmark.Script.Monitor.{Turn}
use bpftime_benchmark.Script.Winding.{Within, Within-refl, run_of}
use bpftime_benchmark.Script.Winding.Ends.{script_ends}
use bpftime_benchmark.Script.Example.Winding.{example_script}
use bpftime_benchmark.Script.Command.{Args}
use bpftime_benchmark.Script.Example.{
  Await, loading, waiting_for_server, sleeping, starting, waiting_for_text, Outcome, timed_out,
  not_created, Event, woken, raised, server_turn, agent_turn, server_exit, agent_exit, ExampleState,
  resume, fail, woken_at, raised_at, react, step, run,
}
use bpftime_benchmark.Script.Example.Invariant.{IsWellFormed, step-IsWellFormed}
use bpftime_benchmark.Script.Example.Refinement.{step-GoesOn}

-- Each task takes a turn, `main` is resumed, the processes end, and `main` is resumed again.
abbrev pub closing : Turn → Turn → List Event
closing t u = server_turn t ∷ agent_turn u ∷ woken ∷ server_exit ∷ agent_exit ∷ woken ∷ []

run-of : (a : Args) (es : List Event) (s : ExampleState) → run a es s ≡ run_of (step a) es s
unfolding run
run-of a [] s = refl
run-of a (e ∷ es) s = run-of a es (step a e s)

-- What `main` awaits raises; behind the sleep, it is the creation of the agent.
failing_decides :
    (a : Args) (s : ExampleState)
    → (r : Outcome) × (decided (step a raised (step a woken (step a raised s))).place ≡ some r)
unfolding step react raised_at fail woken_at resume
failing_decides a s = go s.place
  where
    keep :
        (u : ExampleState) (r : Outcome)
        → decided (step a raised u).place ≡ some r
        → (r : Outcome) × (decided (step a raised (step a woken (step a raised u))).place ≡ some r)
    keep u r h =
        let v = step a raised u in
        let w = step a woken v in
        (r, (step-GoesOn a raised w).keeps r ((step-GoesOn a woken v).keeps r h))

    go :
        (p : Place Await Outcome)
        → (r : Outcome) × (decided
              (step a raised (step a woken (step a raised (record s { place = p })))).place
            ≡ some r)
    go (body loading) =
        let u = record s { place = body loading } in
        keep u not_created (wind_down-Decides not_created u).decides
    go (body waiting_for_server) =
        let u = record s { place = body waiting_for_server } in
        keep u timed_out (wind_down-Decides timed_out u).decides
    go (body sleeping) =
        (not_created, (wind_down-Decides not_created (record s { place = body starting })).decides)
    go (body starting) =
        let u = record s { place = body starting } in
        keep u not_created (wind_down-Decides not_created u).decides
    go (body waiting_for_text) =
        let u = record s { place = body waiting_for_text } in
        keep u timed_out (wind_down-Decides timed_out u).decides
    go (gathering r) = keep (record s { place = gathering r }) r refl
    go (communicating r) = keep (record s { place = communicating r }) r refl
    go (ended r) = keep (record s { place = ended r }) r refl

module _ (a : Args) (t u : Turn) (ht : t.notified ≡ true) (hu : u.notified ≡ true) where
  -- From a well-formed state in which an outcome is decided, `main` ends with it in every run in
  -- which each of its tasks has a turn that is notified, `main` is resumed, each of the processes
  -- ends, and `main` is resumed again, in this order, whatever the tasks read and whatever else
  -- happens between these events.
  pub closing_ends :
      (r : Outcome) (s : ExampleState) (es : List Event)
      → IsWellFormed a s
      → decided s.place ≡ some r
      → Within (closing t u) es
      → (run a es s).place ≡ ended r
  closing_ends r s es f d w =
      ap (λ (x : ExampleState). x.place) (run-of a es s)
      ∙ script_ends (example_script a) r t u ht hu s es f d w

  -- From every well-formed state nine events bring `main` to its end: what it awaits raises, it is
  -- resumed, what it then awaits raises, each of its tasks has a turn that is notified, it is
  -- resumed, each of the processes ends, and it is resumed again.
  pub main_ends :
      (s : ExampleState)
      → IsWellFormed a s
      → (r : Outcome) × ((run a (raised ∷ woken ∷ raised ∷ closing t u) s).place ≡ ended r)
  unfolding run
  main_ends s f =
      let s1 = step a raised s in
      let s2 = step a woken s1 in
      let s3 = step a raised s2 in
      let f3 =
        step-IsWellFormed a raised s2
          (step-IsWellFormed a woken s1 (step-IsWellFormed a raised s f)) in
      let (r, d) = failing_decides a s in
      (r, closing_ends r s3 (closing t u) f3 d (Within-refl (closing t u)))
