-- ===== src/Script/Example/Refinement.antt =====
-- What a step of .github/script/run_example.py keeps: the two events that are set, and the outcome that
-- is decided.
use bpftime_benchmark.Prelude.{
  ◌≡◌, refl, true, false, none, some, sym, ap, ◌∙◌, List, [], ◌∷◌, if_intro,
}
use mathlib.Core.Path.{subst}
use mathlib.Core.Option.{some-injective}
use bpftime_benchmark.Script.Process.{
  Place, body, gathering, communicating, ended, gather_tasks, go_to, after_gather,
  after_communicate,
}
use bpftime_benchmark.Script.Process.Invariant.{Grows, Grows-refl, Quiet, Earned, AtPlace}
use bpftime_benchmark.Script.Process.Outcome.{
  decided, Decides, wind_down-Decides, after_gather-Decides, after_communicate-Decides,
}
use bpftime_benchmark.Script.Monitor.{as_notified}
use bpftime_benchmark.Script.Monitor.Turns.{first_turn-Quiet, second_turn-Quiet}
use bpftime_benchmark.Script.Command.{Args, skips_check}
use bpftime_benchmark.Script.Example.{
  Await, loading, waiting_for_server, sleeping, starting, waiting_for_text, Outcome, succeeded,
  returned, timed_out, not_created, Event, woken, raised, server_turn, agent_turn, server_exit,
  agent_exit, ExampleState, server_callbacks, agent_callbacks, turn_server, turn_agent, with_agent,
  resume, fail, woken_at, raised_at, react, step_at, step, run, start,
}
use bpftime_benchmark.Script.Example.Invariant.{shape}

-- What a step does for the contract: no event is forgotten, and no verdict changed.
pub record GoesOn (s u : ExampleState) : Type 0 where
  pub grows : Grows s.signals u.signals
  pub keeps : (r : Outcome) → decided s.place ≡ some r → decided u.place ≡ some r

-- A place with an outcome has what that outcome vouches for.
pub decided-Earned :
    (a : Args) (r : Outcome) (p : Place Await Outcome) (s : ExampleState)
    → AtPlace (shape a) p s
    → decided p ≡ some r
    → Earned (shape a) r s.signals
decided-Earned a r (body p) s h e = cc
decided-Earned a r (gathering q) s h e =
    subst (λ q. Earned (shape a) q s.signals) (some-injective _ _ e) h.earned
decided-Earned a r (communicating q) s h e =
    subst (λ q. Earned (shape a) q s.signals) (some-injective _ _ e) h.earned
decided-Earned a r (ended q) s h e =
    subst (λ q. Earned (shape a) q s.signals) (some-injective _ _ e) h

Quiet-GoesOn : (s u : ExampleState) → Quiet s u → GoesOn s u
Quiet-GoesOn s u q = record { grows = q.grows; keeps = λ r h. ap decided q.same_place ∙ h }

still : (s : ExampleState) → GoesOn s s
still s = record { grows = Grows-refl s.signals; keeps = λ r h. h }

-- Out of the body, where nothing is decided, `main` goes on with the same events.
leaves_body : (s u : ExampleState) → decided s.place ≡ none → u.signals ≡ s.signals → GoesOn s u
leaves_body s u e same = record {
  grows = subst (Grows s.signals) (sym same) (Grows-refl s.signals);
  keeps = λ r h. cc;
}

-- In the `finally` block it goes on with the same outcome.
GoesOn-with :
    (r : Outcome) (s u : ExampleState)
    → decided s.place ≡ some r
    → Decides r s.signals u
    → GoesOn s u
GoesOn-with r s u e d = record {
  grows = subst (Grows s.signals) (sym d.same_signals) (Grows-refl s.signals);
  keeps = λ q h. d.decides ∙ sym e ∙ h;
}

resume-signals : (a : Args) (p : Await) (s : ExampleState) → (resume a p s).signals ≡ s.signals
unfolding resume
resume-signals a loading s = refl
resume-signals a waiting_for_server s =
    if_intro (λ (u : ExampleState). u.signals ≡ s.signals) s.signals.start (λ _. refl) (λ _. refl)
resume-signals a sleeping s = refl
resume-signals a starting s =
    if_intro (λ (u : ExampleState). u.signals ≡ s.signals) (skips_check a)
      (λ _. (wind_down-Decides returned (with_agent s)).same_signals) (λ _. refl)
resume-signals a waiting_for_text s =
    if_intro (λ (u : ExampleState). u.signals ≡ s.signals) s.signals.final
      (λ _. (wind_down-Decides succeeded s).same_signals) (λ _. refl)

fail-signals : (p : Await) (s : ExampleState) → (fail p s).signals ≡ s.signals
unfolding fail
fail-signals loading s = (wind_down-Decides not_created s).same_signals
fail-signals waiting_for_server s = (wind_down-Decides timed_out s).same_signals
fail-signals sleeping s = refl
fail-signals starting s = (wind_down-Decides not_created s).same_signals
fail-signals waiting_for_text s = (wind_down-Decides timed_out s).same_signals

pub woken-signals :
    (a : Args) (p : Place Await Outcome) (s : ExampleState)
    → s.place ≡ p
    → (woken_at a p s).signals ≡ s.signals
unfolding woken_at
woken-signals a (body p) s e = resume-signals a p s
woken-signals a (gathering r) s e =
    (after_gather-Decides r (gather_tasks s.first_out s.second_out) s (ap decided e)).same_signals
woken-signals a (communicating r) s e = (after_communicate-Decides r s (ap decided e)).same_signals
woken-signals a (ended r) s e = refl

pub raised-signals :
    (p : Place Await Outcome) (s : ExampleState) → (raised_at p s).signals ≡ s.signals
unfolding raised_at
raised-signals (body p) s = fail-signals p s
raised-signals (gathering r) s = refl
raised-signals (communicating r) s = refl
raised-signals (ended r) s = refl

woken-GoesOn :
    (a : Args) (p : Place Await Outcome) (s : ExampleState)
    → s.place ≡ p
    → GoesOn s (woken_at a p s)
unfolding woken_at
woken-GoesOn a (body p) s e = leaves_body s (resume a p s) (ap decided e) (resume-signals a p s)
woken-GoesOn a (gathering r) s e =
    let g = gather_tasks s.first_out s.second_out in
    GoesOn-with r s (after_gather r g s) (ap decided e) (after_gather-Decides r g s (ap decided e))
woken-GoesOn a (communicating r) s e =
    GoesOn-with r s (after_communicate r s) (ap decided e)
      (after_communicate-Decides r s (ap decided e))
woken-GoesOn a (ended r) s e = still s

raised-GoesOn :
    (p : Place Await Outcome) (s : ExampleState) → s.place ≡ p → GoesOn s (raised_at p s)
unfolding raised_at
raised-GoesOn (body p) s e = leaves_body s (fail p s) (ap decided e) (fail-signals p s)
raised-GoesOn (gathering r) s e = still s
raised-GoesOn (communicating r) s e =
    GoesOn-with r s (go_to (ended r) s) (ap decided e)
      (record { decides = refl; same_signals = refl })
raised-GoesOn (ended r) s e = still s

react-GoesOn : (a : Args) (e : Event) (s : ExampleState) → GoesOn s (react a e s)
unfolding react turn_server turn_agent
react-GoesOn a woken s = woken-GoesOn a s.place s refl
react-GoesOn a raised s = raised-GoesOn s.place s refl
react-GoesOn a (server_turn t) s =
    Quiet-GoesOn s (turn_server a t s)
      (first_turn-Quiet s (server_callbacks a) false (as_notified s.should_exit t))
react-GoesOn a (agent_turn t) s =
    Quiet-GoesOn s (turn_agent a t s)
      (second_turn-Quiet s (agent_callbacks a) true (as_notified s.should_exit t))
react-GoesOn a server_exit s = record { grows = Grows-refl s.signals; keeps = λ r h. h }
react-GoesOn a agent_exit s = record { grows = Grows-refl s.signals; keeps = λ r h. h }

pub step-GoesOn : (a : Args) (e : Event) (s : ExampleState) → GoesOn s (step a e s)
unfolding step
step-GoesOn a e s = go s.place
  where
    go : (p : Place Await Outcome) → GoesOn s (step_at a e p s)
    go (ended r) = still s
    go (body p) = react-GoesOn a e s
    go (gathering r) = react-GoesOn a e s
    go (communicating r) = react-GoesOn a e s

run-keeps :
    (a : Args) (fs : List Event) (s : ExampleState) (r : Outcome)
    → decided s.place ≡ some r
    → decided (run a fs s).place ≡ some r
unfolding run
run-keeps a [] s r h = h
run-keeps a (e ∷ fs) s r h = run-keeps a fs (step a e s) r ((step-GoesOn a e s).keeps r h)

-- The outcome that has been decided after some events is the one that the run has for ever, whatever
-- the processes print and do then.
pub run-decided :
    (a : Args) (es fs : List Event) (r : Outcome)
    → decided (run a es start).place ≡ some r
    → decided (run a fs (run a es start)).place ≡ some r
run-decided a es fs r = run-keeps a fs (run a es start) r
