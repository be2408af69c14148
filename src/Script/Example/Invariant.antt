-- ===== src/Script/Example/Invariant.antt =====
-- What holds between two events of `main` of .github/script/run_example.py.
use bpftime_benchmark.Prelude.{refl, true, false, List, [], ◌∷◌, if_intro}
use bpftime_benchmark.Script.Process.{
  Signals, Place, body, gathering, communicating, ended, gather_tasks, leave,
}
use bpftime_benchmark.Script.Process.Invariant.{Shape, Earned, AtBody, AtPlace, Fits, Fits-Quiet}
use bpftime_benchmark.Script.Process.Finally.{
  wind_down-Fits, after_gather-Fits, after_communicate-Fits,
}
use bpftime_benchmark.Script.Monitor.{as_notified}
use bpftime_benchmark.Script.Monitor.Turns.{
  first_turn-Quiet, second_turn-Quiet, first_exit-Quiet, second_exit-Quiet,
}
use bpftime_benchmark.Script.Command.{Args, skips_check}
use bpftime_benchmark.Script.Example.{
  Await, loading, waiting_for_server, sleeping, starting, waiting_for_text, Outcome, succeeded,
  returned, timed_out, not_created, Event, woken, raised, server_turn, agent_turn, server_exit,
  agent_exit, ExampleState, server_callbacks, agent_callbacks, turn_server, turn_agent, with_agent,
  resume, fail, woken_at, raised_at, react, step_at, step, run, start,
}

-- The server exists once it is loaded, the agent once it is started, and `main` goes on behind the
-- first event. A success vouches for both events, a return for the first and for the name of the
-- executable.
abbrev pub shape : Args → Shape Await Outcome
shape a = record {
  has_first = λ p. elim p [ loading ↦ false | _ ↦ true ];
  has_second = λ p. elim p [ waiting_for_text ↦ true | _ ↦ false ];
  needs_start = λ p. elim p [ loading ↦ false | waiting_for_server ↦ false | _ ↦ true ];
  needs_final = λ p. false;
  owes_start = λ r. elim r [ succeeded ↦ true | returned ↦ true | _ ↦ false ];
  owes_final = λ r. elim r [ succeeded ↦ true | _ ↦ false ];
  admits = λ r. elim r [ returned ↦ skips_check a | _ ↦ true ];
}

abbrev pub IsWellFormed : Args → ExampleState → Type 0
IsWellFormed a s = Fits (shape a) s

module _ (a : Args) where
  timeout-Earned : (g : Signals) → Earned (shape a) timed_out g
  timeout-Earned g = record { earned_start = λ h. cc; earned_final = λ h. cc; admitted = refl }

  not_created-Earned : (g : Signals) → Earned (shape a) not_created g
  not_created-Earned g = record { earned_start = λ h. cc; earned_final = λ h. cc; admitted = refl }

  with_agent-IsWellFormed :
      (s : ExampleState)
      → IsWellFormed a s
      → AtBody (shape a) starting s
      → IsWellFormed a (with_agent s)
  with_agent-IsWellFormed s f b = record {
    first_paired = f.first_paired;
    second_paired = refl;
    at_place = record {
      stays = b.stays;
      first_is = b.first_is;
      second_is = refl;
      start_is = b.start_is;
      final_is = b.final_is;
    };
  }

  resume-IsWellFormed :
      (p : Await) (s : ExampleState)
      → IsWellFormed a s
      → AtBody (shape a) p s
      → IsWellFormed a (resume a p s)
  unfolding resume
  resume-IsWellFormed loading s f b = record {
    first_paired = refl;
    second_paired = f.second_paired;
    at_place = record {
      stays = b.stays;
      first_is = refl;
      second_is = b.second_is;
      start_is = b.start_is;
      final_is = b.final_is;
    };
  }
  resume-IsWellFormed waiting_for_server s f b =
      if_intro (IsWellFormed a) s.signals.start
        (λ set. record {
          first_paired = f.first_paired;
          second_paired = f.second_paired;
          at_place = record {
            stays = b.stays;
            first_is = b.first_is;
            second_is = b.second_is;
            start_is = λ h. set;
            final_is = b.final_is;
          };
        })
        (λ _. f)
  resume-IsWellFormed sleeping s f b = record {
    first_paired = f.first_paired;
    second_paired = f.second_paired;
    at_place = record {
      stays = b.stays;
      first_is = b.first_is;
      second_is = b.second_is;
      start_is = b.start_is;
      final_is = b.final_is;
    };
  }
  resume-IsWellFormed starting s f b =
      if_intro (IsWellFormed a) (skips_check a)
        (λ skips.
          wind_down-Fits (shape a) returned (with_agent s) (with_agent-IsWellFormed s f b)
            (record { earned_start = b.start_is; earned_final = λ h. cc; admitted = skips }))
        (λ _. with_agent-IsWellFormed s f b)
  resume-IsWellFormed waiting_for_text s f b =
      if_intro (IsWellFormed a) s.signals.final
        (λ set.
          wind_down-Fits (shape a) succeeded s f
            (record { earned_start = b.start_is; earned_final = λ h. set; admitted = refl }))
        (λ _. f)

  fail-IsWellFormed : (p : Await) (s : ExampleState) → IsWellFormed a s → IsWellFormed a (fail p s)
  unfolding fail
  fail-IsWellFormed loading s f =
      wind_down-Fits (shape a) not_created s f (not_created-Earned s.signals)
  fail-IsWellFormed waiting_for_server s f =
      wind_down-Fits (shape a) timed_out s f (timeout-Earned s.signals)
  fail-IsWellFormed sleeping s f = f
  fail-IsWellFormed starting s f =
      wind_down-Fits (shape a) not_created s f (not_created-Earned s.signals)
  fail-IsWellFormed waiting_for_text s f =
      wind_down-Fits (shape a) timed_out s f (timeout-Earned s.signals)

  woken-IsWellFormed :
      (p : Place Await Outcome) (s : ExampleState)
      → IsWellFormed a s
      → AtPlace (shape a) p s
      → IsWellFormed a (woken_at a p s)
  unfolding woken_at
  woken-IsWellFormed (body p) s f b = resume-IsWellFormed p s f b
  woken-IsWellFormed (gathering r) s f e =
      after_gather-Fits (shape a) r (gather_tasks s.first_out s.second_out) s f e
  woken-IsWellFormed (communicating r) s f e = after_communicate-Fits (shape a) r s f e
  woken-IsWellFormed (ended r) s f e = f

  raised-IsWellFormed :
      (p : Place Await Outcome) (s : ExampleState)
      → IsWellFormed a s
      → AtPlace (shape a) p s
      → IsWellFormed a (raised_at p s)
  unfolding raised_at
  raised-IsWellFormed (body p) s f b = fail-IsWellFormed p s f
  raised-IsWellFormed (gathering r) s f e = f
  raised-IsWellFormed (communicating r) s f e = record {
    first_paired = f.first_paired;
    second_paired = f.second_paired;
    at_place = e.earned;
  }
  raised-IsWellFormed (ended r) s f e = f

  react-IsWellFormed :
      (e : Event) (s : ExampleState) → IsWellFormed a s → IsWellFormed a (react a e s)
  unfolding react turn_server turn_agent
  react-IsWellFormed woken s f = woken-IsWellFormed s.place s f f.at_place
  react-IsWellFormed raised s f = raised-IsWellFormed s.place s f f.at_place
  react-IsWellFormed (server_turn t) s f =
      Fits-Quiet (shape a) s (turn_server a t s)
        (first_turn-Quiet s (server_callbacks a) false (as_notified s.should_exit t)) f
  react-IsWellFormed (agent_turn t) s f =
      Fits-Quiet (shape a) s (turn_agent a t s)
        (second_turn-Quiet s (agent_callbacks a) true (as_notified s.should_exit t)) f
  react-IsWellFormed server_exit s f =
      Fits-Quiet (shape a) s (record s { first = leave s.first }) (first_exit-Quiet s) f
  react-IsWellFormed agent_exit s f =
      Fits-Quiet (shape a) s (record s { second = leave s.second }) (second_exit-Quiet s) f

  -- Every event keeps what holds between two events.
  pub step-IsWellFormed :
      (e : Event) (s : ExampleState) → IsWellFormed a s → IsWellFormed a (step a e s)
  unfolding step
  step-IsWellFormed e s f = go s.place
    where
      go : (p : Place Await Outcome) → IsWellFormed a (step_at a e p s)
      go (ended r) = f
      go (body p) = react-IsWellFormed e s f
      go (gathering r) = react-IsWellFormed e s f
      go (communicating r) = react-IsWellFormed e s f

  pub run-IsWellFormed :
      (es : List Event) (s : ExampleState) → IsWellFormed a s → IsWellFormed a (run a es s)
  unfolding run
  run-IsWellFormed [] s f = f
  run-IsWellFormed (e ∷ es) s f = run-IsWellFormed es (step a e s) (step-IsWellFormed e s f)

pub start-IsWellFormed : (a : Args) → IsWellFormed a start
start-IsWellFormed a = record {
  first_paired = refl;
  second_paired = refl;
  at_place = record {
    stays = refl;
    first_is = refl;
    second_is = refl;
    start_is = λ h. cc;
    final_is = λ h. cc;
  };
}

-- Whatever happens, a task of run_example.py exists just where its process has been created; in the
-- body of the `try` the processes are those of the place at which `main` waits, and behind the wait
-- for the server its event is set; `main` waits in the `finally` block only for two processes that
-- both exist; and a success has both events set, a return the first one and `readline` in the name.
pub example-IsWellFormed : (a : Args) (es : List Event) → IsWellFormed a (run a es start)
example-IsWellFormed a es = run-IsWellFormed a es start (start-IsWellFormed a)
