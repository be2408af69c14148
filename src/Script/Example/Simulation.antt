-- ===== src/Script/Example/Simulation.antt =====
-- .github/script/run_example.py keeps its contract step by step.
use bpftime_benchmark.Prelude.{
  ◌≡◌, refl, Bool, true, false, Option, none, some, sym, ap, ◌∙◌, ◌⊎◌, inl, inr, List, if_intro,
}
use mathlib.Core.Path.{subst}
use mathlib.Core.Option.{some-injective}
use bpftime_benchmark.Script.Process.{
  Signals, start_signal, final_signal, Place, body, gathering, communicating, ended, wind_down,
}
use bpftime_benchmark.Script.Process.Invariant.{Earned}
use bpftime_benchmark.Script.Process.Outcome.{decided, wind_down-Decides}
use bpftime_benchmark.Script.Command.{Args, skips_check}
use bpftime_benchmark.Script.Example.{
  Await, loading, waiting_for_server, sleeping, starting, waiting_for_text, Outcome, succeeded,
  returned, timed_out, not_created, Event, woken, raised, server_turn, agent_turn, server_exit,
  agent_exit, ExampleState, server_start_signal, turn_server, turn_agent, with_agent, resume, fail,
  woken_at, raised_at, react, step_at, step, run, start, exit_code,
}
use bpftime_benchmark.Script.Example.Invariant.{
  shape, IsWellFormed, step-IsWellFormed, example-IsWellFormed,
}
use bpftime_benchmark.Script.Example.Refinement.{decided-Earned, step-GoesOn}
use bpftime_benchmark.Script.Example.Verdict.{
  server_shows, shows, rings_in, rings_in-server_shows, rings_in-shows, step-is_set,
}
use bpftime_benchmark.Script.Example.Contract.{
  Contract, Move, start_heard, text_heard, passes, passes_unchecked, gives_up, Moves, here, next,
  Moves-trans, view,
}

-- The event behind a verdict.
data Cause : Event → Outcome → Type 0 where
  by_text : Cause woken succeeded
  by_name : Cause woken returned
  by_time : Cause raised timed_out
  by_creation : Cause raised not_created

module _ (r : Outcome) where
  wound_down : (q : Outcome) (s : ExampleState) → decided (wind_down q s).place ≡ some r → q ≡ r
  wound_down q s h = some-injective _ _ (sym (wind_down-Decides q s).decides ∙ h)

  resume-Cause :
      (a : Args) (p : Await) (s : ExampleState)
      → decided s.place ≡ none
      → decided (resume a p s).place ≡ some r
      → Cause woken r
  unfolding resume
  resume-Cause a loading s n h = cc
  resume-Cause a waiting_for_server s n h =
      if_intro (λ (u : ExampleState). decided u.place ≡ some r → Cause woken r) s.signals.start
        (λ _ h. cc) (λ _ h. cc) h
  resume-Cause a sleeping s n h = cc
  resume-Cause a starting s n h =
      if_intro (λ (u : ExampleState). decided u.place ≡ some r → Cause woken r) (skips_check a)
        (λ _ h. subst (Cause woken) (wound_down returned (with_agent s) h) by_name) (λ _ h. cc) h
  resume-Cause a waiting_for_text s n h =
      if_intro (λ (u : ExampleState). decided u.place ≡ some r → Cause woken r) s.signals.final
        (λ _ h. subst (Cause woken) (wound_down succeeded s h) by_text) (λ _ h. cc) h

  fail-Cause :
      (p : Await) (s : ExampleState)
      → decided s.place ≡ none
      → decided (fail p s).place ≡ some r
      → Cause raised r
  unfolding fail
  fail-Cause loading s n h = subst (Cause raised) (wound_down not_created s h) by_creation
  fail-Cause waiting_for_server s n h = subst (Cause raised) (wound_down timed_out s h) by_time
  fail-Cause sleeping s n h = cc
  fail-Cause starting s n h = subst (Cause raised) (wound_down not_created s h) by_creation
  fail-Cause waiting_for_text s n h = subst (Cause raised) (wound_down timed_out s h) by_time

  woken-Cause :
      (a : Args) (p : Place Await Outcome) (s : ExampleState)
      → s.place ≡ p
      → decided s.place ≡ none
      → decided (woken_at a p s).place ≡ some r
      → Cause woken r
  unfolding woken_at
  woken-Cause a (body p) s e n h = resume-Cause a p s n h
  woken-Cause a (gathering q) s e n h = let k = ap decided e in cc
  woken-Cause a (communicating q) s e n h = let k = ap decided e in cc
  woken-Cause a (ended q) s e n h = let k = ap decided e in cc

  raised-Cause :
      (p : Place Await Outcome) (s : ExampleState)
      → s.place ≡ p
      → decided s.place ≡ none
      → decided (raised_at p s).place ≡ some r
      → Cause raised r
  unfolding raised_at
  raised-Cause (body p) s e n h = fail-Cause p s n h
  raised-Cause (gathering q) s e n h = let k = ap decided e in cc
  raised-Cause (communicating q) s e n h = let k = ap decided e in cc
  raised-Cause (ended q) s e n h = let k = ap decided e in cc

  -- Only `main` itself gives a verdict.
  react-Cause :
      (a : Args) (e : Event) (s : ExampleState)
      → decided s.place ≡ none
      → decided (react a e s).place ≡ some r
      → Cause e r
  unfolding react turn_server turn_agent
  react-Cause a woken s n h = woken-Cause a s.place s refl n h
  react-Cause a raised s n h = raised-Cause s.place s refl n h
  react-Cause a (server_turn t) s n h = cc
  react-Cause a (agent_turn t) s n h = cc
  react-Cause a server_exit s n h = cc
  react-Cause a agent_exit s n h = cc

  step-Cause :
      (a : Args) (e : Event) (s : ExampleState)
      → decided s.place ≡ none
      → decided (step a e s).place ≡ some r
      → Cause e r
  unfolding step
  step-Cause a e s n = go s.place
    where
      go : (p : Place Await Outcome) → decided (step_at a e p s).place ≡ some r → Cause e r
      go (ended q) h = cc
      go (body p) h = react-Cause a e s n h
      go (gathering q) h = react-Cause a e s n h
      go (communicating q) h = react-Cause a e s n h

abbrev facts : Bool → Bool → Option Outcome → Contract
facts b p v = record { started = b; printed = p; verdict = v }

module _ (a : Args) (e : Event) where
  start-Moves :
      (b b' p : Bool) (v : Option Outcome)
      → (b ≡ true → b' ≡ true)
      → (b' ≡ true → (b ≡ true) ⊎ (server_shows server_start_signal e ≡ true))
      → Moves a e (facts b p v) (facts b' p v)
  start-Moves false false p v grows new = here
  start-Moves true true p v grows new = here
  start-Moves true false p v grows new = let k = grows refl in cc
  start-Moves false true p v grows new = elim (new refl) [
    | inl old ↦ cc
    | inr heard ↦ next here (start_heard e (facts false p v) heard)
  ]

  text-Moves :
      (b p p' : Bool) (v : Option Outcome)
      → (p ≡ true → p' ≡ true)
      → (p' ≡ true → (p ≡ true) ⊎ (shows a.expected_str e ≡ true))
      → Moves a e (facts b p v) (facts b p' v)
  text-Moves b false false v grows new = here
  text-Moves b true true v grows new = here
  text-Moves b true false v grows new = let k = grows refl in cc
  text-Moves b false true v grows new = elim (new refl) [
    | inl old ↦ cc
    | inr heard ↦ next here (text_heard e (facts b false v) heard)
  ]

-- A verdict can be given at its event where what it vouches for has been heard.
verdict_moves :
    (a : Args) (e : Event) (r : Outcome) (g : Signals)
    → Cause e r
    → Earned (shape a) r g
    → Move a e (facts g.start g.final none) (facts g.start g.final (some r))
unfolding exit_code
verdict_moves a _ _ g by_text e =
    passes (facts g.start g.final none) (e.earned_start refl) (e.earned_final refl) refl
verdict_moves a _ _ g by_name e =
    passes_unchecked (facts g.start g.final none) (e.earned_start refl) e.admitted refl
verdict_moves a _ _ g by_time e = gives_up (facts g.start g.final none) timed_out refl refl
verdict_moves a _ _ g by_creation e = gives_up (facts g.start g.final none) not_created refl refl

given :
    (a : Args) (e : Event) (v w : Option Outcome) (g : Signals)
    → ((r : Outcome) → v ≡ some r → w ≡ some r)
    → ((r : Outcome) → v ≡ none → w ≡ some r → Cause e r)
    → ((r : Outcome) → w ≡ some r → Earned (shape a) r g)
    → Moves a e (facts g.start g.final v) (facts g.start g.final w)
given a e none none g kept cause earned = here
given a e none (some r) g kept cause earned =
    next here (verdict_moves a e r g (cause r refl refl) (earned r refl))
given a e (some r) w g kept cause earned =
    subst (λ w. Moves a e (facts g.start g.final (some r)) (facts g.start g.final w))
      (sym (kept r refl)) here

step-Moves :
    (a : Args) (e : Event) (s : ExampleState)
    → IsWellFormed a s
    → Moves a e (view s) (view (step a e s))
step-Moves a e s f =
    let u = step a e s in
    let v = decided s.place in
    let k = step-GoesOn a e s in
    let started =
      start-Moves a e s.signals.start u.signals.start s.signals.final v k.grows.start_grows
        (λ h. start_rung (step-is_set a start_signal e s h)) in
    let heard =
      text-Moves a e u.signals.start s.signals.final u.signals.final v k.grows.final_grows
        (λ h. text_rung (step-is_set a final_signal e s h)) in
    Moves-trans (Moves-trans started heard) (
      given a e v (decided u.place) u.signals k.keeps (λ r. step-Cause r a e s)
        (λ r. decided-Earned a r u.place u (step-IsWellFormed a e s f).at_place))
  where
    start_rung :
        (s.signals.start ≡ true) ⊎ (rings_in a start_signal e ≡ true)
        → (s.signals.start ≡ true) ⊎ (server_shows server_start_signal e ≡ true)
    start_rung (inl h) = inl h
    start_rung (inr h) = inr (sym (rings_in-server_shows a e) ∙ h)

    text_rung :
        (s.signals.final ≡ true) ⊎ (rings_in a final_signal e ≡ true)
        → (s.signals.final ≡ true) ⊎ (shows a.expected_str e ≡ true)
    text_rung (inl h) = inl h
    text_rung (inr h) = inr (sym (rings_in-shows a e) ∙ h)

-- At every event, in every state that the script comes to, what the two `asyncio.Event`s and the outcome
-- then are is come to by moves of the contract at that event: the start of the server is noted only by a
-- line of the server that says it, and the expected text by a line with it of either process; an
-- outcome is decided only where there is none, success and the early return only where `main` is
-- resumed and what they vouch for was heard before, a failure only where what it awaits raises; and
-- nothing that was noted or decided is taken back.
pub step_refines :
    (a : Args) (es : List Event) (e : Event)
    → Moves a e (view (run a es start)) (view (step a e (run a es start)))
step_refines a es e = step-Moves a e (run a es start) (example-IsWellFormed a es)
