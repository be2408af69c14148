-- ===== src/Script/Example/Faults.antt =====
-- Faults of a process that .github/script/run_example.py does not take for a failure, or leaves
-- behind.
use bpftime_benchmark.Prelude.{◌≡◌, refl, ◌||◌, true, false, some, ◌↔◌}
use bpftime_benchmark.Text.Base.{Text, contains}
use bpftime_benchmark.Script.Process.{
  Life, unstarted, running, interrupted, gone, Signals, listening, failed, body, State, is_gone,
  interrupt_first, interrupt_second, wind_down,
}
use bpftime_benchmark.Script.Process.Invariant.{is_unstarted}
use bpftime_benchmark.Script.Process.Outcome.{decided, wind_down-Decides}
use bpftime_benchmark.Script.Monitor.{
  as_notified, line, Turn, ring, error_mark, hear_read, monitor_round, take_turn,
}
use bpftime_benchmark.Script.Command.{Args}
use bpftime_benchmark.Script.Example.{
  waiting_for_text, succeeded, woken, agent_turn, ExampleState, agent_callbacks, turn_agent, resume,
  woken_at, react, step_at, step,
}

module _ {P O : Type 0} where
  interrupt_second-second :
      (r : O) (l : Life) (s : State P O)
      → l ≡ running
      → (interrupt_second r l s).second ≡ interrupted
  unfolding interrupt_second
  interrupt_second-second r running s e = refl
  interrupt_second-second r interrupted s e = refl
  interrupt_second-second r unstarted s e = cc
  interrupt_second-second r gone s e = cc

  -- After the body of the `try`, a second process that runs is interrupted just where the first one
  -- exists and has not ended.
  pub wind_down_lem :
      (r : O) (s : State P O)
      → s.second ≡ running
      → ((wind_down r s).second ≡ interrupted) ↔ (is_unstarted s.first || is_gone s.first ≡ false)
  unfolding wind_down interrupt_first interrupt_second
  wind_down_lem r s e = go s.first
    where
      go :
          (l : Life)
          → ((interrupt_first r l (record s { should_exit = true })).second ≡ interrupted)
            ↔ (is_unstarted l || is_gone l ≡ false)
      go unstarted = (λ h. cc, λ h. cc)
      go gone = (λ h. cc, λ h. cc)
      go running = (
        λ _. refl,
        λ _.
            interrupt_second-second r s.second
              (record s { should_exit = true; first = interrupted }) e,
      )
      go interrupted = (
        λ _. refl,
        λ _.
            interrupt_second-second r s.second
              (record s { should_exit = true; first = interrupted }) e,
      )

-- The assertion fails behind the callback.
heard_error :
    (a : Args) (g : Signals) (t : Turn) (l : Text)
    → t.read ≡ line l
    → contains l error_mark ≡ true
    → contains l a.expected_str ≡ true
    → take_turn (agent_callbacks a) true t g listening
      ≡ record { signals = record g { final = true }; task = failed }
unfolding take_turn monitor_round hear_read agent_callbacks ring
heard_error a g t l r bad shown = rw (r, bad, shown) refl

-- While `main` waits for the expected text and the agent's task is under way, a line of the agent with
-- `[error]` ends that task with an assertion, and yet `main` takes the run for a success, when it is
-- resumed, if the line has the expected text too.
pub agent_error_passes :
    (a : Args) (s : ExampleState) (t : Turn) (l : Text)
    → s.place ≡ body waiting_for_text
    → s.second_out ≡ listening
    → t.read ≡ line l
    → contains l error_mark ≡ true
    → contains l a.expected_str ≡ true
    → let u = step a (agent_turn t) s in
      (u.second_out ≡ failed) × (decided (step a woken u).place ≡ some succeeded)
unfolding step step_at react turn_agent woken_at resume
agent_error_passes a s t l e k r bad shown =
    let v = as_notified s.should_exit t in
    let seen = heard_error a s.signals v l r bad shown in
    let u = record s { signals = record s.signals { final = true }; second_out = failed } in
    let stepped : step a (agent_turn t) s ≡ u = rw (e, k, seen) refl in
    rw stepped (
      refl,
      rw e (wind_down-Decides succeeded (record u { place = body waiting_for_text })).decides,
    )
