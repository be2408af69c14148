-- ===== src/Script/Example/Contract.antt =====
-- What .github/script/run_example.py promises, without its processes: two facts that become true, and
-- a verdict that is given once, each by the event that can be the reason.
use bpftime_benchmark.Prelude.{◌≡◌, Bool, true, Option, none, some}
use bpftime_benchmark.Script.Process.Outcome.{decided}
use bpftime_benchmark.Script.Command.{Args, skips_check}
use bpftime_benchmark.Script.Example.{
  Outcome, succeeded, returned, Event, woken, raised, ExampleState, server_start_signal, exit_code,
}
use bpftime_benchmark.Script.Example.Verdict.{server_shows, shows}

pub record Contract : Type 0 where
  pub started : Bool
  pub printed : Bool
  pub verdict : Option Outcome

-- A move of the contract at an event. The start of the server becomes a fact by a line of the server,
-- the expected text by one of either process. A good verdict is given where `main` is woken, by facts
-- that hold already, a bad one where it is raised at; each only where there is none.
pub data Move (a : Args) : Event → Contract → Contract → Type 0 where
  start_heard :
      (e : Event) (c : Contract)
      → server_shows server_start_signal e ≡ true
      → Move a e c (record c { started = true })
  text_heard :
      (e : Event) (c : Contract)
      → shows a.expected_str e ≡ true
      → Move a e c (record c { printed = true })
  passes :
      (c : Contract)
      → c.started ≡ true
      → c.printed ≡ true
      → c.verdict ≡ none
      → Move a woken c (record c { verdict = some succeeded })
  passes_unchecked :
      (c : Contract)
      → c.started ≡ true
      → skips_check a ≡ true
      → c.verdict ≡ none
      → Move a woken c (record c { verdict = some returned })
  gives_up :
      (c : Contract) (r : Outcome)
      → exit_code r ≡ 1
      → c.verdict ≡ none
      → Move a raised c (record c { verdict = some r })

-- The moves at one event, none where nothing that counts has happened.
pub data Moves (a : Args) (e : Event) (c : Contract) : Contract → Type 0 where
  here : Moves a e c c
  next : {d f : Contract} → Moves a e c d → Move a e d f → Moves a e c f

module _ {a : Args} {e : Event} where
  pub Moves-trans : {c d f : Contract} → Moves a e c d → Moves a e d f → Moves a e c f
  Moves-trans m here = m
  Moves-trans m (next n k) = next (Moves-trans m n) k

abbrev pub view : ExampleState → Contract
view s = record { started = s.signals.start; printed = s.signals.final; verdict = decided s.place }
