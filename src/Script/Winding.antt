-- ===== src/Script/Winding.antt =====
-- The `finally` block of a script comes to its end. What the two scripts have in common here is an
-- interface: the events that the block waits for, and what each of them does to it.
pub mod Parts
pub mod Ends
use bpftime_benchmark.Prelude.{
  ◌≡◌, refl, sym, ap, ◌∙◌, Bool, true, false, Option, some, List, [], ◌∷◌, ◌⊎◌, inl, inr,
}
use mathlib.Core.Option.{some-injective}
use mathlib.Core.Path.{subst}
use bpftime_benchmark.Script.Process.{
  Life, gone, Task, Place, body, gathering, communicating, ended, State, is_gone,
}
use bpftime_benchmark.Script.Process.Invariant.{
  is_unstarted, is_absent, Implies, Shape, AtEnd, AtPlace, Fits,
}
use bpftime_benchmark.Script.Process.Outcome.{decided}
use bpftime_benchmark.Script.Monitor.{Turn}
use bpftime_benchmark.Script.Monitor.Closing.{is_closed}

-- What is over stays over.
pub record Settles {P O : Type 0} (s u : State P O) : Type 0 where
  pub first_closed : Implies (is_closed s.first_out) (is_closed u.first_out)
  pub second_closed : Implies (is_closed s.second_out) (is_closed u.second_out)
  pub first_gone : Implies (is_gone s.first) (is_gone u.first)
  pub second_gone : Implies (is_gone s.second) (is_gone u.second)

-- `main` waits in the block, for its tasks or for its processes.
pub data Waits {P O : Type 0} (r : O) : Place P O → Type 0 where
  for_tasks : Waits r (gathering r)
  for_processes : Waits r (communicating r)

-- It waits for its processes, or is at its end.
pub data Past {P O : Type 0} (r : O) : Place P O → Type 0 where
  tasks_over : Past r (communicating r)
  all_over : Past r (ended r)

pub record Script (P O E : Type 0) (shape : Shape P O) : Type 0 where
  pub step : E → State P O → State P O
  pub first_turn : Turn → E
  pub second_turn : Turn → E
  pub woken : E
  pub first_exit : E
  pub second_exit : E
  pub step_fits : (e : E) (s : State P O) → Fits shape s → Fits shape (step e s)
  pub step_decided :
      (e : E) (s : State P O) (r : O) → decided s.place ≡ some r → decided (step e s).place ≡ some r
  pub step_settles :
      (e : E) (s : State P O) (r : O) → decided s.place ≡ some r → Settles s (step e s)
  pub step_past : (e : E) (s : State P O) (r : O) → Past r s.place → Past r (step e s).place
  pub step_ended : (e : E) (s : State P O) (r : O) → s.place ≡ ended r → (step e s).place ≡ ended r
  pub first_closes :
      (t : Turn) (s : State P O) (r : O)
      → t.notified ≡ true
      → s.should_exit ≡ true
      → is_absent s.first_out ≡ false
      → Waits r s.place
      → is_closed (step (first_turn t) s).first_out ≡ true
  pub second_closes :
      (t : Turn) (s : State P O) (r : O)
      → t.notified ≡ true
      → s.should_exit ≡ true
      → is_absent s.second_out ≡ false
      → Waits r s.place
      → is_closed (step (second_turn t) s).second_out ≡ true
  pub gathers :
      (s : State P O) (r : O)
      → is_closed s.first_out ≡ true
      → is_closed s.second_out ≡ true
      → Waits r s.place
      → Past r (step woken s).place
  pub first_leaves :
      (s : State P O) (r : O)
      → is_unstarted s.first ≡ false
      → Waits r s.place
      → is_gone (step first_exit s).first ≡ true
  pub second_leaves :
      (s : State P O) (r : O)
      → is_unstarted s.second ≡ false
      → Waits r s.place
      → is_gone (step second_exit s).second ≡ true
  pub communicates :
      (s : State P O) (r : O)
      → is_gone s.first ≡ true
      → is_gone s.second ≡ true
      → Past r s.place
      → (step woken s).place ≡ ended r

-- The events of the first list come in the second one, in their order, with any others between them.
abbrev pub Within : {E : Type 0} → List E → List E → Type 0
Within [] es = Unit
Within (d ∷ ds) [] = ⊥
Within (d ∷ ds) (e ∷ es) = ((d ≡ e) × Within ds es) ⊎ Within (d ∷ ds) es

pub Within-refl : {E : Type 0} (es : List E) → Within es es
Within-refl [] = tt
Within-refl (e ∷ es) = inl (refl, Within-refl es)

abbrev pub run_of : {S E : Type 0} → (E → S → S) → List E → S → S
run_of step [] s = s
run_of step (e ∷ es) s = run_of step es (step e s)
