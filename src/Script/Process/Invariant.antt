-- ===== src/Script/Process/Invariant.antt =====
-- What holds between two events of either script: which processes exist at a place, and which events
-- have been set. A script says what its own places need by a `Shape`.
use bpftime_benchmark.Prelude.{◌≡◌, refl, sym, ◌∙◌, Bool, true, false, not}
use mathlib.Core.Path.{subst}
use bpftime_benchmark.Script.Process.{
  Life, unstarted, running, interrupted, gone, Task, absent, Signals, Place, body, gathering,
  communicating, ended, State, leave,
}

abbrev pub is_unstarted : Life → Bool
is_unstarted unstarted = true
is_unstarted l = false

abbrev pub is_absent : Task → Bool
is_absent absent = true
is_absent t = false

-- The first test implies the second.
abbrev pub Implies : Bool → Bool → Type 0
Implies b c = b ≡ true → c ≡ true

-- The processes that exist and the events that are set where `main` waits, and the events that an
-- outcome vouches for.
pub record Shape (P O : Type 0) : Type 0 where
  pub has_first : P → Bool
  pub has_second : P → Bool
  pub needs_start : P → Bool
  pub needs_final : P → Bool
  pub owes_start : O → Bool
  pub owes_final : O → Bool
  pub admits : O → Bool

-- Every event that is set stays set.
pub record Grows (g k : Signals) : Type 0 where
  pub start_grows : Implies g.start k.start
  pub final_grows : Implies g.final k.final

pub Grows-refl : (g : Signals) → Grows g g
Grows-refl g = record { start_grows = λ h. h; final_grows = λ h. h }

pub leave-is_unstarted : (l : Life) → is_unstarted (leave l) ≡ is_unstarted l
leave-is_unstarted unstarted = refl
leave-is_unstarted running = refl
leave-is_unstarted interrupted = refl
leave-is_unstarted gone = refl

module _ {P O : Type 0} where
  -- A change that leaves `main` where it is.
  pub record Quiet (s u : State P O) : Type 0 where
    pub same_place : u.place ≡ s.place
    pub same_exit : u.should_exit ≡ s.should_exit
    pub same_first : is_unstarted u.first ≡ is_unstarted s.first
    pub same_second : is_unstarted u.second ≡ is_unstarted s.second
    pub same_first_out : is_absent u.first_out ≡ is_absent s.first_out
    pub same_second_out : is_absent u.second_out ≡ is_absent s.second_out
    pub grows : Grows s.signals u.signals

module _ {P O : Type 0} (shape : Shape P O) where
  -- What an outcome vouches for is there.
  pub record Earned (r : O) (g : Signals) : Type 0 where
    pub earned_start : Implies (shape.owes_start r) g.start
    pub earned_final : Implies (shape.owes_final r) g.final
    pub admitted : shape.admits r ≡ true

  pub record AtBody (p : P) (s : State P O) : Type 0 where
    pub stays : s.should_exit ≡ false
    pub first_is : is_unstarted s.first ≡ not (shape.has_first p)
    pub second_is : is_unstarted s.second ≡ not (shape.has_second p)
    pub start_is : Implies (shape.needs_start p) s.signals.start
    pub final_is : Implies (shape.needs_final p) s.signals.final

  pub record AtEnd (r : O) (s : State P O) : Type 0 where
    pub exits : s.should_exit ≡ true
    pub first_started : is_unstarted s.first ≡ false
    pub second_started : is_unstarted s.second ≡ false
    pub earned : Earned r s.signals

  abbrev pub AtPlace : Place P O → State P O → Type 0
  AtPlace (body p) s = AtBody p s
  AtPlace (gathering r) s = AtEnd r s
  AtPlace (communicating r) s = AtEnd r s
  AtPlace (ended r) s = Earned r s.signals

  -- A task exists just where its process was created, and the place has what it needs.
  pub record Fits (s : State P O) : Type 0 where
    pub first_paired : is_absent s.first_out ≡ is_unstarted s.first
    pub second_paired : is_absent s.second_out ≡ is_unstarted s.second
    pub at_place : AtPlace s.place s

  Earned-Grows : (r : O) (g k : Signals) → Grows g k → Earned r g → Earned r k
  Earned-Grows r g k m e = record {
    earned_start = λ h. m.start_grows (e.earned_start h);
    earned_final = λ h. m.final_grows (e.earned_final h);
    admitted = e.admitted;
  }

  AtEnd-Quiet : (r : O) (s u : State P O) → Quiet s u → AtEnd r s → AtEnd r u
  AtEnd-Quiet r s u q e = record {
    exits = q.same_exit ∙ e.exits;
    first_started = q.same_first ∙ e.first_started;
    second_started = q.same_second ∙ e.second_started;
    earned = Earned-Grows r s.signals u.signals q.grows e.earned;
  }

  AtPlace-Quiet : (p : Place P O) (s u : State P O) → Quiet s u → AtPlace p s → AtPlace p u
  AtPlace-Quiet (body p) s u q b = record {
    stays = q.same_exit ∙ b.stays;
    first_is = q.same_first ∙ b.first_is;
    second_is = q.same_second ∙ b.second_is;
    start_is = λ h. q.grows.start_grows (b.start_is h);
    final_is = λ h. q.grows.final_grows (b.final_is h);
  }
  AtPlace-Quiet (gathering r) s u q e = AtEnd-Quiet r s u q e
  AtPlace-Quiet (communicating r) s u q e = AtEnd-Quiet r s u q e
  AtPlace-Quiet (ended r) s u q e = Earned-Grows r s.signals u.signals q.grows e

  pub Fits-Quiet : (s u : State P O) → Quiet s u → Fits s → Fits u
  Fits-Quiet s u q f = record {
    first_paired = q.same_first_out ∙ f.first_paired ∙ sym q.same_first;
    second_paired = q.same_second_out ∙ f.second_paired ∙ sym q.same_second;
    at_place = subst (λ p. AtPlace p u) (sym q.same_place) (AtPlace-Quiet s.place s u q f.at_place);
  }
