-- ===== src/Script/Process/Outcome.antt =====
-- The outcome that is decided once the body of the `try` is left.
use bpftime_benchmark.Prelude.{◌≡◌, refl, true, ◌&&◌, Option, none, some, if_intro}
use bpftime_benchmark.Script.Process.{
  Life, unstarted, running, interrupted, gone, Signals, Place, body, gathering, communicating,
  ended, State, Gathered, all_done, some_raised, not_yet, is_gone, interrupt_second,
  interrupt_first, wind_down, after_gather, after_communicate,
}

module _ {P O : Type 0} where
  abbrev pub decided : Place P O → Option O
  decided (body p) = none
  decided (gathering r) = some r
  decided (communicating r) = some r
  decided (ended r) = some r

  -- A state in which an outcome has been decided, and the events are those of before.
  pub record Decides (r : O) (g : Signals) (s : State P O) : Type 0 where
    pub decides : decided s.place ≡ some r
    pub same_signals : s.signals ≡ g

  interrupt_second-Decides :
      (r : O) (l : Life) (s : State P O) → Decides r s.signals (interrupt_second r l s)
  unfolding interrupt_second
  interrupt_second-Decides r unstarted s = record { decides = refl; same_signals = refl }
  interrupt_second-Decides r running s = record { decides = refl; same_signals = refl }
  interrupt_second-Decides r interrupted s = record { decides = refl; same_signals = refl }
  interrupt_second-Decides r gone s = record { decides = refl; same_signals = refl }

  interrupt_first-Decides :
      (r : O) (l : Life) (s : State P O) → Decides r s.signals (interrupt_first r l s)
  unfolding interrupt_first
  interrupt_first-Decides r unstarted s = record { decides = refl; same_signals = refl }
  interrupt_first-Decides r running s =
      interrupt_second-Decides r s.second (record s { first = interrupted })
  interrupt_first-Decides r interrupted s =
      interrupt_second-Decides r s.second (record s { first = interrupted })
  interrupt_first-Decides r gone s = record { decides = refl; same_signals = refl }

  pub wind_down-Decides : (r : O) (s : State P O) → Decides r s.signals (wind_down r s)
  unfolding wind_down
  wind_down-Decides r s = interrupt_first-Decides r s.first (record s { should_exit = true })

  pub after_gather-Decides :
      (r : O) (g : Gathered) (s : State P O)
      → decided s.place ≡ some r
      → Decides r s.signals (after_gather r g s)
  unfolding after_gather
  after_gather-Decides r all_done s h = record { decides = refl; same_signals = refl }
  after_gather-Decides r some_raised s h = record { decides = refl; same_signals = refl }
  after_gather-Decides r not_yet s h = record { decides = h; same_signals = refl }

  pub after_communicate-Decides :
      (r : O) (s : State P O)
      → decided s.place ≡ some r
      → Decides r s.signals (after_communicate r s)
  unfolding after_communicate
  after_communicate-Decides r s h =
      if_intro (Decides r s.signals) (is_gone s.first && is_gone s.second)
        (λ _. record { decides = refl; same_signals = refl })
        (λ _. record { decides = h; same_signals = refl })
