-- ===== src/Script/Winding/Ends.antt =====
-- The end of the `finally` block of a script, level by level: a level that has been reached is kept by
-- every event, and the event that it waits for brings the next one.
use bpftime_benchmark.Prelude.{
  ◌≡◌, refl, sym, ap, ◌∙◌, true, false, some, List, [], ◌∷◌, ◌⊎◌, inl, inr,
}
use mathlib.Core.Option.{some-injective}
use mathlib.Core.Path.{subst}
use bpftime_benchmark.Script.Process.{Place, body, gathering, communicating, ended, State, is_gone}
use bpftime_benchmark.Script.Process.Invariant.{
  is_unstarted, is_absent, Shape, AtEnd, AtPlace, Fits,
}
use bpftime_benchmark.Script.Process.Outcome.{decided}
use bpftime_benchmark.Script.Monitor.{Turn}
use bpftime_benchmark.Script.Monitor.Closing.{is_closed}
use bpftime_benchmark.Script.Winding.{Waits, for_tasks, for_processes, Past, Script, Within, run_of}

-- How far the block has come.
pub data Level : Type 0 where
  begun first_over both_over gathered first_left both_left : Level

module _ {P O E : Type 0} {shape : Shape P O} (script : Script P O E shape) (r : O) where
  abbrev Done : Level → State P O → Type 0
  Done begun s = Unit
  Done first_over s = is_closed s.first_out ≡ true
  Done both_over s = (is_closed s.first_out ≡ true) × (is_closed s.second_out ≡ true)
  Done gathered s = Past r s.place
  Done first_left s = Past r s.place × (is_gone s.first ≡ true)
  Done both_left s = Past r s.place × (is_gone s.first ≡ true) × (is_gone s.second ≡ true)

  Done-step :
      (l : Level) (e : E) (s : State P O)
      → decided s.place ≡ some r
      → Done l s
      → Done l (script.step e s)
  Done-step begun e s d h = tt
  Done-step first_over e s d h = (script.step_settles e s r d).first_closed h
  Done-step both_over e s d (h, k) =
      let m = script.step_settles e s r d in (m.first_closed h, m.second_closed k)
  Done-step gathered e s d h = script.step_past e s r h
  Done-step first_left e s d (h, k) =
      (script.step_past e s r h, (script.step_settles e s r d).first_gone k)
  Done-step both_left e s d (h, k, m) =
      let o = script.step_settles e s r d in
      (script.step_past e s r h, o.first_gone k, o.second_gone m)

  -- A state of the block that is well-formed, at its end or at a level.
  record Reached (l : Level) (s : State P O) : Type 0 where
    fits : Fits shape s
    same : decided s.place ≡ some r
    level : (s.place ≡ ended r) ⊎ Done l s

  Reached-step : (l : Level) (e : E) (s : State P O) → Reached l s → Reached l (script.step e s)
  Reached-step l e s h = record {
    fits = script.step_fits e s h.fits;
    same = script.step_decided e s r h.same;
    level = elim h.level [
      | inl over ↦ inl (script.step_ended e s r over)
      | inr at_level ↦ inr (Done-step l e s h.same at_level)
    ];
  }

  -- A state that is not at its end waits, and has what it waits for.
  record Block (s : State P O) : Type 0 where
    waits : Waits r s.place
    exits : s.should_exit ≡ true
    first_is : is_unstarted s.first ≡ false
    second_is : is_unstarted s.second ≡ false
    first_task : is_absent s.first_out ≡ false
    second_task : is_absent s.second_out ≡ false

  at-Block : (s : State P O) → Fits shape s → AtEnd shape r s → Waits r s.place → Block s
  at-Block s f e w = record {
    waits = w;
    exits = e.exits;
    first_is = e.first_started;
    second_is = e.second_started;
    first_task = f.first_paired ∙ e.first_started;
    second_task = f.second_paired ∙ e.second_started;
  }

  block : (s : State P O) → Fits shape s → decided s.place ≡ some r → (s.place ≡ ended r) ⊎ Block s
  block s f d = go s.place refl f.at_place
    where
      same : (q : O) (p : Place P O) → s.place ≡ p → decided p ≡ some q → q ≡ r
      same q p e h = some-injective _ _ (sym h ∙ ap decided (sym e) ∙ d)

      go : (p : Place P O) → s.place ≡ p → AtPlace shape p s → (s.place ≡ ended r) ⊎ Block s
      go (body p) e h = cc
      go (gathering q) e h =
          let k = same q (gathering q) e refl in
          inr (
            at-Block s f (subst (λ q. AtEnd shape q s) k h)
              (subst (Waits r) (sym (e ∙ ap gathering k)) for_tasks))
      go (communicating q) e h =
          let k = same q (communicating q) e refl in
          inr (
            at-Block s f (subst (λ q. AtEnd shape q s) k h)
              (subst (Waits r) (sym (e ∙ ap communicating k)) for_processes))
      go (ended q) e h = inl (e ∙ ap ended (same q (ended q) e refl))

  -- The event that a level waits for, and those that come behind it.
  abbrev pub event : Level → Turn → Turn → E
  event begun t u = script.first_turn t
  event first_over t u = script.second_turn u
  event both_over t u = script.woken
  event gathered t u = script.first_exit
  event first_left t u = script.second_exit
  event both_left t u = script.woken

  abbrev pub later : Level → Turn → Turn → List E
  later begun t u =
      script.second_turn u
      ∷ script.woken
      ∷ script.first_exit
      ∷ script.second_exit
      ∷ script.woken
      ∷ []
  later first_over t u = script.woken ∷ script.first_exit ∷ script.second_exit ∷ script.woken ∷ []
  later both_over t u = script.first_exit ∷ script.second_exit ∷ script.woken ∷ []
  later gathered t u = script.second_exit ∷ script.woken ∷ []
  later first_left t u = script.woken ∷ []
  later both_left t u = []

  abbrev pub after : Level → Turn → Turn → List E
  after l t u = event l t u ∷ later l t u

  -- A level that the next event has brought.
  brought :
      (l m : Level) (e : E) (s : State P O)
      → Reached l s
      → (Block s → Done l s → Done m (script.step e s))
      → Reached m (script.step e s)
  brought l m e s h done = record {
    fits = script.step_fits e s h.fits;
    same = script.step_decided e s r h.same;
    level = elim h.level [
      | inl over ↦ inl (script.step_ended e s r over)
      | inr at_level ↦ elim (block s h.fits h.same) [
        | inl over ↦ inl (script.step_ended e s r over)
        | inr b ↦ inr (done b at_level)
      ]
    ];
  }

  stays_ended :
      (es : List E) (s : State P O) → s.place ≡ ended r → (run_of script.step es s).place ≡ ended r
  stays_ended [] s h = h
  stays_ended (e ∷ es) s h = stays_ended es (script.step e s) (script.step_ended e s r h)

  module _ (t u : Turn) (ht : t.notified ≡ true) (hu : u.notified ≡ true) where
    last_step : (s : State P O) → Reached both_left s → (script.step script.woken s).place ≡ ended r
    last_step s h = elim h.level [
      | inl over ↦ script.step_ended script.woken s r over
      | inr (past, first, second) ↦ script.communicates s r first second past
    ]

    -- The event of a level takes it on.
    advance :
        (l : Level) (s : State P O)
        → Reached l s
        → (es : List E) → Within (later l t u) es
        → ((m : Level)
            → (s : State P O) → Reached m s
            → Within (after m t u) es
            → (run_of script.step es s).place ≡ ended r)
        → (run_of script.step es (script.step (event l t u) s)).place ≡ ended r
    advance begun s h es w go =
        go first_over (script.step (script.first_turn t) s)
          (brought begun first_over (script.first_turn t) s h
            (λ b _. script.first_closes t s r ht b.exits b.first_task b.waits))
          w
    advance first_over s h es w go =
        go both_over (script.step (script.second_turn u) s)
          (brought first_over both_over (script.second_turn u) s h (λ b k. (
            (script.step_settles (script.second_turn u) s r h.same).first_closed k,
            script.second_closes u s r hu b.exits b.second_task b.waits,
          )))
          w
    advance both_over s h es w go =
        go gathered (script.step script.woken s)
          (brought both_over gathered script.woken s h (λ b k. script.gathers s r k.0 k.1 b.waits))
          w
    advance gathered s h es w go =
        go first_left (script.step script.first_exit s)
          (brought gathered first_left script.first_exit s h (λ b k.
            (script.step_past script.first_exit s r k, script.first_leaves s r b.first_is b.waits)))
          w
    advance first_left s h es w go =
        go both_left (script.step script.second_exit s)
          (brought first_left both_left script.second_exit s h (λ b k. (
            script.step_past script.second_exit s r k.0,
            (script.step_settles script.second_exit s r h.same).first_gone k.1,
            script.second_leaves s r b.second_is b.waits,
          )))
          w
    advance both_left s h es w go = stays_ended es (script.step script.woken s) (last_step s h)

    ends_from :
        (es : List E) (l : Level) (s : State P O)
        → Reached l s
        → Within (after l t u) es
        → (run_of script.step es s).place ≡ ended r
    ends_from [] l s h w = absurd w
    ends_from (e ∷ es) l s h (inr w) = ends_from es l (script.step e s) (Reached-step l e s h) w
    ends_from (e ∷ es) l s h (inl (same, w)) =
        subst (λ e. (run_of script.step es (script.step e s)).place ≡ ended r) same
          (advance l s h es w (ends_from es))

    -- A script whose outcome is decided ends with it in every run in which each of its tasks has a
    -- turn that is notified, `main` is resumed, each of its processes ends, and `main` is resumed
    -- again, in this order, whatever else happens between these events.
    pub script_ends :
        (s : State P O) (es : List E)
        → Fits shape s
        → decided s.place ≡ some r
        → Within (after begun t u) es
        → (run_of script.step es s).place ≡ ended r
    script_ends s es f d w = ends_from es begun s (record { fits = f; same = d; level = inr tt }) w
