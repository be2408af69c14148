-- ===== src/Script/Nginx/Lines.antt =====
-- The lines that set the events of .github/script/run_nginx_attach_example.py.
use bpftime_benchmark.Prelude.{
  any, or_later, or_now, ℕ, ◌==◌, ◌≡◌, refl, sym, ap, ◌∙◌, Bool, true, false, List, [], ◌∷◌, ◌⊎◌,
  inl, inr, if_intro, arith,
}
use bpftime_benchmark.Script.Process.{
  Place, body, gathering, communicating, ended, Signal, start_signal, final_signal, gather_tasks,
  wind_down,
}
use bpftime_benchmark.Script.Process.Outcome.{
  decided, wind_down-Decides, after_gather-Decides, after_communicate-Decides,
}
use bpftime_benchmark.Script.Monitor.{Read, pending, line, unreadable, Turn, as_notified}
use bpftime_benchmark.Script.Monitor.Laws.{is_set, read_rings, read_shows}
use bpftime_benchmark.Script.Monitor.Turns.{take_turn-is_set}
use bpftime_benchmark.Script.Nginx.{
  Await, starting_controller, awaiting_controller, settling_controller, starting_nginx,
  awaiting_nginx, settling_nginx, asking_denied, asking_allowed, Outcome, succeeded, timed_out,
  not_created, request_failed, wrong_status, Event, woken, raised, answered, controller_turn,
  nginx_turn, controller_exit, nginx_exit, NginxState, controller_started, nginx_started,
  controller_callbacks, nginx_callbacks, turn_controller, turn_nginx, resume_nginx, answer,
  fail_nginx, woken_nginx, answered_nginx, raised_nginx, react_nginx, step_nginx_at, step_nginx,
  run_nginx, nginx_start,
}

-- The line of a process that sets an event.
abbrev rings : Signal → Event → Bool
rings start_signal (controller_turn t) = read_shows controller_started t.read
rings final_signal (nginx_turn t) = read_shows nginx_started t.read
rings d e = false

-- The controller prints a line with its text.
abbrev pub controller_shows : Event → Bool
controller_shows e = rings start_signal e

-- So does nginx.
abbrev pub nginx_shows : Event → Bool
nginx_shows e = rings final_signal e

-- `main` goes on with the events that were set.
abbrev Same : NginxState → NginxState → Type 0
Same s u = u.signals ≡ s.signals

wound_down : (r : Outcome) (s : NginxState) → Same s (wind_down r s)
wound_down r s = (wind_down-Decides r s).same_signals

resume-Same : (p : Await) (s : NginxState) → Same s (resume_nginx p s)
unfolding resume_nginx
resume-Same starting_controller s = refl
resume-Same awaiting_controller s = if_intro (Same s) s.signals.start (λ _. refl) (λ _. refl)
resume-Same settling_controller s = refl
resume-Same starting_nginx s = refl
resume-Same awaiting_nginx s = if_intro (Same s) s.signals.final (λ _. refl) (λ _. refl)
resume-Same settling_nginx s = refl
resume-Same asking_denied s = refl
resume-Same asking_allowed s = refl

answer-Same : (code : ℕ) (p : Await) (s : NginxState) → Same s (answer code p s)
unfolding answer
answer-Same code asking_denied s =
    if_intro (Same s) (code == 403) (λ _. refl) (λ _. wound_down wrong_status s)
answer-Same code asking_allowed s =
    if_intro (Same s) (code == 200) (λ _. wound_down succeeded s) (λ _. wound_down wrong_status s)
answer-Same code starting_controller s = refl
answer-Same code awaiting_controller s = refl
answer-Same code settling_controller s = refl
answer-Same code starting_nginx s = refl
answer-Same code awaiting_nginx s = refl
answer-Same code settling_nginx s = refl

fail-Same : (p : Await) (s : NginxState) → Same s (fail_nginx p s)
unfolding fail_nginx
fail-Same starting_controller s = refl
fail-Same awaiting_controller s = wound_down timed_out s
fail-Same settling_controller s = refl
fail-Same starting_nginx s = wound_down not_created s
fail-Same awaiting_nginx s = wound_down timed_out s
fail-Same settling_nginx s = refl
fail-Same asking_denied s = wound_down request_failed s
fail-Same asking_allowed s = wound_down request_failed s

woken-Same : (p : Place Await Outcome) (s : NginxState) → s.place ≡ p → Same s (woken_nginx p s)
unfolding woken_nginx
woken-Same (body p) s e = resume-Same p s
woken-Same (gathering r) s e =
    (after_gather-Decides r (gather_tasks s.first_out s.second_out) s (ap decided e)).same_signals
woken-Same (communicating r) s e = (after_communicate-Decides r s (ap decided e)).same_signals
woken-Same (ended r) s e = refl

answered-Same :
    (code : ℕ) (p : Place Await Outcome) (s : NginxState) → Same s (answered_nginx code p s)
unfolding answered_nginx
answered-Same code (body p) s = answer-Same code p s
answered-Same code (gathering r) s = refl
answered-Same code (communicating r) s = refl
answered-Same code (ended r) s = refl

raised-Same : (p : Place Await Outcome) (s : NginxState) → Same s (raised_nginx p s)
unfolding raised_nginx
raised-Same (body p) s = fail-Same p s
raised-Same (gathering r) s = refl
raised-Same (communicating r) s = refl
raised-Same (ended r) s = refl

controller_rings :
    (d : Signal) (t : Turn)
    → read_rings d controller_callbacks t.read ≡ true
    → rings d (controller_turn t) ≡ true
unfolding controller_callbacks
controller_rings d t h = go d t.read h
  where
    go :
        (d : Signal) (r : Read)
        → read_rings d controller_callbacks r ≡ true
        → rings d (controller_turn (record t { read = r })) ≡ true
    go start_signal (line s) h = ground arith
    go final_signal (line s) h = ground arith
    go d pending h = cc
    go d unreadable h = cc

nginx_rings :
    (d : Signal) (t : Turn)
    → read_rings d nginx_callbacks t.read ≡ true
    → rings d (nginx_turn t) ≡ true
unfolding nginx_callbacks
nginx_rings d t h = go d t.read h
  where
    go :
        (d : Signal) (r : Read)
        → read_rings d nginx_callbacks r ≡ true
        → rings d (nginx_turn (record t { read = r })) ≡ true
    go start_signal (line s) h = ground arith
    go final_signal (line s) h = ground arith
    go d pending h = cc
    go d unreadable h = cc

-- An event that is set was set before, or its line has come.
abbrev Rung : Signal → Event → NginxState → NginxState → Type 0
Rung d e s u = is_set d u.signals ≡ true → (is_set d s.signals ≡ true) ⊎ (rings d e ≡ true)

Same-Rung : (d : Signal) (e : Event) (s u : NginxState) → Same s u → Rung d e s u
Same-Rung d e s u same h = inl (ap (is_set d) (sym same) ∙ h)

react-Rung : (d : Signal) (e : Event) (s : NginxState) → Rung d e s (react_nginx e s)
unfolding react_nginx turn_controller turn_nginx
react-Rung d woken s h = Same-Rung d woken s (woken_nginx s.place s) (woken-Same s.place s refl) h
react-Rung d raised s h = Same-Rung d raised s (raised_nginx s.place s) (raised-Same s.place s) h
react-Rung d (answered code) s h =
    Same-Rung d (answered code) s (answered_nginx code s.place s) (answered-Same code s.place s) h
react-Rung d (controller_turn t) s h =
    elim (take_turn-is_set controller_callbacks false (as_notified s.should_exit t) s.signals d
      s.first_out h) [ inl before ↦ inl before | inr rung ↦ inr (controller_rings d t rung) ]
react-Rung d (nginx_turn t) s h =
    elim (take_turn-is_set nginx_callbacks false (as_notified s.should_exit t) s.signals d
      s.second_out h) [ inl before ↦ inl before | inr rung ↦ inr (nginx_rings d t rung) ]
react-Rung d controller_exit s h = inl h
react-Rung d nginx_exit s h = inl h

step-Rung : (d : Signal) (e : Event) (s : NginxState) → Rung d e s (step_nginx e s)
unfolding step_nginx
step-Rung d e s = go s.place
  where
    go : (p : Place Await Outcome) → Rung d e s (step_nginx_at e p s)
    go (ended r) h = inl h
    go (body p) h = react-Rung d e s h
    go (gathering r) h = react-Rung d e s h
    go (communicating r) h = react-Rung d e s h

run-rung :
    (d : Signal) (es : List Event) (s : NginxState)
    → is_set d (run_nginx es s).signals ≡ true
    → (is_set d s.signals ≡ true) ⊎ (any (rings d) es ≡ true)
unfolding run_nginx
run-rung d [] s h = inl h
run-rung d (e ∷ es) s h = elim (run-rung d es (step_nginx e s) h) [
  | inr later ↦ inr (or_later (rings d e) later)
  | inl stepped ↦ elim (step-Rung d e s stepped) [
    | inl before ↦ inl before
    | inr now ↦ inr (or_now (any (rings d) es) now)
  ]
]

-- An event that a run has set has had its line.
pub run-shown :
    (d : Signal) (es : List Event)
    → is_set d (run_nginx es nginx_start).signals ≡ true
    → any (rings d) es ≡ true
run-shown start_signal es h = elim (run-rung start_signal es nginx_start h) [
  | inl e ↦ cc
  | inr e ↦ e
]
run-shown final_signal es h = elim (run-rung final_signal es nginx_start h) [
  | inl e ↦ cc
  | inr e ↦ e
]
