-- ===== src/Script/Nginx/Stages.antt =====
-- The answers that bring .github/script/run_nginx_attach_example.py to its success.
use bpftime_benchmark.Prelude.{
  any, ℕ, ◌==◌, ◌≡◌, refl, sym, ap, ◌∙◌, ◌||◌, ◌&&◌, Bool, true, false, some, List, [], ◌∷◌,
  if_intro, arith,
}
use mathlib.Core.Path.{subst}
use mathlib.Core.Option.{some-injective}
use bpftime_benchmark.Script.Process.{
  Place, body, gathering, communicating, ended, gather_tasks, wind_down, after_gather,
  after_communicate,
}
use bpftime_benchmark.Script.Process.Outcome.{
  decided, wind_down-Decides, after_gather-Decides, after_communicate-Decides,
}
use bpftime_benchmark.Script.Nginx.{
  Await, starting_controller, awaiting_controller, settling_controller, starting_nginx,
  awaiting_nginx, settling_nginx, asking_denied, asking_allowed, Outcome, succeeded, timed_out,
  not_created, request_failed, wrong_status, Event, woken, raised, answered, controller_turn,
  nginx_turn, controller_exit, nginx_exit, NginxState, turn_controller, turn_nginx, resume_nginx,
  answer, fail_nginx, woken_nginx, answered_nginx, raised_nginx, react_nginx, step_nginx_at,
  step_nginx, run_nginx,
}

abbrev pub answers : ℕ → Event → Bool
answers code (answered n) = n == code
answers code e = false

-- A refusal, and later an answer that is none.
abbrev pub denied_then_allowed : List Event → Bool
denied_then_allowed [] = false
denied_then_allowed (e ∷ es) = (answers 403 e && any (answers 200) es) || denied_then_allowed es

-- Success, or the wait for the second answer: the two places that only an answer leads to.
pub data Stage : Type 0 where
  early allowed passed : Stage

abbrev pub outcome_stage : Outcome → Stage
outcome_stage succeeded = passed
outcome_stage r = early

abbrev pub stage : Place Await Outcome → Stage
stage (body asking_allowed) = allowed
stage (body p) = early
stage (gathering r) = outcome_stage r
stage (communicating r) = outcome_stage r
stage (ended r) = outcome_stage r

-- What the events to come must hold, for a success.
abbrev pub due : Stage → List Event → Bool
due early es = denied_then_allowed es
due allowed es = any (answers 200) es || denied_then_allowed es
due passed es = true

-- An event lets the stage be, takes it back, or is the answer that it waits for.
data Advance (e : Event) : Stage → Stage → Type 0 where
  stays : (x : Stage) → Advance e x x
  falls : (x : Stage) → Advance e x early
  denied_at : answers 403 e ≡ true → Advance e early allowed
  allowed_at : answers 200 e ≡ true → Advance e allowed passed

Advance-due :
    {x y : Stage} (e : Event) (es : List Event)
    → Advance e x y
    → due y es ≡ true
    → due x (e ∷ es) ≡ true
Advance-due e es (stays early) h = ground arith
Advance-due e es (stays allowed) h = ground arith
Advance-due e es (stays passed) h = refl
Advance-due e es (falls early) h = ground arith
Advance-due e es (falls allowed) h = ground arith
Advance-due e es (falls passed) h = refl
Advance-due e es (denied_at g) h = ground arith
Advance-due e es (allowed_at g) h = ground arith

decided-stage :
    (p : Place Await Outcome) (r : Outcome) → decided p ≡ some r → stage p ≡ outcome_stage r
decided-stage (body p) r h = cc
decided-stage (gathering q) r h = ap outcome_stage (some-injective _ _ h)
decided-stage (communicating q) r h = ap outcome_stage (some-injective _ _ h)
decided-stage (ended q) r h = ap outcome_stage (some-injective _ _ h)

-- A change that leaves a stage `x` for an outcome.
abbrev Goes : Event → Stage → NginxState → Type 0
Goes e x s = Advance e x (stage s.place)

wind_down-stage : (r : Outcome) (s : NginxState) → stage (wind_down r s).place ≡ outcome_stage r
wind_down-stage r s = decided-stage (wind_down r s).place r (wind_down-Decides r s).decides

gives_up :
    (e : Event) (x : Stage) (r : Outcome) (s : NginxState)
    → outcome_stage r ≡ early
    → Goes e x (wind_down r s)
gives_up e x r s h = subst (Advance e x) (sym (wind_down-stage r s ∙ h)) (falls x)

resume-Goes :
    (e : Event) (p : Await) (s : NginxState)
    → s.place ≡ body p
    → Goes e (stage (body p)) (resume_nginx p s)
unfolding resume_nginx
resume-Goes e starting_controller s h = stays early
resume-Goes e awaiting_controller s h =
    if_intro (Goes e early) s.signals.start (λ _. stays early) (λ _. rw h (stays early))
resume-Goes e settling_controller s h = stays early
resume-Goes e starting_nginx s h = stays early
resume-Goes e awaiting_nginx s h =
    if_intro (Goes e early) s.signals.final (λ _. stays early) (λ _. rw h (stays early))
resume-Goes e settling_nginx s h = stays early
resume-Goes e asking_denied s h = rw h (stays early)
resume-Goes e asking_allowed s h = rw h (stays allowed)

answer-Goes :
    (code : ℕ) (p : Await) (s : NginxState)
    → s.place ≡ body p
    → Goes (answered code) (stage (body p)) (answer code p s)
unfolding answer
answer-Goes code asking_denied s h =
    if_intro (Goes (answered code) early) (code == 403) (λ k. denied_at k)
      (λ _. gives_up (answered code) early wrong_status s refl)
answer-Goes code asking_allowed s h =
    if_intro (Goes (answered code) allowed) (code == 200)
      (λ k.
        subst (Advance (answered code) allowed) (sym (wind_down-stage succeeded s)) (allowed_at k))
      (λ _. gives_up (answered code) allowed wrong_status s refl)
answer-Goes code starting_controller s h = rw h (stays early)
answer-Goes code awaiting_controller s h = rw h (stays early)
answer-Goes code settling_controller s h = rw h (stays early)
answer-Goes code starting_nginx s h = rw h (stays early)
answer-Goes code awaiting_nginx s h = rw h (stays early)
answer-Goes code settling_nginx s h = rw h (stays early)

fail-Goes :
    (e : Event) (p : Await) (s : NginxState)
    → s.place ≡ body p
    → Goes e (stage (body p)) (fail_nginx p s)
unfolding fail_nginx
fail-Goes e starting_controller s h = stays early
fail-Goes e awaiting_controller s h = gives_up e early timed_out s refl
fail-Goes e settling_controller s h = rw h (stays early)
fail-Goes e starting_nginx s h = gives_up e early not_created s refl
fail-Goes e awaiting_nginx s h = gives_up e early timed_out s refl
fail-Goes e settling_nginx s h = rw h (stays early)
fail-Goes e asking_denied s h = gives_up e early request_failed s refl
fail-Goes e asking_allowed s h = gives_up e allowed request_failed s refl

-- In the `finally` block the outcome stays.
keeps_outcome :
    (e : Event) (r : Outcome) (s : NginxState)
    → decided s.place ≡ some r
    → Goes e (outcome_stage r) s
keeps_outcome e r s h =
    subst (Advance e (outcome_stage r)) (sym (decided-stage s.place r h)) (stays (outcome_stage r))

step-Goes : (e : Event) (s : NginxState) → Goes e (stage s.place) (step_nginx e s)
unfolding step_nginx step_nginx_at react_nginx woken_nginx answered_nginx raised_nginx
    turn_controller turn_nginx
step-Goes e s = go e s.place
  where
    go :
        (e : Event) (p : Place Await Outcome)
        → Goes e (stage p) (step_nginx e (record s { place = p }))
    go e (ended r) = stays (outcome_stage r)
    go woken (body p) = resume-Goes woken p (record s { place = body p }) refl
    go woken (gathering r) =
        let u = record s { place = gathering r } in
        let g = gather_tasks s.first_out s.second_out in
        keeps_outcome woken r (after_gather r g u) (after_gather-Decides r g u refl).decides
    go woken (communicating r) =
        let u = record s { place = communicating r } in
        keeps_outcome woken r (after_communicate r u) (after_communicate-Decides r u refl).decides
    go raised (body p) = fail-Goes raised p (record s { place = body p }) refl
    go raised (gathering r) = stays (outcome_stage r)
    go raised (communicating r) = stays (outcome_stage r)
    go (answered code) (body p) = answer-Goes code p (record s { place = body p }) refl
    go (answered code) (gathering r) = stays (outcome_stage r)
    go (answered code) (communicating r) = stays (outcome_stage r)
    go (controller_turn t) p = stays (stage p)
    go (nginx_turn t) p = stays (stage p)
    go controller_exit p = stays (stage p)
    go nginx_exit p = stays (stage p)

pub run-due :
    (es : List Event) (s : NginxState)
    → stage (run_nginx es s).place ≡ passed
    → due (stage s.place) es ≡ true
unfolding run_nginx
run-due [] s h = rw h refl
run-due (e ∷ es) s h = Advance-due e es (step-Goes e s) (run-due es (step_nginx e s) h)
