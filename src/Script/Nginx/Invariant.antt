-- ===== src/Script/Nginx/Invariant.antt =====
-- What holds between two events of `main` of .github/script/run_nginx_attach_example.py.
use bpftime_benchmark.Prelude.{ℕ, ◌==◌, ◌≡◌, refl, sym, ap, ◌∙◌, true, false, not, if_intro}
use bpftime_benchmark.Script.Process.{Signals, body, go_to, wind_down}
use bpftime_benchmark.Script.Process.Invariant.{Shape, Earned, AtBody, Fits}
use bpftime_benchmark.Script.Process.Finally.{wind_down-Fits}
use bpftime_benchmark.Script.Nginx.{
  Await, starting_controller, awaiting_controller, settling_controller, starting_nginx,
  awaiting_nginx, settling_nginx, asking_denied, asking_allowed, Outcome, succeeded, timed_out,
  not_created, request_failed, wrong_status, unbound, NginxState, resume_nginx, answer, fail_nginx,
}

-- A request is made once both processes have printed what is waited for, so that what comes of it
-- vouches for both lines.
abbrev pub shape : Shape Await Outcome
shape = record {
  has_first = λ p. elim p [ starting_controller ↦ false | _ ↦ true ];
  has_second = λ p. elim p [
    | awaiting_nginx ↦ true
    | settling_nginx ↦ true
    | asking_denied ↦ true
    | asking_allowed ↦ true
    | _ ↦ false
  ];
  needs_start =
      λ p. elim p [ starting_controller ↦ false | awaiting_controller ↦ false | _ ↦ true ];
  needs_final = λ p. elim p [
    | settling_nginx ↦ true
    | asking_denied ↦ true
    | asking_allowed ↦ true
    | _ ↦ false
  ];
  owes_start =
      λ r. elim r [ succeeded ↦ true | request_failed ↦ true | wrong_status ↦ true | _ ↦ false ];
  owes_final =
      λ r. elim r [ succeeded ↦ true | request_failed ↦ true | wrong_status ↦ true | _ ↦ false ];
  admits = λ r. true;
}

abbrev pub IsWellFormed : NginxState → Type 0
IsWellFormed s = Fits shape s

-- An outcome for which nothing is owed.
timeout-Earned : (g : Signals) → Earned shape timed_out g
timeout-Earned g = record { earned_start = λ h. cc; earned_final = λ h. cc; admitted = refl }

not_created-Earned : (g : Signals) → Earned shape not_created g
not_created-Earned g = record { earned_start = λ h. cc; earned_final = λ h. cc; admitted = refl }

unbound-Earned : (g : Signals) → Earned shape unbound g
unbound-Earned g = record { earned_start = λ h. cc; earned_final = λ h. cc; admitted = refl }

-- The next place needs what the last one had, or less.
moved :
    (p q : Await) (s : NginxState)
    → IsWellFormed s
    → AtBody shape p s
    → shape.has_first q ≡ shape.has_first p
    → shape.has_second q ≡ shape.has_second p
    → (shape.needs_start q ≡ true → s.signals.start ≡ true)
    → (shape.needs_final q ≡ true → s.signals.final ≡ true)
    → IsWellFormed (go_to (body q) s)
moved p q s f b e1 e2 h1 h2 = record {
  first_paired = f.first_paired;
  second_paired = f.second_paired;
  at_place = record {
    stays = b.stays;
    first_is = b.first_is ∙ ap not (sym e1);
    second_is = b.second_is ∙ ap not (sym e2);
    start_is = h1;
    final_is = h2;
  };
}

pub resume-IsWellFormed :
    (p : Await) (s : NginxState)
    → IsWellFormed s
    → AtBody shape p s
    → IsWellFormed (resume_nginx p s)
unfolding resume_nginx
resume-IsWellFormed starting_controller s f b = record {
  first_paired = refl;
  second_paired = f.second_paired;
  at_place = record {
    stays = b.stays;
    first_is = refl;
    second_is = b.second_is;
    start_is = b.start_is;
    final_is = b.final_is;
  };
}
resume-IsWellFormed awaiting_controller s f b =
    if_intro IsWellFormed s.signals.start
      (λ set. moved awaiting_controller settling_controller s f b refl refl (λ _. set) b.final_is)
      (λ _. f)
resume-IsWellFormed settling_controller s f b =
    moved settling_controller starting_nginx s f b refl refl b.start_is b.final_is
resume-IsWellFormed starting_nginx s f b = record {
  first_paired = f.first_paired;
  second_paired = refl;
  at_place = record {
    stays = b.stays;
    first_is = b.first_is;
    second_is = refl;
    start_is = b.start_is;
    final_is = b.final_is;
  };
}
resume-IsWellFormed awaiting_nginx s f b =
    if_intro IsWellFormed s.signals.final
      (λ set. moved awaiting_nginx settling_nginx s f b refl refl b.start_is (λ _. set)) (λ _. f)
resume-IsWellFormed settling_nginx s f b =
    moved settling_nginx asking_denied s f b refl refl b.start_is b.final_is
resume-IsWellFormed asking_denied s f b = f
resume-IsWellFormed asking_allowed s f b = f

-- Where a request is made, both lines have been heard.
asked :
    (r : Outcome) (s : NginxState)
    → IsWellFormed s
    → s.signals.start ≡ true
    → s.signals.final ≡ true
    → IsWellFormed (wind_down r s)
asked r s f h k =
    wind_down-Fits shape r s f
      (record { earned_start = λ _. h; earned_final = λ _. k; admitted = refl })

pub answer-IsWellFormed :
    (code : ℕ) (p : Await) (s : NginxState)
    → IsWellFormed s
    → AtBody shape p s
    → IsWellFormed (answer code p s)
unfolding answer
answer-IsWellFormed code asking_denied s f b =
    if_intro IsWellFormed (code == 403)
      (λ _. moved asking_denied asking_allowed s f b refl refl b.start_is b.final_is)
      (λ _. asked wrong_status s f (b.start_is refl) (b.final_is refl))
answer-IsWellFormed code asking_allowed s f b =
    if_intro IsWellFormed (code == 200)
      (λ _. asked succeeded s f (b.start_is refl) (b.final_is refl))
      (λ _. asked wrong_status s f (b.start_is refl) (b.final_is refl))
answer-IsWellFormed code starting_controller s f b = f
answer-IsWellFormed code awaiting_controller s f b = f
answer-IsWellFormed code settling_controller s f b = f
answer-IsWellFormed code starting_nginx s f b = f
answer-IsWellFormed code awaiting_nginx s f b = f
answer-IsWellFormed code settling_nginx s f b = f

pub fail-IsWellFormed :
    (p : Await) (s : NginxState) → IsWellFormed s → AtBody shape p s → IsWellFormed (fail_nginx p s)
unfolding fail_nginx
fail-IsWellFormed starting_controller s f b = record {
  first_paired = f.first_paired;
  second_paired = f.second_paired;
  at_place = unbound-Earned s.signals;
}
fail-IsWellFormed awaiting_controller s f b =
    wind_down-Fits shape timed_out s f (timeout-Earned s.signals)
fail-IsWellFormed settling_controller s f b = f
fail-IsWellFormed starting_nginx s f b =
    wind_down-Fits shape not_created s f (not_created-Earned s.signals)
fail-IsWellFormed awaiting_nginx s f b =
    wind_down-Fits shape timed_out s f (timeout-Earned s.signals)
fail-IsWellFormed settling_nginx s f b = f
fail-IsWellFormed asking_denied s f b = asked request_failed s f (b.start_is refl) (b.final_is refl)
fail-IsWellFormed asking_allowed s f b =
    asked request_failed s f (b.start_is refl) (b.final_is refl)
