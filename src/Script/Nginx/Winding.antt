-- ===== src/Script/Nginx/Winding.antt =====
-- .github/script/run_nginx_attach_example.py as a script whose `finally` block winds down.
use bpftime_benchmark.Prelude.{◌≡◌, refl, ap, ◌∙◌, true, false, some}
use bpftime_benchmark.Script.Process.{
  Place, body, gathering, communicating, ended, gather_tasks, is_gone,
}
use bpftime_benchmark.Script.Process.Invariant.{is_unstarted, is_absent}
use bpftime_benchmark.Script.Process.Outcome.{decided}
use bpftime_benchmark.Script.Monitor.{Turn, as_notified}
use bpftime_benchmark.Script.Monitor.Closing.{is_closed, take_turn-is_closed}
use bpftime_benchmark.Script.Winding.{
  Settles, Waits, for_tasks, for_processes, Past, tasks_over, all_over, Script,
}
use bpftime_benchmark.Script.Winding.Parts.{
  leaves, Settles-refl, moved-Settles, first_turn-Settles, second_turn-Settles, first_exit-Settles,
  second_exit-Settles, after_gather-Settles, after_communicate-Settles, after_gather-Past,
  after_communicate-Past, after_communicate-ended,
}
use bpftime_benchmark.Script.Process.Outcome.{after_gather-Decides, after_communicate-Decides}
use bpftime_benchmark.Script.Nginx.{
  Await, Outcome, Event, woken, raised, answered, controller_turn, nginx_turn, controller_exit,
  nginx_exit, NginxState, controller_callbacks, nginx_callbacks, turn_controller, turn_nginx,
  woken_nginx, answered_nginx, raised_nginx, react_nginx, step_nginx_at, step_nginx,
}
use bpftime_benchmark.Script.Nginx.Invariant.{shape}
use bpftime_benchmark.Script.Nginx.Steps.{step-IsWellFormed}

module _ (s : NginxState) (r : Outcome) where
  pub step-ended : (e : Event) → s.place ≡ ended r → (step_nginx e s).place ≡ ended r
  unfolding step_nginx step_nginx_at
  step-ended e h = ap (λ (p : Place Await Outcome). (step_nginx_at e p s).place) h ∙ h

  pub step-decided :
      (e : Event) → decided s.place ≡ some r → decided (step_nginx e s).place ≡ some r
  unfolding step_nginx step_nginx_at react_nginx turn_controller turn_nginx woken_nginx
      answered_nginx raised_nginx
  step-decided e h = go e s.place h
    where
      go :
          (e : Event) (p : Place Await Outcome)
          → decided p ≡ some r
          → decided (step_nginx e (record s { place = p })).place ≡ some r
      go e (body p) h = cc
      go e (ended q) h = h
      go woken (gathering q) h =
          (after_gather-Decides q (gather_tasks s.first_out s.second_out)
            (record s { place = gathering q }) refl).decides
          ∙ h
      go woken (communicating q) h =
          (after_communicate-Decides q (record s { place = communicating q }) refl).decides ∙ h
      go raised (gathering q) h = h
      go raised (communicating q) h = h
      go (answered code) (gathering q) h = h
      go (answered code) (communicating q) h = h
      go (controller_turn t) (gathering q) h = h
      go (controller_turn t) (communicating q) h = h
      go (nginx_turn t) (gathering q) h = h
      go (nginx_turn t) (communicating q) h = h
      go controller_exit (gathering q) h = h
      go controller_exit (communicating q) h = h
      go nginx_exit (gathering q) h = h
      go nginx_exit (communicating q) h = h

  pub step-Settles : (e : Event) → decided s.place ≡ some r → Settles s (step_nginx e s)
  unfolding step_nginx step_nginx_at react_nginx turn_controller turn_nginx woken_nginx
      answered_nginx raised_nginx
  step-Settles e h = go e s.place h
    where
      go :
          (e : Event) (p : Place Await Outcome)
          → decided p ≡ some r
          → Settles (record s { place = p }) (step_nginx e (record s { place = p }))
      go e (body p) h = cc
      go e (ended q) h = Settles-refl (record s { place = ended q })
      go woken (gathering q) h =
          after_gather-Settles (record s { place = gathering q }) q
            (gather_tasks s.first_out s.second_out)
      go woken (communicating q) h =
          after_communicate-Settles (record s { place = communicating q }) q
      go (answered code) (gathering q) h = Settles-refl (record s { place = gathering q })
      go (answered code) (communicating q) h = Settles-refl (record s { place = communicating q })
      go raised (gathering q) h = Settles-refl (record s { place = gathering q })
      go raised (communicating q) h = moved-Settles (record s { place = communicating q }) (ended q)
      go (controller_turn t) (gathering q) h =
          first_turn-Settles (record s { place = gathering q }) controller_callbacks false
            (as_notified s.should_exit t)
      go (controller_turn t) (communicating q) h =
          first_turn-Settles (record s { place = communicating q }) controller_callbacks false
            (as_notified s.should_exit t)
      go (nginx_turn t) (gathering q) h =
          second_turn-Settles (record s { place = gathering q }) nginx_callbacks false
            (as_notified s.should_exit t)
      go (nginx_turn t) (communicating q) h =
          second_turn-Settles (record s { place = communicating q }) nginx_callbacks false
            (as_notified s.should_exit t)
      go controller_exit (gathering q) h = first_exit-Settles (record s { place = gathering q })
      go controller_exit (communicating q) h =
          first_exit-Settles (record s { place = communicating q })
      go nginx_exit (gathering q) h = second_exit-Settles (record s { place = gathering q })
      go nginx_exit (communicating q) h = second_exit-Settles (record s { place = communicating q })

  pub step-Past : (e : Event) → Past r s.place → Past r (step_nginx e s).place
  unfolding step_nginx step_nginx_at react_nginx turn_controller turn_nginx woken_nginx
      answered_nginx raised_nginx
  step-Past e h = go e s.place h
    where
      go :
          (e : Event) (p : Place Await Outcome)
          → Past r p
          → Past r (step_nginx e (record s { place = p })).place
      go e p all_over = all_over
      go woken p tasks_over =
          after_communicate-Past (record s { place = communicating r }) r tasks_over
      go (answered code) p tasks_over = tasks_over
      go raised p tasks_over = all_over
      go (controller_turn t) p tasks_over = tasks_over
      go (nginx_turn t) p tasks_over = tasks_over
      go controller_exit p tasks_over = tasks_over
      go nginx_exit p tasks_over = tasks_over

  pub first_closes :
      (t : Turn)
      → t.notified ≡ true
      → s.should_exit ≡ true
      → is_absent s.first_out ≡ false
      → Waits r s.place
      → is_closed (step_nginx (controller_turn t) s).first_out ≡ true
  unfolding step_nginx step_nginx_at react_nginx turn_controller
  first_closes t ht x k w = go s.place w
    where
      v : Turn
      v = as_notified s.should_exit t

      closed : is_closed (turn_controller t s).first_out ≡ true
      closed =
          take_turn-is_closed controller_callbacks false v s.signals s.first_out (rw (ht, x) refl) k

      go :
          (p : Place Await Outcome)
          → Waits r p
          → is_closed (step_nginx (controller_turn t) (record s { place = p })).first_out ≡ true
      go p for_tasks = closed
      go p for_processes = closed

  pub second_closes :
      (t : Turn)
      → t.notified ≡ true
      → s.should_exit ≡ true
      → is_absent s.second_out ≡ false
      → Waits r s.place
      → is_closed (step_nginx (nginx_turn t) s).second_out ≡ true
  unfolding step_nginx step_nginx_at react_nginx turn_nginx
  second_closes t ht x k w = go s.place w
    where
      v : Turn
      v = as_notified s.should_exit t

      closed : is_closed (turn_nginx t s).second_out ≡ true
      closed =
          take_turn-is_closed nginx_callbacks false v s.signals s.second_out (rw (ht, x) refl) k

      go :
          (p : Place Await Outcome)
          → Waits r p
          → is_closed (step_nginx (nginx_turn t) (record s { place = p })).second_out ≡ true
      go p for_tasks = closed
      go p for_processes = closed

  pub gathers :
      is_closed s.first_out ≡ true
      → is_closed s.second_out ≡ true
      → Waits r s.place
      → Past r (step_nginx woken s).place
  unfolding step_nginx step_nginx_at react_nginx woken_nginx
  gathers hf hs w = go s.place w
    where
      go :
          (p : Place Await Outcome)
          → Waits r p
          → Past r (step_nginx woken (record s { place = p })).place
      go p for_tasks = after_gather-Past (record s { place = gathering r }) r hf hs
      go p for_processes =
          after_communicate-Past (record s { place = communicating r }) r tasks_over

  pub first_leaves :
      is_unstarted s.first ≡ false
      → Waits r s.place
      → is_gone (step_nginx controller_exit s).first ≡ true
  unfolding step_nginx step_nginx_at react_nginx
  first_leaves h w = go s.place w
    where
      go :
          (p : Place Await Outcome)
          → Waits r p
          → is_gone (step_nginx controller_exit (record s { place = p })).first ≡ true
      go p for_tasks = leaves s.first h
      go p for_processes = leaves s.first h

  pub second_leaves :
      is_unstarted s.second ≡ false
      → Waits r s.place
      → is_gone (step_nginx nginx_exit s).second ≡ true
  unfolding step_nginx step_nginx_at react_nginx
  second_leaves h w = go s.place w
    where
      go :
          (p : Place Await Outcome)
          → Waits r p
          → is_gone (step_nginx nginx_exit (record s { place = p })).second ≡ true
      go p for_tasks = leaves s.second h
      go p for_processes = leaves s.second h

  pub communicates :
      is_gone s.first ≡ true
      → is_gone s.second ≡ true
      → Past r s.place
      → (step_nginx woken s).place ≡ ended r
  unfolding step_nginx step_nginx_at react_nginx woken_nginx
  communicates hf hs w = go s.place w
    where
      go :
          (p : Place Await Outcome)
          → Past r p
          → (step_nginx woken (record s { place = p })).place ≡ ended r
      go p tasks_over = after_communicate-ended (record s { place = communicating r }) r hf hs
      go p all_over = refl

-- The controller is the first process, and nginx the second one.
abbrev pub nginx_script : Script Await Outcome Event shape
nginx_script = record {
  step = step_nginx;
  first_turn = controller_turn;
  second_turn = nginx_turn;
  woken = woken;
  first_exit = controller_exit;
  second_exit = nginx_exit;
  step_fits = step-IsWellFormed;
  step_decided = λ e s r. step-decided s r e;
  step_settles = λ e s r. step-Settles s r e;
  step_past = λ e s r. step-Past s r e;
  step_ended = λ e s r. step-ended s r e;
  first_closes = λ t s r. first_closes s r t;
  second_closes = λ t s r. second_closes s r t;
  gathers = gathers;
  first_leaves = first_leaves;
  second_leaves = second_leaves;
  communicates = communicates;
}
