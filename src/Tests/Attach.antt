-- ===== src/Tests/Attach.antt =====
-- Runs of .github/script/run_nginx_attach_example.py on a concrete sequence of events.
use bpftime_benchmark.Script.Nginx.Lines.{controller_shows, nginx_shows}
use bpftime_benchmark.Prelude.{inl, inr, some, any, ◌≡◌, refl, true, false, List, [], ◌∷◌, ◌++◌}
use bpftime_benchmark.Text.Base.{Text, codes, contains, starts_with}
use bpftime_benchmark.Script.Process.{
  listening, final_signal, unset, ended, wind_down, interrupt_first, interrupt_second, after_gather,
  gather_tasks, after_communicate,
}
use bpftime_benchmark.Script.Monitor.{
  pending, line, Turn, Callbacks, ring, end_round, hear_read, monitor_round, take_turn, follow,
}
use bpftime_benchmark.Script.Monitor.Laws.{attended}
use bpftime_benchmark.Script.Winding.{Within}
use bpftime_benchmark.Script.Nginx.{
  succeeded, wrong_status, unbound, Event, woken, raised, answered, controller_turn, nginx_turn,
  controller_exit, nginx_exit, controller_started, nginx_started, controller_callbacks,
  nginx_callbacks, turn_controller, turn_nginx, resume_nginx, answer, fail_nginx, woken_nginx,
  answered_nginx, raised_nginx, react_nginx, step_nginx_at, step_nginx, run_nginx, nginx_start,
  nginx_exit_code,
}
use bpftime_benchmark.Script.Nginx.Invariant.{IsWellFormed}
use bpftime_benchmark.Script.Nginx.Steps.{nginx-IsWellFormed}
use bpftime_benchmark.Script.Nginx.Monitor.{handle_stdout, handle_stdout_lem, transcript}
use bpftime_benchmark.Script.Nginx.Progress.{nginx_closing, nginx_closing_ends}
use bpftime_benchmark.Script.Process.Outcome.{decided}
use bpftime_benchmark.Script.Nginx.Verdict.{nginx_exit_code_sound}
use bpftime_benchmark.Script.Nginx.Stages.{denied_then_allowed}

abbrev reads : Text → Turn
reads s = record { read = line s; notified = false; at_eof = false }

abbrev last_turn : Turn
last_turn = record { read = pending; notified = true; at_eof = false }

abbrev whole : List Event
whole =
    woken
    ∷ controller_turn (reads (codes "Epoll fd is 7"))
    ∷ woken
    ∷ woken
    ∷ woken
    ∷ nginx_turn (reads (codes "Module init (0 is success): 0"))
    ∷ woken
    ∷ woken
    ∷ answered 403
    ∷ answered 200
    ∷ controller_turn last_turn
    ∷ nginx_turn last_turn
    ∷ woken
    ∷ controller_exit
    ∷ nginx_exit
    ∷ woken
    ∷ []

succeeds : (run_nginx whole nginx_start).place ≡ ended succeeded
unfolding run_nginx step_nginx step_nginx_at react_nginx woken_nginx answered_nginx answer
    resume_nginx turn_controller turn_nginx take_turn monitor_round hear_read end_round
    controller_callbacks nginx_callbacks controller_started nginx_started ring contains starts_with
    wind_down interrupt_first interrupt_second after_gather gather_tasks after_communicate
succeeds = refl

-- A controller that cannot be created ends the script with another exception than its own.
loses_exception : (run_nginx (raised ∷ []) nginx_start).place ≡ ended unbound
unfolding run_nginx step_nginx step_nginx_at react_nginx raised_nginx fail_nginx
loses_exception = refl

status : nginx_exit_code succeeded ≡ 0
unfolding nginx_exit_code
status = refl

nginx_exit_code_sound_example :
    (denied_then_allowed whole ≡ true)
    × (any controller_shows whole ≡ true)
    × (any nginx_shows whole ≡ true)
nginx_exit_code_sound_example = nginx_exit_code_sound whole succeeded succeeds status

nginx-IsWellFormed_example : IsWellFormed (run_nginx whole nginx_start)
nginx-IsWellFormed_example = nginx-IsWellFormed whole

abbrev callbacks : Callbacks
callbacks = (final_signal, codes "ready") ∷ []

abbrev turns : List Turn
turns = reads (codes "ready") ∷ reads (codes "done") ∷ last_turn ∷ []

handle_stdout_lem_example :
    let x = handle_stdout (codes "NGINX") callbacks false turns unset in
    let h = follow callbacks false turns (record { signals = unset; task = listening }) in
    (x.printed
      ≡ (codes "Monitoring output of " ++ (codes "NGINX" ++ (10 ∷ [])))
        ++ transcript (codes "NGINX") callbacks (attended false listening turns))
    × (x.signals ≡ h.signals)
    × (x.task ≡ h.task)
handle_stdout_lem_example = handle_stdout_lem (codes "NGINX") callbacks false turns unset

-- The second answer has come.
abbrev to_answers : List Event
to_answers =
    woken
    ∷ controller_turn (reads (codes "Epoll fd is 7"))
    ∷ woken
    ∷ woken
    ∷ woken
    ∷ nginx_turn (reads (codes "Module init (0 is success): 0"))
    ∷ woken
    ∷ woken
    ∷ answered 403
    ∷ answered 404
    ∷ []

is_decided : decided (run_nginx to_answers nginx_start).place ≡ some wrong_status
unfolding run_nginx step_nginx step_nginx_at react_nginx woken_nginx answered_nginx answer
    resume_nginx turn_controller turn_nginx take_turn monitor_round hear_read end_round
    controller_callbacks nginx_callbacks controller_started nginx_started ring contains starts_with
    wind_down interrupt_first interrupt_second
is_decided = refl

-- nginx ends before `main` is resumed, and again behind the controller.
abbrev busy_closing : List Event
busy_closing =
    controller_turn last_turn
    ∷ raised
    ∷ nginx_turn last_turn
    ∷ nginx_exit
    ∷ woken
    ∷ controller_exit
    ∷ nginx_exit
    ∷ woken
    ∷ []

busy_lem : Within (nginx_closing last_turn last_turn) busy_closing
busy_lem = inl (refl, inr (inl (refl, inr (inl (refl, inl (refl, inl (refl, inl (refl, tt))))))))

nginx_closing_ends_example :
    (run_nginx busy_closing (run_nginx to_answers nginx_start)).place ≡ ended wrong_status
nginx_closing_ends_example =
    nginx_closing_ends last_turn last_turn refl refl wrong_status (run_nginx to_answers nginx_start)
      busy_closing (nginx-IsWellFormed to_answers) is_decided busy_lem
