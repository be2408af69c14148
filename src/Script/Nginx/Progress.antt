-- ===== src/Script/Nginx/Progress.antt =====
-- `main` of .github/script/run_nginx_attach_example.py comes to its end.
use bpftime_benchmark.Prelude.{◌≡◌, refl, ap, ◌∙◌, true, some, List, [], ◌∷◌}
use bpftime_benchmark.Script.Process.{ended}
use bpftime_benchmark.Script.Process.Outcome.{decided}
use bpftime_benchmark.Script.Monitor.{Turn}
use bpftime_benchmark.Script.Winding.{Within, run_of}
use bpftime_benchmark.Script.Winding.Ends.{script_ends}
use bpftime_benchmark.Script.Nginx.Winding.{nginx_script}
use bpftime_benchmark.Script.Nginx.{
  Outcome, Event, woken, controller_turn, nginx_turn, controller_exit, nginx_exit, NginxState,
  step_nginx, run_nginx,
}
use bpftime_benchmark.Script.Nginx.Invariant.{IsWellFormed}

-- The tasks take a turn each, and the processes end, with `main` resumed behind either.
abbrev pub nginx_closing : Turn → Turn → List Event
nginx_closing t u =
    controller_turn t ∷ nginx_turn u ∷ woken ∷ controller_exit ∷ nginx_exit ∷ woken ∷ []

run_nginx-of : (es : List Event) (s : NginxState) → run_nginx es s ≡ run_of step_nginx es s
unfolding run_nginx
run_nginx-of [] s = refl
run_nginx-of (e ∷ es) s = run_nginx-of es (step_nginx e s)

module _ (t u : Turn) (ht : t.notified ≡ true) (hu : u.notified ≡ true) where
  -- From a well-formed state in which an outcome is decided, the nginx script ends with it in every
  -- run in which each of its tasks has a turn that is notified, `main` is resumed, each of the
  -- processes ends, and `main` is resumed again, in this order, whatever the tasks read and
  -- whatever else happens between these events.
  pub nginx_closing_ends :
      (r : Outcome) (s : NginxState) (es : List Event)
      → IsWellFormed s
      → decided s.place ≡ some r
      → Within (nginx_closing t u) es
      → (run_nginx es s).place ≡ ended r
  nginx_closing_ends r s es f d w =
      ap (λ (x : NginxState). x.place) (run_nginx-of es s)
      ∙ script_ends nginx_script r t u ht hu s es f d w
