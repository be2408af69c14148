-- ===== src/Tests/Scripts.antt =====
-- Runs of .github/script/run_example.py on a concrete sequence of events.
use bpftime_benchmark.Prelude.{
  ap, inl, inr, any, ◌≡◌, ◌↔◌, ◌⊎◌, ◌||◌, refl, true, false, some, List, [], ◌∷◌, ◌++◌,
  if◌then◌else◌,
}
use mathlib.Core.List.{cons-ne-nil}
use bpftime_benchmark.Text.Base.{Text, codes, contains, text_eq, starts_with}
use bpftime_benchmark.Script.Process.{
  running, interrupted, is_gone, listening, failed, final_signal, unset, body, ended, wind_down,
  interrupt_first, interrupt_second, after_gather, gather_tasks,
}
use bpftime_benchmark.Script.Process.Invariant.{is_unstarted}
use bpftime_benchmark.Script.Process.Outcome.{decided}
use bpftime_benchmark.Script.Monitor.{
  pending, line, Turn, Callbacks, error_mark, ring, end_round, hear_read, monitor_round, take_turn,
  follow,
}
use bpftime_benchmark.Script.Monitor.Laws.{is_set, any_rings, attended, final_task, follow_lem}
use bpftime_benchmark.Script.Winding.{Within}
use bpftime_benchmark.Script.Command.{
  Args, skips_check, command_line, server_command, agent_command,
}
use bpftime_benchmark.Script.Command.Laws.{IsWord, command_line_lem, commands_lem}
use bpftime_benchmark.Script.Example.{
  agent_exit, server_exit, waiting_for_text, Outcome, succeeded, timed_out, Event, woken, raised,
  server_turn, agent_turn, ExampleState, server_start_signal, server_callbacks, agent_callbacks,
  turn_server, turn_agent, resume, woken_at, react, step_at, step, run, start, exit_code,
}
use bpftime_benchmark.Script.Example.Invariant.{
  IsWellFormed, start-IsWellFormed, example-IsWellFormed,
}
use bpftime_benchmark.Script.Example.Contract.{Moves, view}
use bpftime_benchmark.Script.Example.Simulation.{step_refines}
use bpftime_benchmark.Script.Example.Refinement.{run-decided}
use bpftime_benchmark.Script.Example.Verdict.{server_shows, shows, exit_code_sound}
use bpftime_benchmark.Script.Example.Progress.{closing, closing_ends, main_ends}
use bpftime_benchmark.Script.Example.Success.{text_succeeds}
use bpftime_benchmark.Script.Example.Faults.{agent_error_passes, wind_down_lem}

abbrev arguments : Args
arguments = record {
  executable = codes "opensnoop";
  victim = codes "victim";
  expected_str = codes "open";
  bpftime_cli = codes "bpftime";
  syscall_trace = codes "1";
}

abbrev reads : Text → Turn
reads s = record { read = line s; notified = false; at_eof = false }

abbrev last_turn : Turn
last_turn = record { read = pending; notified = true; at_eof = false }

-- The server starts, and then the agent prints the text together with an error.
abbrev up_to_text : List Event
up_to_text =
    woken
    ∷ server_turn (reads (codes "bpftime-syscall-server started"))
    ∷ woken
    ∷ woken
    ∷ woken
    ∷ []

abbrev waiting_state : ExampleState
waiting_state = record {
  place = body waiting_for_text;
  signals = record { start = true; final = false };
  should_exit = false;
  first = running;
  second = running;
  first_out = listening;
  second_out = listening;
}

reaches_waiting : run arguments up_to_text start ≡ waiting_state
unfolding run step step_at react woken_at resume turn_server take_turn monitor_round hear_read
    end_round server_callbacks server_start_signal ring contains skips_check starts_with
reaches_waiting = refl

abbrev error_line : Text
error_line = codes "[error] open"

abbrev whole : List Event
whole =
    up_to_text
    ++ (agent_turn (reads error_line)
        ∷ woken
        ∷ server_turn last_turn
        ∷ agent_turn last_turn
        ∷ woken
        ∷ [])

succeeds : (run arguments whole start).place ≡ ended succeeded
unfolding run step step_at react woken_at resume turn_server turn_agent take_turn monitor_round
    hear_read end_round server_callbacks agent_callbacks server_start_signal ring contains
    skips_check starts_with wind_down interrupt_first interrupt_second after_gather gather_tasks
succeeds = refl

status : exit_code succeeded ≡ 0
unfolding exit_code
status = refl

exit_code_sound_example :
    (any (server_shows server_start_signal) whole ≡ true)
    × ((skips_check arguments ≡ true) ⊎ (any (shows arguments.expected_str) whole ≡ true))
exit_code_sound_example = exit_code_sound arguments whole succeeded succeeds status

-- The text has been printed, and `main` is resumed.
abbrev heard : List Event
heard = up_to_text ++ (agent_turn (reads error_line) ∷ [])

step_refines_example :
    Moves arguments woken
      (view (run arguments heard start))
      (view (step arguments woken (run arguments heard start)))
step_refines_example = step_refines arguments heard woken

example-IsWellFormed_example : IsWellFormed arguments (run arguments whole start)
example-IsWellFormed_example = example-IsWellFormed arguments whole

main_ends_example :
    (r : Outcome) × ((run arguments
        (raised ∷ woken ∷ raised ∷ closing last_turn last_turn)
        start).place
      ≡ ended r)
main_ends_example =
    main_ends arguments last_turn last_turn refl refl start (start-IsWellFormed arguments)

-- The agent has printed the text, and `main` has gone on.
abbrev decided_run : List Event
decided_run = up_to_text ++ (agent_turn (reads (codes "open")) ∷ woken ∷ [])

is_decided : decided (run arguments decided_run start).place ≡ some succeeded
unfolding run step step_at react woken_at resume turn_server turn_agent take_turn monitor_round
    hear_read end_round server_callbacks agent_callbacks server_start_signal ring contains
    skips_check starts_with wind_down interrupt_first interrupt_second
is_decided = refl

run-decided_example :
    decided
      (run arguments (agent_turn (reads error_line) ∷ []) (run arguments decided_run start)).place
    ≡ some succeeded
run-decided_example =
    run-decided arguments decided_run (agent_turn (reads error_line) ∷ []) succeeded is_decided

-- The end with other events in it: the agent ends early, and says more.
abbrev busy_closing : List Event
busy_closing =
    agent_exit
    ∷ server_turn last_turn
    ∷ agent_turn (reads error_line)
    ∷ agent_turn last_turn
    ∷ woken
    ∷ server_exit
    ∷ agent_exit
    ∷ woken
    ∷ []

busy_lem : Within (closing last_turn last_turn) busy_closing
busy_lem = inr (inl (refl, inr (inl (refl, inl (refl, inl (refl, inl (refl, inl (refl, tt))))))))

closing_ends_example :
    (run arguments busy_closing (run arguments decided_run start)).place ≡ ended succeeded
closing_ends_example =
    closing_ends arguments last_turn last_turn refl refl succeeded (run arguments decided_run start)
      busy_closing (example-IsWellFormed arguments decided_run) is_decided busy_lem

error_in_line : contains error_line error_mark ≡ true
unfolding contains starts_with
error_in_line = refl

text_in_line : contains error_line arguments.expected_str ≡ true
unfolding contains starts_with
text_in_line = refl

agent_error_passes_example :
    let u = step arguments (agent_turn (reads error_line)) waiting_state in
    (u.second_out ≡ failed) × (decided (step arguments woken u).place ≡ some succeeded)
agent_error_passes_example =
    agent_error_passes arguments waiting_state (reads error_line) error_line refl refl refl
      error_in_line text_in_line

wind_down_lem_example :
    ((wind_down timed_out waiting_state).second ≡ interrupted)
    ↔ (is_unstarted running || is_gone running ≡ false)
wind_down_lem_example = wind_down_lem timed_out waiting_state refl

abbrev callbacks : Callbacks
callbacks = (final_signal, codes "open") ∷ []

abbrev turns : List Turn
turns = reads error_line ∷ reads (codes "open") ∷ []

follow_lem_example :
    let h = follow callbacks true turns (record { signals = unset; task = listening }) in
    (is_set final_signal h.signals
      ≡ is_set final_signal unset
        || any_rings final_signal callbacks (attended true listening turns))
    × (h.task ≡ final_task true listening turns)
follow_lem_example = follow_lem final_signal callbacks true turns unset listening

tool_IsWord : IsWord (codes "bpftime")
tool_IsWord = (cons-ne-nil _ _, (refl, (refl, (refl, (refl, (refl, (refl, (refl, tt))))))))

program_IsWord : IsWord (codes "opensnoop")
program_IsWord =
    (cons-ne-nil _ _, (refl, (refl, (refl, (refl, (refl, (refl, (refl, (refl, (refl, tt))))))))))

victim_IsWord : IsWord (codes "victim")
victim_IsWord = (cons-ne-nil _ _, (refl, (refl, (refl, (refl, (refl, (refl, tt)))))))

command_line_lem_example :
    command_line (codes "bpftime" ∷ codes "victim" ∷ []) ≡ codes "bpftime" ∷ codes "victim" ∷ []
command_line_lem_example =
    command_line_lem (codes "bpftime" ∷ codes "victim" ∷ []) (tool_IsWord, (victim_IsWord, tt))

commands_lem_example :
    (server_command arguments ≡ codes "bpftime" ∷ codes "load" ∷ codes "opensnoop" ∷ [])
    × (agent_command arguments ≡ (
        if text_eq (codes "1") (codes "1")
        then codes "bpftime" ∷ codes "start" ∷ codes "-s" ∷ codes "victim" ∷ []
        else codes "bpftime" ∷ codes "start" ∷ codes "victim" ∷ []))
commands_lem_example = commands_lem arguments tool_IsWord program_IsWord victim_IsWord

waiting_place : (run arguments up_to_text start).place ≡ body waiting_for_text
waiting_place = ap (λ (u : ExampleState). u.place) reaches_waiting

followed : (run arguments up_to_text start).second_out ≡ listening
followed = ap (λ (u : ExampleState). u.second_out) reaches_waiting

text_succeeds_example :
    ((run arguments
        ((server_turn (reads (codes "[info]")) ∷ []) ++ woken ∷ busy_closing)
        (step arguments (agent_turn (reads error_line)) (run arguments up_to_text start))).place
      ≡ ended succeeded)
    × (exit_code succeeded ≡ 0)
text_succeeds_example =
    text_succeeds arguments up_to_text (reads error_line) last_turn last_turn
      (server_turn (reads (codes "[info]")) ∷ []) busy_closing waiting_place followed text_in_line
      refl refl refl busy_lem
