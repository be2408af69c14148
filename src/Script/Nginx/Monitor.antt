-- ===== src/Script/Nginx/Monitor.antt =====
-- `handle_stdout` of .github/script/run_nginx_attach_example.py, with what it prints.
use bpftime_benchmark.Prelude.{
  ◌≡◌, refl, ap, ◌∙◌, ◌&&◌, Bool, true, List, [], ◌∷◌, ◌++◌, if◌then◌else◌, append_assoc,
  append-nil, Bool-cases, inl, inr,
}
use bpftime_benchmark.Text.Base.{Text, codes, contains}
use bpftime_benchmark.Script.Process.{
  Task, absent, listening, finished, failed, Signals, set_signal,
}
use bpftime_benchmark.Script.Monitor.{
  Read, pending, line, unreadable, Turn, Callbacks, ring, error_mark, end_round, hear_read,
  monitor_round, take_turn, follow,
}
use bpftime_benchmark.Script.Monitor.Laws.{
  task_after, attended, is_over, follow-over, hear_read-task,
}

-- What has been printed, with the events and the task.
pub record Said : Type 0 where
  pub printed : Text
  pub signals : Signals
  pub task : Task

abbrev pub triggered : Text
triggered = codes "Callback triggered" ++ (10 ∷ [])

abbrev pub say : Text → Said → Said
say s x = record x { printed = x.printed ++ s }

unfoldable pub ring_aloud : Text → Callbacks → Said → Said
ring_aloud s [] x = x
ring_aloud s ((evt, sig) ∷ callbacks) x = ring_aloud s callbacks (
    if contains s sig
    then record x { signals = set_signal evt x.signals; printed = x.printed ++ triggered }
    else x)

unfoldable pub end_aloud : Turn → Said → Said
end_aloud t x = record x {
  task = if t.notified then finished else if t.at_eof then finished else listening;
}

module _ (title : Text) (callbacks : Callbacks) (check_error : Bool) where
  unfoldable pub hear_aloud : Turn → Said → Read → Said
  unfolding ring_aloud end_aloud
  hear_aloud t x pending = end_aloud t x
  hear_aloud t x unreadable = record x { task = failed }
  hear_aloud t x (line s) =
      let heard = ring_aloud s callbacks (say (title ++ (codes ": " ++ s)) x) in
      if check_error && contains s error_mark
      then record heard { task = failed }
      else end_aloud t heard

  unfoldable pub turn_aloud : Turn → Said → Task → Said
  unfolding hear_aloud
  turn_aloud t x listening = hear_aloud t x t.read
  turn_aloud t x k = x

  unfoldable pub follow_aloud : List Turn → Said → Said
  unfolding turn_aloud
  follow_aloud [] x = x
  follow_aloud (t ∷ ts) x = follow_aloud ts (turn_aloud t x x.task)

  unfoldable pub handle_stdout : List Turn → Signals → Said
  unfolding follow_aloud
  handle_stdout ts g = follow_aloud ts (record {
    printed = codes "Monitoring output of " ++ (title ++ (10 ∷ []));
    signals = g;
    task = listening;
  })

-- What a line makes the callbacks print.
abbrev pub rung_text : Text → Callbacks → Text
rung_text s [] = []
rung_text s ((evt, sig) ∷ callbacks) =
    (if contains s sig then triggered else []) ++ rung_text s callbacks

abbrev pub read_text : Text → Callbacks → Read → Text
read_text title callbacks (line s) = (title ++ (codes ": " ++ s)) ++ rung_text s callbacks
read_text title callbacks r = []

-- What the turns print.
abbrev pub transcript : Text → Callbacks → List Turn → Text
transcript title callbacks [] = []
transcript title callbacks (t ∷ ts) =
    read_text title callbacks t.read ++ transcript title callbacks ts

abbrev said : Text → Signals → Task → Said
said p g k = record { printed = p; signals = g; task = k }

ring_aloud_lem :
    (s : Text) (callbacks : Callbacks) (x : Said)
    → ring_aloud s callbacks x
      ≡ said (x.printed ++ rung_text s callbacks) (ring s callbacks x.signals) x.task
unfolding ring_aloud ring
ring_aloud_lem s [] x = rw (append-nil x.printed) refl
ring_aloud_lem s ((evt, sig) ∷ callbacks) x = elim (Bool-cases (contains s sig)) [
  | inr absent_here ↦ rw absent_here (ring_aloud_lem s callbacks x)
  | inl here ↦
      let g = set_signal evt x.signals in
      rw here (
        ring_aloud_lem s callbacks (said (x.printed ++ triggered) g x.task)
        ∙ ap (λ p. said p (ring s callbacks g) x.task)
            (append_assoc x.printed triggered (rung_text s callbacks)))
]

-- What a round prints, and that it does what the round of the other script does.
hear_aloud_lem :
    (title : Text) (callbacks : Callbacks) (check_error : Bool) (t : Turn) (x : Said) (r : Read)
    → let h = hear_read callbacks check_error t x.signals r in
      hear_aloud title callbacks check_error t x r
      ≡ said (x.printed ++ read_text title callbacks r) h.signals h.task
unfolding hear_aloud end_aloud hear_read end_round
hear_aloud_lem title callbacks check_error t x pending = rw (append-nil x.printed) refl
hear_aloud_lem title callbacks check_error t x unreadable = rw (append-nil x.printed) refl
hear_aloud_lem title callbacks check_error t x (line s) =
    let head = title ++ (codes ": " ++ s) in
    let rung = ring_aloud_lem s callbacks (say head x) in
    let joined = append_assoc x.printed head (rung_text s callbacks) in
    elim (Bool-cases (check_error && contains s error_mark)) [
      | inl seen ↦ rw (seen, rung, joined) refl
      | inr clean ↦ rw (clean, rung, joined) refl
    ]

attended-over :
    (check_error : Bool) (ts : List Turn) (k : Task)
    → is_over k ≡ true
    → attended check_error k ts ≡ []
attended-over check_error [] k h = refl
attended-over check_error (t ∷ ts) absent h = refl
attended-over check_error (t ∷ ts) listening h = cc
attended-over check_error (t ∷ ts) finished h = refl
attended-over check_error (t ∷ ts) failed h = refl

module _ (title : Text) (callbacks : Callbacks) (check_error : Bool) where
  -- A loop that is over prints nothing more.
  follow_aloud-over :
      (ts : List Turn) (p : Text) (g : Signals) (k : Task)
      → is_over k ≡ true
      → let h = follow callbacks check_error ts (record { signals = g; task = k }) in
        follow_aloud title callbacks check_error ts (said p g k)
        ≡ said (p ++ transcript title callbacks (attended check_error k ts)) h.signals h.task
  unfolding follow_aloud turn_aloud
  follow_aloud-over ts p g k h =
      rw
        (follow-over callbacks check_error ts g k h, attended-over check_error ts k h, append-nil p)
        (go ts k h)
    where
      go :
          (ts : List Turn) (k : Task)
          → is_over k ≡ true
          → follow_aloud title callbacks check_error ts (said p g k) ≡ said p g k
      go [] k h = refl
      go (t ∷ ts) absent h = go ts absent h
      go (t ∷ ts) listening h = cc
      go (t ∷ ts) finished h = go ts finished h
      go (t ∷ ts) failed h = go ts failed h

  follow_aloud_lem :
      (ts : List Turn) (p : Text) (g : Signals) (k : Task)
      → let h = follow callbacks check_error ts (record { signals = g; task = k }) in
        follow_aloud title callbacks check_error ts (said p g k)
        ≡ said (p ++ transcript title callbacks (attended check_error k ts)) h.signals h.task
  unfolding follow_aloud follow turn_aloud take_turn monitor_round
  follow_aloud_lem [] p g k = rw (append-nil p) refl
  follow_aloud_lem (t ∷ ts) p g absent = follow_aloud-over (t ∷ ts) p g absent refl
  follow_aloud_lem (t ∷ ts) p g finished = follow_aloud-over (t ∷ ts) p g finished refl
  follow_aloud_lem (t ∷ ts) p g failed = follow_aloud-over (t ∷ ts) p g failed refl
  follow_aloud_lem (t ∷ ts) p g listening =
      let x = said p g listening in
      let h = hear_read callbacks check_error t g t.read in
      let spoken = read_text title callbacks t.read in
      let same = hear_read-task callbacks check_error t g t.read in
      let rest = attended check_error (task_after check_error t t.read) ts in
      let k = follow callbacks check_error ts h in
      ap (follow_aloud title callbacks check_error ts)
        (hear_aloud_lem title callbacks check_error t x t.read)
      ∙ follow_aloud_lem ts (p ++ spoken) h.signals h.task
      ∙ ap
          (λ task.
            said ((p ++ spoken) ++ transcript title callbacks (attended check_error task ts))
              k.signals k.task)
          same
      ∙ ap (λ q. said q k.signals k.task) (append_assoc p spoken (transcript title callbacks rest))

  -- The monitor of the nginx script prints the title, and then the lines of the turns up to the one
  -- that ends it, each with a line for every callback that it rings; the events that it sets, and what
  -- becomes of it, are those of the monitor of the other script.
  pub handle_stdout_lem :
      (ts : List Turn) (g : Signals)
      → let x = handle_stdout title callbacks check_error ts g in
        let h = follow callbacks check_error ts (record { signals = g; task = listening }) in
        (x.printed
          ≡ (codes "Monitoring output of " ++ (title ++ (10 ∷ [])))
            ++ transcript title callbacks (attended check_error listening ts))
        × (x.signals ≡ h.signals)
        × (x.task ≡ h.task)
  unfolding handle_stdout
  handle_stdout_lem ts g =
      let e =
        follow_aloud_lem ts (codes "Monitoring output of " ++ (title ++ (10 ∷ []))) g listening in
      (ap (λ (x : Said). x.printed) e, ap (λ (x : Said). x.signals) e, ap (λ (x : Said). x.task) e)
