-- ===== src/Script/Monitor/Laws.antt =====
-- A description of what a monitor does with the whole output: it attends to the turns up to the one
-- that ends it, and an event is set if one of those lines rings it.
use bpftime_benchmark.Prelude.{
  ◌≡◌, refl, ◌∙◌, ap, ◌||◌, ◌&&◌, Bool, true, false, List, [], ◌∷◌, if◌then◌else◌, Bool-cases, inl,
  inr, arith,
}
use bpftime_benchmark.Text.Base.{Text, contains}
use bpftime_benchmark.Script.Process.{
  Task, absent, listening, finished, failed, Signal, start_signal, final_signal, Signals,
  set_signal,
}
use bpftime_benchmark.Script.Monitor.{
  Read, pending, line, unreadable, Turn, Callbacks, ring, error_mark, end_round, hear_read,
  monitor_round, take_turn, follow,
}

abbrev pub is_set : Signal → Signals → Bool
is_set start_signal g = g.start
is_set final_signal g = g.final

abbrev pub same_signal : Signal → Signal → Bool
same_signal start_signal start_signal = true
same_signal final_signal final_signal = true
same_signal d e = false

-- Some callback of the event has its text in the line.
abbrev pub line_rings : Signal → Text → Callbacks → Bool
line_rings e s [] = false
line_rings e s ((evt, sig) ∷ callbacks) =
    (same_signal e evt && contains s sig) || line_rings e s callbacks

abbrev pub read_rings : Signal → Callbacks → Read → Bool
read_rings e callbacks (line s) = line_rings e s callbacks
read_rings e callbacks r = false

abbrev pub any_rings : Signal → Callbacks → List Turn → Bool
any_rings e callbacks [] = false
any_rings e callbacks (t ∷ ts) = read_rings e callbacks t.read || any_rings e callbacks ts

-- A read brings a line with the text.
abbrev pub read_shows : Text → Read → Bool
read_shows sig (line s) = contains s sig
read_shows sig r = false

-- What a turn makes of a task that is under way.
abbrev pub task_after : Bool → Turn → Read → Task
task_after check_error t unreadable = failed
task_after check_error t pending = if t.notified || t.at_eof then finished else listening
task_after check_error t (line s) =
    if check_error && contains s error_mark
    then failed
    else if t.notified || t.at_eof
    then finished
    else listening

-- The turns that a task takes of those that come, and what becomes of it.
abbrev pub attended : Bool → Task → List Turn → List Turn
attended check_error k [] = []
attended check_error listening (t ∷ ts) =
    t ∷ attended check_error (task_after check_error t t.read) ts
attended check_error k (t ∷ ts) = []

abbrev pub final_task : Bool → Task → List Turn → Task
final_task check_error k [] = k
final_task check_error listening (t ∷ ts) =
    final_task check_error (task_after check_error t t.read) ts
final_task check_error k (t ∷ ts) = k

is_set-set_signal :
    (e d : Signal) (b : Bool) (g : Signals)
    → is_set e (if b then set_signal d g else g) ≡ is_set e g || (same_signal e d && b)
is_set-set_signal start_signal start_signal b g = ground arith
is_set-set_signal start_signal final_signal b g = ground arith
is_set-set_signal final_signal start_signal b g = ground arith
is_set-set_signal final_signal final_signal b g = ground arith

pub ring_lem :
    (e : Signal) (s : Text) (callbacks : Callbacks) (g : Signals)
    → is_set e (ring s callbacks g) ≡ is_set e g || line_rings e s callbacks
unfolding ring
ring_lem e s [] g = ground arith
ring_lem e s ((evt, sig) ∷ callbacks) g = ground (
  arith,
  ring_lem e s callbacks (if contains s sig then set_signal evt g else g),
  is_set-set_signal e evt (contains s sig) g,
)

pub hear_read-is_set :
    (e : Signal) (callbacks : Callbacks) (check_error : Bool) (t : Turn) (g : Signals) (r : Read)
    → is_set e (hear_read callbacks check_error t g r).signals
      ≡ is_set e g || read_rings e callbacks r
unfolding hear_read end_round
hear_read-is_set e callbacks check_error t g pending = ground arith
hear_read-is_set e callbacks check_error t g unreadable = ground arith
hear_read-is_set e callbacks check_error t g (line s) =
    elim (Bool-cases (check_error && contains s error_mark)) [
      | inl seen ↦ rw seen (ring_lem e s callbacks g)
      | inr clean ↦ rw clean (ring_lem e s callbacks g)
    ]

pub hear_read-task :
    (callbacks : Callbacks) (check_error : Bool) (t : Turn) (g : Signals) (r : Read)
    → (hear_read callbacks check_error t g r).task ≡ task_after check_error t r
unfolding hear_read end_round
hear_read-task callbacks check_error t g pending = ground arith
hear_read-task callbacks check_error t g unreadable = refl
hear_read-task callbacks check_error t g (line s) = ground arith

abbrev pub is_over : Task → Bool
is_over listening = false
is_over k = true

pub follow-over :
    (callbacks : Callbacks) (check_error : Bool) (ts : List Turn) (g : Signals) (k : Task)
    → is_over k ≡ true
    → follow callbacks check_error ts (record { signals = g; task = k })
      ≡ record { signals = g; task = k }
unfolding follow take_turn
follow-over callbacks check_error [] g k h = refl
follow-over callbacks check_error (t ∷ ts) g absent h =
    follow-over callbacks check_error ts g absent h
follow-over callbacks check_error (t ∷ ts) g listening h = cc
follow-over callbacks check_error (t ∷ ts) g finished h =
    follow-over callbacks check_error ts g finished h
follow-over callbacks check_error (t ∷ ts) g failed h =
    follow-over callbacks check_error ts g failed h

-- A monitor sets an event just where it was set before or one of the lines up to the end of the task
-- rings it, and the task ends with the first turn that is its last.
pub follow_lem :
    (e : Signal) (callbacks : Callbacks) (check_error : Bool) (ts : List Turn) (g : Signals)
    (k : Task)
    → let h = follow callbacks check_error ts (record { signals = g; task = k }) in
      (is_set e h.signals ≡ is_set e g || any_rings e callbacks (attended check_error k ts))
      × (h.task ≡ final_task check_error k ts)
unfolding follow take_turn monitor_round
follow_lem e callbacks check_error [] g k = (ground arith, refl)
follow_lem e callbacks check_error (t ∷ ts) g absent =
    rw (follow-over callbacks check_error ts g absent refl) (ground arith, refl)
follow_lem e callbacks check_error (t ∷ ts) g finished =
    rw (follow-over callbacks check_error ts g finished refl) (ground arith, refl)
follow_lem e callbacks check_error (t ∷ ts) g failed =
    rw (follow-over callbacks check_error ts g failed refl) (ground arith, refl)
follow_lem e callbacks check_error (t ∷ ts) g listening =
    let h = hear_read callbacks check_error t g t.read in
    let (heard, task) = follow_lem e callbacks check_error ts h.signals h.task in
    let same = hear_read-task callbacks check_error t g t.read in
    let rung = hear_read-is_set e callbacks check_error t g t.read in
    (heard ∙ rw (rung, same) (ground arith), task ∙ ap (λ u. final_task check_error u ts) same)
