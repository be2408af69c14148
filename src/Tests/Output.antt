-- ===== src/Tests/Output.antt =====
-- Output that the monitors and the parser of the victim read.
use bpftime_benchmark.Prelude.{ℕ, ◌≡◌, refl, true, false, none, some, List, [], ◌∷◌, ◌++◌, All, ◌⊎◌}
use bpftime_benchmark.Text.Base.{codes, contains, starts_with, text_eq}
use bpftime_benchmark.Text.Lines.{splitlines, strip, words}
use bpftime_benchmark.Text.Scan.{Decimal, decimal}
use bpftime_benchmark.Script.Monitor.{line}
use bpftime_benchmark.Monitors.{Wake, silence, continued, uprobe_round, mpk_round, listen}
use bpftime_benchmark.Monitors.Laws.{
  heard, ended, SomeBrings, mpk_never_stops, uprobe_stops, uprobe_called,
}
use bpftime_benchmark.Victim.{Dict, benchmarking, parse_victim_output, collect_runs}
use bpftime_benchmark.Victim.Laws.{ReadFrom, keys, parse_victim_output_sound, collect_runs-keys}
use bpftime_benchmark.Tests.Stage.{decimals, reported}

abbrev finished : Wake
finished = record { read = line []; notified = true; at_eof = true }

abbrev started : Wake
started = record { read = line (codes "server started"); notified = false; at_eof = false }

mpk_never_stops_example :
    listen (mpk_round (codes "S") true none) (finished ∷ finished ∷ []) silence ≡ continued silence
mpk_never_stops_example =
    mpk_never_stops (codes "S") true none (finished ∷ finished ∷ []) silence
      ((refl, refl), ((refl, refl), tt))

uprobe_stops_example :
    listen (uprobe_round (codes "S") true none) ((started ∷ []) ++ finished ∷ started ∷ []) silence
    ≡ ended (listen (uprobe_round (codes "S") true none) (started ∷ []) silence)
uprobe_stops_example =
    uprobe_stops (codes "S") true none (started ∷ []) finished (started ∷ []) silence (refl, refl)

rings :
    (heard (
      listen
        (uprobe_round (codes "S") true (some (codes "started")))
        (started ∷ [])
        silence)).called
    ≡ true
unfolding listen uprobe_round contains
rings = refl

uprobe_called_example : (silence.called ≡ true) ⊎ SomeBrings (codes "started") (started ∷ [])
uprobe_called_example =
    uprobe_called (codes "S") true (codes "started") (started ∷ []) silence rings

abbrev output : List ℕ
output = codes "Benchmarking probe x\nAverage time usage 12.50 ns"

abbrev times : Dict Decimal
times = (codes "probe", reported) ∷ []

parses_output : parse_victim_output decimals output ≡ some times
unfolding parse_victim_output splitlines strip words starts_with benchmarking decimal
parses_output = refl

parse_victim_output_sound_example : All (ReadFrom decimals (splitlines (strip output))) times
parse_victim_output_sound_example = parse_victim_output_sound decimals output times parses_output

abbrev collected : Dict (List Decimal)
collected = (codes "probe", reported ∷ reported ∷ []) ∷ []

collects : collect_runs decimals (times ∷ times ∷ []) ≡ some (some collected)
unfolding collect_runs text_eq
collects = refl

collect_runs-keys_example : keys collected ≡ keys times
collect_runs-keys_example = collect_runs-keys decimals times (times ∷ []) collected collects
