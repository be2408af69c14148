-- ===== src/Monitors.antt =====
-- `handle_stdout`, the coroutine that reads the output of a process until it is told to stop, in
-- the variants of benchmark/uprobe/benchmark.py and benchmark/mpk/benchmark.py.
pub mod Laws
use bpftime_benchmark.Prelude.{
  ◌||◌, ◌&&◌, Bool, true, false, Option, none, some, List, [], ◌∷◌, ◌++◌, if◌then◌else◌,
}
use bpftime_benchmark.Text.Base.{Text, codes, contains}
use bpftime_benchmark.Text.Lines.{strip}
use bpftime_benchmark.Script.Monitor.{Read, pending, line, unreadable}

-- What `asyncio.wait` comes back with in one round: what the read has come to, whose line is empty at
-- the end of the output, whether the notification is done, and what `stdout.at_eof()` says then.
pub record Wake : Type 0 where
  pub read : Read
  pub notified : Bool
  pub at_eof : Bool

-- `output_lines`, and whether the callback's event is set.
pub record Heard : Type 0 where
  pub lines : List Text
  pub called : Bool

-- `failed` is the exception of a read or of its decoding, which ends the coroutine.
pub data Step : Type 0 where
  continued stopped failed : Heard → Step

abbrev pub silence : Heard
silence = record { lines = []; called = false }

-- `f"{title}: {s.strip()}"`, if the output is logged, and the callback if its signal is in the line.
unfoldable pub hear : Text → Bool → Option Text → Text → Heard → Heard
hear title log_output callback s h = record {
  lines = if log_output then h.lines ++ (title ++ (codes ": " ++ strip s)) ∷ [] else h.lines;
  called = h.called || elim callback [ none ↦ false | some sig ↦ contains s sig ];
}

-- The two tests at the end of a round.
unfoldable pub finish_round : Wake → Heard → Step
finish_round w h = if w.notified || w.at_eof then stopped h else continued h

module _ (title : Text) (log_output : Bool) (callback : Option Text) where
  -- A round in uprobe: an empty line ends the loop.
  unfoldable pub uprobe_line : Wake → Heard → Read → Step
  unfolding hear finish_round
  uprobe_line w h pending = finish_round w h
  uprobe_line w h unreadable = failed h
  uprobe_line w h (line []) = stopped h
  uprobe_line w h (line (c ∷ s)) = finish_round w (hear title log_output callback (c ∷ s) h)

  unfoldable pub uprobe_round : Wake → Heard → Step
  unfolding uprobe_line
  uprobe_round w h = uprobe_line w h w.read

  -- A round in mpk: an empty line begins the next round at once.
  unfoldable pub mpk_line : Wake → Heard → Read → Step
  unfolding hear finish_round
  mpk_line w h pending = finish_round w h
  mpk_line w h unreadable = failed h
  mpk_line w h (line []) = continued h
  mpk_line w h (line (c ∷ s)) = finish_round w (hear title log_output callback (c ∷ s) h)

  unfoldable pub mpk_round : Wake → Heard → Step
  unfolding mpk_line
  mpk_round w h = mpk_line w h w.read

-- The loop over the rounds that there are; `continued` says that it still waits.
unfoldable pub listen : (Wake → Heard → Step) → List Wake → Heard → Step
listen round [] h = continued h
listen round (w ∷ ws) h = elim (round w h) [
  | stopped k ↦ stopped k
  | failed k ↦ failed k
  | continued k ↦ listen round ws k
]
