-- ===== src/Victim.antt =====
-- benchmark/uprobe/benchmark.py: the times that the victim prints, collected over the runs.
pub mod Laws
use bpftime_benchmark.Prelude.{
  ◌==◌, Bool, true, false, Option, none, some, List, [], ◌∷◌, ◌++◌, map, if◌then◌else◌,
}
use bpftime_benchmark.Text.Base.{Text, codes, text_eq, starts_with}
use bpftime_benchmark.Text.Lines.{strip, splitlines, words}
use bpftime_benchmark.Text.Scan.{bind}
use bpftime_benchmark.Python.Floats.{Floats}

-- A dict, in the order of insertion.
abbrev pub Dict {ℓ} : Type ℓ → Type ℓ
Dict V = List (Text × V)

module _ {ℓ} {V : Type ℓ} where
  -- `d[k] = v`.
  unfoldable pub insert : Text → V → Dict V → Dict V
  insert k v [] = (k, v) ∷ []
  insert k v ((k', v') ∷ d) =
      let rest = insert k v d in if text_eq k k' then (k', v) ∷ d else (k', v') ∷ rest

  -- `xs[i]` for a small `i`.
  abbrev pub second : List V → Option V
  second (x ∷ y ∷ xs) = some y
  second xs = none

  abbrev pub fourth : List V → Option V
  fourth (x ∷ y ∷ z ∷ u ∷ xs) = some u
  fourth xs = none

unfoldable pub benchmarking : Text
benchmarking = codes "Benchmarking"

module _ (F : Floats) where
  -- The name in one line and the time in the next; `none` stands for an `IndexError` or a
  -- `ValueError`.
  unfoldable pub entry : Text → Text → Option (Text × F.Float)
  entry curr_line next_line =
      bind (second (words curr_line))
        (λ name. bind (bind (fourth (words next_line)) F.of_text) (λ time. some (name, time)))

  unfoldable pub parse_lines : List Text → Dict F.Float → Option (Dict F.Float)
  unfolding entry insert
  parse_lines [] result = some result
  parse_lines (l ∷ []) result = if starts_with l benchmarking then none else some result
  parse_lines (l ∷ m ∷ ls) result =
      let skipped = parse_lines (m ∷ ls) result in
      let taken = bind (entry l m) (λ (k, v). parse_lines ls (insert k v result)) in
      if starts_with l benchmarking then taken else skipped

  unfoldable pub parse_victim_output : Text → Option (Dict F.Float)
  unfolding parse_lines
  parse_victim_output v = parse_lines (splitlines (strip v)) []

  -- `result[k].append(v)`, which raises for an unknown key.
  unfoldable pub append_time : Text → F.Float → Dict (List F.Float) → Option (Dict (List F.Float))
  append_time k v [] = none
  append_time k v ((k', vs) ∷ d) =
      let rest = append_time k v d in
      if text_eq k k' then some ((k', vs ++ v ∷ []) ∷ d) else bind rest (λ r. some ((k', vs) ∷ r))

  unfoldable pub append_times : Dict F.Float → Dict (List F.Float) → Option (Dict (List F.Float))
  unfolding append_time
  append_times [] result = some result
  append_times ((k, v) ∷ curr) result = bind (append_time k v result) (λ r. append_times curr r)

  -- The first run makes the dict of lists, and the others append to it.
  unfoldable pub append_runs :
      List (Dict F.Float) → Dict (List F.Float) → Option (Dict (List F.Float))
  unfolding append_times
  append_runs [] result = some result
  append_runs (curr ∷ runs) result = bind (append_times curr result) (λ r. append_runs runs r)

  unfoldable pub singletons : Dict F.Float → Dict (List F.Float)
  singletons [] = []
  singletons ((k, v) ∷ d) = (k, v ∷ []) ∷ singletons d

  -- `none` inside stands for the `result` that no run has set.
  unfoldable pub collect_runs : List (Dict F.Float) → Option (Option (Dict (List F.Float)))
  unfolding append_runs singletons
  collect_runs [] = some none
  collect_runs (curr ∷ runs) = bind (append_runs runs (singletons curr)) (λ r. some (some r))
