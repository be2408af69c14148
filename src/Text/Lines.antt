-- ===== src/Text/Lines.antt =====
-- `str.splitlines`, `str.strip`, `str.split` and `len(s.encode(errors="replace"))`.
use bpftime_benchmark.Prelude.{
  ℕ, ◌+◌, Bool, false, List, [], ◌∷◌, ◌++◌, ◌&&◌, ◌||◌, ltb, leb, ◌==◌, if◌then◌else◌,
}
use bpftime_benchmark.Text.Base.{Text, is_space}

-- The line boundaries of `str.splitlines`.
abbrev pub is_line_break : ℕ → Bool
is_line_break c =
    (leb 10 c && leb c 13) || (leb 28 c && leb c 30) || c == 133 || c == 8232 || c == 8233

abbrev pub cons_head : ℕ → List Text → List Text
cons_head c [] = (c ∷ []) ∷ []
cons_head c (l ∷ ls) = (c ∷ l) ∷ ls

-- The flag says that the character before was a carriage return, which a line feed belongs to.
unfoldable pub lines_after : Bool → Text → List Text
lines_after after_return [] = []
lines_after after_return (c ∷ s) =
    let rest = lines_after (c == 13) s in
    if after_return && c == 10
    then rest
    else if is_line_break c
    then [] ∷ rest
    else cons_head c rest

unfoldable pub splitlines : Text → List Text
unfolding lines_after
splitlines = lines_after false

unfoldable pub lstrip : Text → Text
lstrip [] = []
lstrip (c ∷ s) = let rest = lstrip s in if is_space c then rest else c ∷ s

unfoldable pub rstrip : Text → Text
rstrip [] = []
rstrip (c ∷ s) = elim (rstrip s) [ [] ↦ if is_space c then [] else c ∷ [] | d ∷ r ↦ c ∷ d ∷ r ]

unfoldable pub strip : Text → Text
unfolding lstrip rstrip
strip s = rstrip (lstrip s)

-- `s.split()`: the runs of characters that are no white space; `word` is the run so far.

unfoldable pub words_from : Text → Text → List Text
words_from [] [] = []
words_from (d ∷ word) [] = (d ∷ word) ∷ []
words_from [] (c ∷ s) = words_from (if is_space c then [] else c ∷ []) s
words_from (d ∷ word) (c ∷ s) =
    let ended = words_from [] s in
    let going = words_from ((d ∷ word) ++ (c ∷ [])) s in
    if is_space c then (d ∷ word) ∷ ended else going

unfoldable pub words : Text → List Text
unfolding words_from
words = words_from []

-- `s.split(sep)` for a separator of one character.
unfoldable pub split : ℕ → Text → List Text
split sep [] = [] ∷ []
split sep (c ∷ s) = let rest = split sep s in if c == sep then [] ∷ rest else cons_head c rest

-- The bytes that a code point takes in UTF-8; a lone surrogate becomes a question mark.
abbrev pub encoded_width : ℕ → ℕ
encoded_width c =
    if ltb c 128
    then 1
    else if ltb c 2048
    then 2
    else if leb 55296 c && leb c 57343
    then 1
    else if ltb c 65536
    then 3
    else 4

unfoldable pub encoded_length : Text → ℕ
encoded_length [] = 0
encoded_length (c ∷ s) = encoded_width c + encoded_length s
