-- ===== src/Text/Paths.antt =====
-- `os.path.dirname` and `os.path.basename`.
use bpftime_benchmark.Prelude.{Bool, true, false, ◌&&◌, ◌||◌, [], ◌∷◌, ◌==◌, if◌then◌else◌}
use bpftime_benchmark.Text.Base.{Text}

-- Up to the last slash, with it.
unfoldable pub up_to_slash : Text → Text
up_to_slash [] = []
up_to_slash (c ∷ s) = elim (up_to_slash s) [
  | [] ↦ if c == b'/' then c ∷ [] else []
  | d ∷ t ↦ c ∷ d ∷ t
]

unfoldable pub all_slashes : Text → Bool
all_slashes [] = true
all_slashes (c ∷ s) = c == b'/' && all_slashes s

unfoldable pub strip_slashes : Text → Text
strip_slashes [] = []
strip_slashes (c ∷ s) = elim (strip_slashes s) [
  | [] ↦ if c == b'/' then [] else c ∷ []
  | d ∷ t ↦ c ∷ d ∷ t
]

unfoldable pub dirname : Text → Text
unfolding up_to_slash all_slashes strip_slashes
dirname p = let head = up_to_slash p in if all_slashes head then head else strip_slashes head

abbrev pub has_slash : Text → Bool
has_slash [] = false
has_slash (c ∷ s) = c == b'/' || has_slash s

-- Behind the last slash.
unfoldable pub basename : Text → Text
basename [] = []
basename (c ∷ s) = let rest = basename s in if c == b'/' || has_slash s then rest else c ∷ s
