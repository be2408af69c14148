-- ===== src/Perf.antt =====
-- benchmark/ssl-nginx/perf_stat_sslsniff.py: the sizes asked for, the page of a size, and the table
-- that perf prints.
pub mod Laws
use bpftime_benchmark.Prelude.{
  ℕ, zero, suc, ◌+◌, ◌-◌, ◌*◌, ◌==◌, ◌||◌, Bool, true, false, Option, none, some, List, [], ◌∷◌,
  ◌++◌, map, keep, length, if◌then◌else◌,
}
use bpftime_benchmark.Text.Base.{Text, codes, text_eq, starts_with}
use bpftime_benchmark.Text.Lines.{strip, split, splitlines}
use bpftime_benchmark.Python.Floats.{Floats}
use bpftime_benchmark.SslNginx.Trace.{nonempty}
use bpftime_benchmark.Victim.{Dict, insert}

unfoldable pub lookup {ℓ} : {V : Type ℓ} → Text → Dict V → Option V
lookup k [] = none
lookup k ((k', v) ∷ d) = let rest = lookup k d in if text_eq k k' then some v else rest

-- The names in the variable SSL_NGINX_SIZES.
unfoldable pub size_names : Text → List Text
unfolding keep
size_names raw = keep nonempty (map strip (split b',' raw))

abbrev pub page_sizes : Dict ℕ
page_sizes =
    (codes "16b", 16)
    ∷ (codes "1kb", 1024)
    ∷ (codes "2kb", 2048)
    ∷ (codes "4kb", 4096)
    ∷ (codes "16kb", 16384)
    ∷ (codes "32kb", 32768)
    ∷ (codes "64kb", 65536)
    ∷ (codes "128kb", 131072)
    ∷ (codes "256kb", 262144)
    ∷ (codes "384kb", 393216)
    ∷ (codes "512kb", 524288)
    ∷ (codes "640kb", 655360)
    ∷ (codes "768kb", 786432)
    ∷ (codes "896kb", 917504)
    ∷ (codes "1024kb", 1048576)
    ∷ []

abbrev pub with_size : Text → Option ℕ → Option (Dict ℕ) → Option (Dict ℕ)
with_size name none rest = none
with_size name (some n) none = none
with_size name (some n) (some rest) = some ((name, n) ∷ rest)

-- Each name with its size; `none` is the `SystemExit` for an unknown one.
unfoldable pub sizes_of : Dict ℕ → List Text → Option (Dict ℕ)
unfolding lookup
sizes_of sizes [] = some []
sizes_of sizes (name ∷ names) = with_size name (lookup name sizes) (sizes_of sizes names)

unfoldable pub requested_sizes : Dict ℕ → Text → Option (Dict ℕ)
unfolding size_names sizes_of
requested_sizes sizes raw = sizes_of sizes (size_names raw)

-- `c * n`.
unfoldable pub times : ℕ → ℕ → Text
times c zero = []
times c (suc n) = c ∷ times c n

unfoldable pub html_start : Text
html_start = codes "<html>"

unfoldable pub html_end : Text
html_end = codes "</html>"

-- What `generate_test_file` writes; the difference stops at 0, as the source has it.
unfoldable pub page : ℕ → Text
unfolding times html_start html_end
page size_bytes =
    let content_size = (size_bytes - length html_start) - length html_end in
    html_start ++ (times b'X' content_size ++ html_end)

-- A value of `counters`.
pub record Counter (F : Floats) : Type 0 where
  pub value : Option F.Float
  pub raw : Text

unfoldable pub without_commas : Text → Text
without_commas [] = []
without_commas (c ∷ s) = let rest = without_commas s in if c == b',' then rest else c ∷ rest

module _ (F : Floats) where
  -- The fields of a line. One without an event is skipped.
  unfoldable pub add_counter : List Text → Dict (Counter F) → Dict (Counter F)
  unfolding insert without_commas
  add_counter (first ∷ second ∷ third ∷ fields) counters =
      let event = strip third in
      let raw = strip first in
      let added =
        insert event (record { value = F.of_text (without_commas raw); raw = raw }) counters in
      if nonempty event then added else counters
  add_counter fields counters = counters

  unfoldable pub add_line : Text → Dict (Counter F) → Dict (Counter F)
  unfolding add_counter
  add_line line counters =
      if text_eq line [] || starts_with line (codes "#")
      then counters
      else add_counter (split b',' line) counters

  unfoldable pub add_lines : List Text → Dict (Counter F) → Dict (Counter F)
  unfolding add_line
  add_lines [] counters = counters
  add_lines (line ∷ lines) counters = add_lines lines (add_line line counters)

  unfoldable pub parse_perf_csv : Text → Dict (Counter F)
  unfolding add_lines
  parse_perf_csv text = add_lines (splitlines text) []
