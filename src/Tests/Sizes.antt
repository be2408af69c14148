-- ===== src/Tests/Sizes.antt =====
-- Sizes of pages for benchmark/ssl-nginx/perf_stat_sslsniff.py.
use bpftime_benchmark.Prelude.{ℕ, ◌≡◌, refl, some, [], ◌∷◌, keep, length, arith}
use bpftime_benchmark.Text.Base.{Text, codes, text_eq}
use bpftime_benchmark.Text.Lines.{strip, split}
use bpftime_benchmark.Victim.{Dict}
use bpftime_benchmark.Victim.Laws.{keys}
use bpftime_benchmark.Perf.{page_sizes, requested_sizes, size_names, lookup, page}
use bpftime_benchmark.Perf.Laws.{AsksFor, FromTable, requested_sizes_sound, length-page}

abbrev asked : Text
asked = codes "1kb, ,16b"

abbrev answered : Dict ℕ
answered = (codes "1kb", 1024) ∷ (codes "16b", 16) ∷ []

answers : requested_sizes page_sizes asked ≡ some answered
unfolding requested_sizes size_names lookup strip split keep text_eq
answers = refl

requested_sizes_sound_example : AsksFor asked (keys answered) × FromTable page_sizes answered
requested_sizes_sound_example = requested_sizes_sound page_sizes asked answered answers

length-page_example : length (page 16) ≡ 16
length-page_example = length-page 16 (omega arith)
