-- ===== src/SslNginx/Preflight.antt =====
-- What the preflight's verdict says of the texts that sslsniff printed.
use bpftime_benchmark.Prelude.{
  ◌≡◌, ◌≢◌, inl, inr, refl, not, ltb, ◌&&◌, ◌||◌, Bool, false, Option, none, some, List, [], ◌∷◌,
  keep, arith, Bool-cases, length, Option-cases,
}
use mathlib.Core.Option.{some-injective}
use bpftime_benchmark.Text.Base.{Text, contains}
use bpftime_benchmark.Text.Lines.{splitlines}
use bpftime_benchmark.Text.Scan.{Decimal, search_decimal}
use bpftime_benchmark.Text.Scan.Shape.{Reads}
use bpftime_benchmark.Text.Scan.Sound.{search_decimal_sound}
use bpftime_benchmark.Text.Scan.Complete.{search_decimal_complete}
use bpftime_benchmark.Python.World.{Status}
use bpftime_benchmark.Python.Floats.{Floats}
use bpftime_benchmark.SslNginx.Trace.{
  nonempty, event_prefixes, attach_marker_texts, error_marker_texts, starts_with_any, count_events,
  find_attach_markers, find_error_markers, summarize_trace_output, trace_is_effective,
}
use bpftime_benchmark.SslNginx.Process.{requests_label, parse_wrk_output}

-- Some element passes.
abbrev pub any {ℓ} : {A : Type ℓ} → (A → Bool) → List A → Bool
any p [] = false
any p (x ∷ xs) = p x || any p xs

nonempty-keep : {A : Type 0} (p : A → Bool) (xs : List A) → nonempty (keep p xs) ≡ any p xs
unfolding keep
nonempty-keep p [] = refl
nonempty-keep p (x ∷ xs) = elim (Bool-cases (p x)) [
  | inl hit ↦ rw hit
  | inr miss ↦ rw (miss, nonempty-keep p xs)
]

positive-keep : {A : Type 0} (p : A → Bool) (xs : List A) → ltb 0 (length (keep p xs)) ≡ any p xs
unfolding keep
positive-keep p [] = refl
positive-keep p (x ∷ xs) = elim (Bool-cases (p x)) [
  | inl hit ↦ rw hit (ground arith)
  | inr miss ↦ rw (miss, positive-keep p xs)
]

-- A preflight counts as effective exactly where a marker of an attached library was printed, no
-- marker of an error was printed to either stream, and some line begins like an event, whatever the
-- exit status.
pub trace_is_effective_lem :
    (out err : Text) (code : Option Status)
    → trace_is_effective (summarize_trace_output out err code)
      ≡ (any (contains out) attach_marker_texts
          && not (any (λ m. contains out m || contains err m) error_marker_texts))
        && any (λ line. starts_with_any line event_prefixes) (splitlines out)
unfolding trace_is_effective summarize_trace_output count_events find_attach_markers
    find_error_markers
trace_is_effective_lem out err code = rw (
  nonempty-keep (contains out) attach_marker_texts,
  nonempty-keep (λ m. contains out m || contains err m) error_marker_texts,
  positive-keep (λ line. starts_with_any line event_prefixes) (splitlines out),
)

-- A result of wrk is the value of a decimal number that stands in the output behind the label
-- `Requests/sec:` and white space.
pub parse_wrk_output_sound :
    (F : Floats) (output : Text) (x : F.Float)
    → parse_wrk_output F output ≡ some x
    → (d : Decimal) × (F.of_decimal d ≡ x) × Reads requests_label output d
unfolding parse_wrk_output
parse_wrk_output_sound F output x h = elim (Option-cases (search_decimal requests_label output)) [
  | inl missing ↦ cc (rw missing at h)
  | inr (d, found) ↦
      (d, some-injective _ _ (rw found at h), search_decimal_sound requests_label output d found)
]

-- Where the output holds such a number, parsing it does not fail.
pub parse_wrk_output_complete :
    (F : Floats) (output : Text) (d : Decimal)
    → Reads requests_label output d
    → parse_wrk_output F output ≢ none
unfolding parse_wrk_output
parse_wrk_output_complete F output d r h =
    elim (Option-cases (search_decimal requests_label output)) [
      | inl missing ↦ search_decimal_complete requests_label output d r missing
      | inr (e, found) ↦ cc (rw found at h)
    ]
