-- ===== src/Perf/Laws.antt =====
-- The sizes that are asked for, and the length of a page.
use bpftime_benchmark.Prelude.{
  ℕ, zero, suc, ◌≤◌, ◌≡◌, refl, ap, some, List, [], ◌∷◌, arith, All, Option-cases, length,
  length-append, ◌-◌, inl, inr, ◌≢◌, ◌++◌, ◌==◌, ==_iff, ◌∙◌, sym, false, if_intro, map, keep,
}
use mathlib.Core.Option.{some-injective}
use mathlib.Core.Path.{subst}
use mathlib.Core.List.{cons-ne-nil}
use bpftime_benchmark.Text.Lines.{cons_head, split, strip}
use bpftime_benchmark.SslNginx.Trace.{nonempty}
use bpftime_benchmark.Text.Base.{Text}
use bpftime_benchmark.Victim.{Dict}
use bpftime_benchmark.Victim.Laws.{keys}
use bpftime_benchmark.Perf.{
  lookup, size_names, sizes_of, requested_sizes, times, html_start, html_end, page,
}

length-times : (c n : ℕ) → length (times c n) ≡ n
unfolding times
length-times c zero = refl
length-times c (suc n) = omega (arith, length-times c n)

-- A page for a size that holds the two tags has exactly that size.
pub length-page : (n : ℕ) → 13 ≤ n → length (page n) ≡ n
unfolding page html_start html_end
length-page n h =
    omega
      (arith, length-append (times b'X' ((n - 6) - 7)) html_end, length-times b'X' ((n - 6) - 7))

-- Every pair is an entry of the table.
abbrev pub FromTable : Dict ℕ → Dict ℕ → Type 0
FromTable sizes = All (λ (k, n). lookup k sizes ≡ some n)

sizes_of_sound :
    (sizes : Dict ℕ) (names : List Text) (d : Dict ℕ)
    → sizes_of sizes names ≡ some d
    → (keys d ≡ names) × FromTable sizes d
unfolding sizes_of
sizes_of_sound sizes [] d h =
    subst (λ x. (keys x ≡ []) × FromTable sizes x) (some-injective _ _ h) (refl, tt)
sizes_of_sound sizes (name ∷ names) d h = elim (Option-cases (lookup name sizes)) [
  | inl unknown ↦ cc (rw unknown at h)
  | inr (n, known) ↦ elim (Option-cases (sizes_of sizes names)) [
    | inl bad ↦ cc (rw (known, bad) at h)
    | inr (rest, good) ↦
        let (same, from) = sizes_of_sound sizes names rest good in
        subst (λ x. (keys x ≡ name ∷ names) × FromTable sizes x)
          (some-injective _ _ (rw (known, good) at h)) (ap (λ ks. name ∷ ks) same, (known, from))
  ]
]

-- The parts with the separator between them.
abbrev pub separated : ℕ → List Text → Text
separated sep [] = []
separated sep (p ∷ []) = p
separated sep (p ∷ q ∷ parts) = p ++ (sep ∷ separated sep (q ∷ parts))

-- A part has no separator in it.
abbrev pub IsPart : ℕ → Text → Type 0
IsPart sep = All (λ c. (c == sep) ≡ false)

-- The names are the parts of the text between its commas, without the white space round each, and
-- without those of which nothing is left.
pub record AsksFor (raw : Text) (names : List Text) : Type 0 where
  pub parts : List Text
  pub shape : raw ≡ separated b',' parts
  pub are_parts : All (IsPart b',') parts
  pub names_are : names ≡ keep nonempty (map strip parts)

separated-cons_head :
    (sep c : ℕ) (ls : List Text) → separated sep (cons_head c ls) ≡ c ∷ separated sep ls
separated-cons_head sep c [] = refl
separated-cons_head sep c (l ∷ []) = refl
separated-cons_head sep c (l ∷ m ∷ ls) = refl

separated-nil :
    (sep : ℕ) (ls : List Text) → ls ≢ [] → separated sep ([] ∷ ls) ≡ sep ∷ separated sep ls
separated-nil sep [] h = absurd (h refl)
separated-nil sep (l ∷ ls) h = refl

cons_head-ne-nil : (c : ℕ) (ls : List Text) → cons_head c ls ≢ []
cons_head-ne-nil c [] = cons-ne-nil _ _
cons_head-ne-nil c (l ∷ ls) = cons-ne-nil _ _

split-ne-nil : (sep : ℕ) (s : Text) → split sep s ≢ []
unfolding split
split-ne-nil sep [] = cons-ne-nil _ _
split-ne-nil sep (c ∷ s) =
    if_intro (λ (ls : List Text). ls ≢ []) (c == sep) (λ _. cons-ne-nil _ _)
      (λ _. cons_head-ne-nil c (split sep s))

separated-split : (sep : ℕ) (s : Text) → separated sep (split sep s) ≡ s
unfolding split
separated-split sep [] = refl
separated-split sep (c ∷ s) =
    if_intro (λ (ls : List Text). separated sep ls ≡ c ∷ s) (c == sep)
      (λ here.
        separated-nil sep (split sep s) (split-ne-nil sep s)
        ∙ ap (λ t. sep ∷ t) (separated-split sep s)
        ∙ ap (λ d. d ∷ s) (sym ((==_iff c sep).0 here)))
      (λ _. separated-cons_head sep c (split sep s) ∙ ap (λ t. c ∷ t) (separated-split sep s))

cons_head-IsPart :
    (sep c : ℕ) (ls : List Text)
    → (c == sep) ≡ false
    → All (IsPart sep) ls
    → All (IsPart sep) (cons_head c ls)
cons_head-IsPart sep c [] h k = ((h, tt), tt)
cons_head-IsPart sep c (l ∷ ls) h (hl, hls) = ((h, hl), hls)

split-IsPart : (sep : ℕ) (s : Text) → All (IsPart sep) (split sep s)
unfolding split
split-IsPart sep [] = (tt, tt)
split-IsPart sep (c ∷ s) =
    if_intro (All (IsPart sep)) (c == sep) (λ _. (tt, split-IsPart sep s))
      (λ other. cons_head-IsPart sep c (split sep s) other (split-IsPart sep s))

size_names-AsksFor : (raw : Text) → AsksFor raw (size_names raw)
unfolding size_names
size_names-AsksFor raw = record {
  parts = split b',' raw;
  shape = sym (separated-split b',' raw);
  are_parts = split-IsPart b',' raw;
  names_are = refl;
}

-- Sizes that are returned are those of the parts of the text between its commas, stripped and
-- without the empty ones, in their order, as the table has them.
pub requested_sizes_sound :
    (sizes : Dict ℕ) (raw : Text) (d : Dict ℕ)
    → requested_sizes sizes raw ≡ some d
    → AsksFor raw (keys d) × FromTable sizes d
unfolding requested_sizes
requested_sizes_sound sizes raw d h =
    let (same, from) = sizes_of_sound sizes (size_names raw) d h in
    (subst (AsksFor raw) (sym same) (size_names-AsksFor raw), from)
