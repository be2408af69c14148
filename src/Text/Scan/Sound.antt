-- ===== src/Text/Scan/Sound.antt =====
-- What `re.search` finds is in the text, with the shape that the regular expression asks for.
use bpftime_benchmark.Prelude.{
  ℕ, ◌≡◌, ◌≢◌, refl, ap, ◌∙◌, Option, none, some, [], ◌∷◌, ◌++◌, ==_iff, inl, inr, Bool-cases,
  Option-cases, ◌==◌,
}
use mathlib.Core.List.{cons-ne-nil}
use mathlib.Core.Option.{some-injective}
use mathlib.Core.Path.{subst}
use bpftime_benchmark.Text.Base.{Text}
use bpftime_benchmark.Text.Scan.{
  Decimal, after_prefix, some_spaces, leading_digits, fraction_found, fraction_of, whole_of,
  decimal, bind, labelled, search_decimal,
}
use bpftime_benchmark.Text.Scan.Shape.{
  AreDigits, Reads, after_prefix_sound, leading_digits_sound, some_spaces_sound,
}

-- What is read behind the point.
record ReadsFraction (w s : Text) (d : Decimal) : Type 0 where
  rest : Text
  shape : s ≡ d.fraction ++ rest
  same_whole : d.whole ≡ w
  fraction-ne-nil : d.fraction ≢ []
  are_digits : AreDigits d.fraction

fraction_of_sound : (w s : Text) (d : Decimal) → fraction_of w s ≡ some d → ReadsFraction w s d
fraction_of_sound w s d h =
    go (leading_digits s).0 (leading_digits_sound s).0 (leading_digits_sound s).1 h
  where
    go :
        (ds : Text)
        → s ≡ ds ++ (leading_digits s).1
        → AreDigits ds
        → fraction_found w ds ≡ some d
        → ReadsFraction w s d
    go [] e a q = cc
    go (f ∷ fs) e a q =
        subst (λ r. ReadsFraction w s r) (some-injective _ _ q)
          (record {
            rest = (leading_digits s).1;
            shape = e;
            same_whole = refl;
            fraction-ne-nil = cons-ne-nil f fs;
            are_digits = a;
          })

-- What is read from the first digit on.
record ReadsDecimal (s : Text) (d : Decimal) : Type 0 where
  rest : Text
  shape : s ≡ d.whole ++ (b'.' ∷ (d.fraction ++ rest))
  whole-ne-nil : d.whole ≢ []
  fraction-ne-nil : d.fraction ≢ []
  are_digits : AreDigits d.whole × AreDigits d.fraction

whole_of_sound :
    (w s : Text) (d : Decimal) → AreDigits w → whole_of w s ≡ some d → ReadsDecimal (w ++ s) d
whole_of_sound [] s d a h = cc
whole_of_sound (x ∷ w) [] d a h = cc
whole_of_sound (x ∷ w) (c ∷ s) d a h = elim (Bool-cases (c == b'.')) [
  | inl point ↦
      let r = fraction_of_sound (x ∷ w) s d (rw point at h) in
      record {
        rest = r.rest;
        shape = rw (r.same_whole, (==_iff c b'.').0 point, ← r.shape);
        whole-ne-nil = rw r.same_whole (cons-ne-nil x w);
        fraction-ne-nil = r.fraction-ne-nil;
        are_digits = (rw r.same_whole a, r.are_digits);
      }
  | inr other ↦ cc (rw other at h)
]

decimal_sound : (s : Text) (d : Decimal) → decimal s ≡ some d → ReadsDecimal s d
unfolding decimal
decimal_sound s d h =
    let (e, a) = leading_digits_sound s in
    rw e (whole_of_sound (leading_digits s).0 (leading_digits s).1 d a h)

labelled_sound : (label s : Text) (d : Decimal) → labelled label s ≡ some d → Reads label s d
unfolding labelled
labelled_sound label s d h = go (after_prefix label s) refl h
  where
    after_label :
        (t u : Text)
        → s ≡ label ++ t
        → some_spaces t ≡ some u
        → decimal u ≡ some d
        → Reads label s d
    after_label t u e q p =
        let (ws, e', ne, sp) = some_spaces_sound t u q in
        let r = decimal_sound u d p in
        record {
          before = [];
          spaces = ws;
          rest = r.rest;
          shape = rw (e, e', r.shape);
          spaces-ne-nil = ne;
          whole-ne-nil = r.whole-ne-nil;
          fraction-ne-nil = r.fraction-ne-nil;
          are_spaces = sp;
          are_digits = r.are_digits;
        }

    go :
        (o : Option Text)
        → after_prefix label s ≡ o
        → bind o (λ t. bind (some_spaces t) decimal) ≡ some d
        → Reads label s d
    go none e q = cc
    go (some t) e q = elim (Option-cases (some_spaces t)) [
      | inl bad ↦ cc (rw bad at q)
      | inr (u, good) ↦ after_label t u (after_prefix_sound label s t e) good (rw good at q)
    ]

-- A reading stays one when the text is extended in front.
Reads-cons : (label s : Text) (d : Decimal) (c : ℕ) → Reads label s d → Reads label (c ∷ s) d
Reads-cons label s d c r = record {
  before = c ∷ r.before;
  spaces = r.spaces;
  rest = r.rest;
  shape = ap (λ t. c ∷ t) r.shape;
  spaces-ne-nil = r.spaces-ne-nil;
  whole-ne-nil = r.whole-ne-nil;
  fraction-ne-nil = r.fraction-ne-nil;
  are_spaces = r.are_spaces;
  are_digits = r.are_digits;
}

-- Whatever the search returns stands in the text behind the label.
pub search_decimal_sound :
    (label s : Text) (d : Decimal) → search_decimal label s ≡ some d → Reads label s d
unfolding search_decimal
search_decimal_sound label [] d h = labelled_sound label [] d h
search_decimal_sound label (c ∷ s) d h = elim (Option-cases (labelled label (c ∷ s))) [
  | inl later ↦ Reads-cons label s d c (search_decimal_sound label s d (rw later at h))
  | inr (e, here) ↦ labelled_sound label (c ∷ s) d (here ∙ rw here at h)
]
