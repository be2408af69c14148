-- ===== src/Text/Scan/Shape.antt =====
-- What the parts of the regular expression read, and the lemmas on the text before and behind.
use bpftime_benchmark.Prelude.{
  ◌≡◌, ◌≢◌, refl, ap, true, some, [], ◌∷◌, ◌++◌, arith, All, inl, inr, Bool-cases,
}
use mathlib.Core.List.{cons-ne-nil}
use bpftime_benchmark.Text.Base.{Text, is_digit, is_space}
use bpftime_benchmark.Text.Scan.{Decimal, after_prefix, after_spaces, some_spaces, leading_digits}

abbrev pub AreSpaces : Text → Type 0
AreSpaces = All (λ c. is_space c ≡ true)

abbrev pub AreDigits : Text → Type 0
AreDigits = All (λ c. is_digit c ≡ true)

-- The text is something, the label, some white space, and the digits round a point.
pub record Reads (label text : Text) (d : Decimal) : Type 0 where
  pub before : Text
  pub spaces : Text
  pub rest : Text
  pub shape : text ≡ before ++ (label ++ (spaces ++ (d.whole ++ (b'.' ∷ (d.fraction ++ rest)))))
  pub spaces-ne-nil : spaces ≢ []
  pub whole-ne-nil : d.whole ≢ []
  pub fraction-ne-nil : d.fraction ≢ []
  pub are_spaces : AreSpaces spaces
  pub are_digits : AreDigits d.whole × AreDigits d.fraction

pub after_prefix-append : (p s : Text) → after_prefix p (p ++ s) ≡ some s
unfolding after_prefix
after_prefix-append [] s = refl
after_prefix-append (d ∷ p) s = ground (arith, after_prefix-append p s)

pub after_prefix_sound : (p s t : Text) → after_prefix p s ≡ some t → s ≡ p ++ t
unfolding after_prefix
after_prefix_sound [] s t h = ground arith
after_prefix_sound (d ∷ p) [] t h = cc
after_prefix_sound (d ∷ p) (c ∷ s) t h = ground (arith, after_prefix_sound p s t)

pub leading_digits-append :
    (ds : Text) (s : Text)
    → AreDigits ds
    → leading_digits (ds ++ s) ≡ (ds ++ (leading_digits s).0, (leading_digits s).1)
unfolding leading_digits
leading_digits-append [] s h = refl
leading_digits-append (d ∷ ds) s (hd, hs) = rw (leading_digits-append ds s hs, hd)

pub leading_digits_sound :
    (s : Text) → (s ≡ (leading_digits s).0 ++ (leading_digits s).1) × AreDigits (leading_digits s).0
unfolding leading_digits
leading_digits_sound [] = (refl, tt)
leading_digits_sound (c ∷ s) = ground (arith, leading_digits_sound s)

-- The white space that `after_spaces` drops.
pub dropped : (s : Text) → (ws : Text) × (s ≡ ws ++ after_spaces s) × AreSpaces ws
unfolding after_spaces
dropped [] = ([], refl, tt)
dropped (c ∷ s) = elim (Bool-cases (is_space c)) [
  | inl yes_space ↦
      let (ws, e, h) = dropped s in (c ∷ ws, rw yes_space (ap (λ t. c ∷ t) e), (yes_space, h))
  | inr no_space ↦ ([], rw no_space, tt)
]

pub some_spaces_sound :
    (s t : Text) → some_spaces s ≡ some t → (ws : Text) × (s ≡ ws ++ t) × (ws ≢ []) × AreSpaces ws
unfolding some_spaces
some_spaces_sound [] t h = cc
some_spaces_sound (c ∷ s) t h =
    let (ws, e, all_spaces) = dropped s in
    (c ∷ ws, ground (arith, e), cons-ne-nil c ws, (ground arith, all_spaces))
