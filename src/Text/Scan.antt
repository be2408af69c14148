-- ===== src/Text/Scan.antt =====
-- `re.search` for a label, white space and a decimal number, `LABEL\s+(\d+\.\d+)`. No choice that
-- the regular expression makes can be revised with success: white space ends at a digit, the
-- digits end at a point, and the last digits are taken greedily.
pub mod Shape
pub mod Sound
pub mod Complete
use bpftime_benchmark.Prelude.{
  Bool, true, false, Option, none, some, List, [], ◌∷◌, ◌==◌, if◌then◌else◌,
}
use bpftime_benchmark.Text.Base.{Text, is_digit, is_space}

-- What follows the prefix `p`, if the text begins with it.
unfoldable pub after_prefix : Text → Text → Option Text
after_prefix [] s = some s
after_prefix (d ∷ p) [] = none
after_prefix (d ∷ p) (c ∷ s) = if c == d then after_prefix p s else none

unfoldable pub after_spaces : Text → Text
after_spaces [] = []
after_spaces (c ∷ s) = let rest = after_spaces s in if is_space c then rest else c ∷ s

-- `\s+`
unfoldable pub some_spaces : Text → Option Text
unfolding after_spaces
some_spaces [] = none
some_spaces (c ∷ s) = if is_space c then some (after_spaces s) else none

-- The leading digits, and the rest.
unfoldable pub leading_digits : Text → Text × Text
leading_digits [] = ([], [])
leading_digits (c ∷ s) =
    let (ds, rest) = leading_digits s in if is_digit c then (c ∷ ds, rest) else ([], c ∷ s)

-- What the group `(\d+\.\d+)` holds: the digits before the point and those behind it.
pub record Decimal : Type 0 where
  pub whole : Text
  pub fraction : Text

abbrev pub fraction_found : Text → Text → Option Decimal
fraction_found whole [] = none
fraction_found whole (f ∷ fs) = some (record { whole = whole; fraction = f ∷ fs })

abbrev pub fraction_of : Text → Text → Option Decimal
fraction_of whole rest = fraction_found whole (leading_digits rest).0

abbrev pub point_of : Text → Text → Option Decimal
point_of whole [] = none
point_of whole (c ∷ rest) = if c == b'.' then fraction_of whole rest else none

abbrev pub whole_of : Text → Text → Option Decimal
whole_of [] rest = none
whole_of (d ∷ ds) rest = point_of (d ∷ ds) rest

unfoldable pub decimal : Text → Option Decimal
unfolding leading_digits
decimal s = let (ds, rest) = leading_digits s in whole_of ds rest

abbrev pub bind {ℓ κ} : {A : Type ℓ} {B : Type κ} → Option A → (A → Option B) → Option B
bind none f = none
bind (some a) f = f a

-- A match that begins where the text begins.
unfoldable pub labelled : Text → Text → Option Decimal
unfolding after_prefix some_spaces decimal
labelled label s = bind (after_prefix label s) (λ t. bind (some_spaces t) decimal)

abbrev pub or_else {ℓ} : {A : Type ℓ} → Option A → Option A → Option A
or_else (some a) o = some a
or_else none o = o

-- `re.search` takes the match that begins first.
unfoldable pub search_decimal : Text → Text → Option Decimal
unfolding labelled
search_decimal label [] = labelled label []
search_decimal label (c ∷ s) =
    let later = search_decimal label s in or_else (labelled label (c ∷ s)) later
