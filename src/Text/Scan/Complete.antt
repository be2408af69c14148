-- ===== src/Text/Scan/Complete.antt =====
-- Where `re.search` finds nothing, there is nothing of that shape in the text.
use bpftime_benchmark.Prelude.{
  ℕ, ◌≡◌, ◌≢◌, refl, true, false, Option, none, some, [], ◌∷◌, ◌++◌, arith,
}
use bpftime_benchmark.Text.Base.{Text, is_digit, is_space}
use bpftime_benchmark.Text.Scan.{
  Decimal, after_spaces, some_spaces, decimal, or_else, labelled, search_decimal,
}
use bpftime_benchmark.Text.Scan.Shape.{
  AreDigits, AreSpaces, Reads, after_prefix-append, leading_digits-append,
}

not_digit_space : (c : ℕ) → is_digit c ≡ true → is_space c ≡ false
not_digit_space c h = ground arith

after_spaces-append :
    (ws w s : Text) → AreSpaces ws → w ≢ [] → AreDigits w → after_spaces (ws ++ (w ++ s)) ≡ w ++ s
unfolding after_spaces
after_spaces-append [] [] s h n a = absurd (n refl)
after_spaces-append [] (x ∷ w) s h n (ax, a) = rw (not_digit_space x ax)
after_spaces-append (c ∷ ws) w s (hc, h) n a = rw (hc, after_spaces-append ws w s h n a)

some_spaces-append :
    (ws w s : Text)
    → ws ≢ []
    → AreSpaces ws
    → w ≢ []
    → AreDigits w
    → some_spaces (ws ++ (w ++ s)) ≡ some (w ++ s)
unfolding some_spaces
some_spaces-append [] w s n h m a = absurd (n refl)
some_spaces-append (c ∷ ws) w s n (hc, h) m a = rw (hc, after_spaces-append ws w s h m a)

decimal-ne-none :
    (w f s : Text)
    → w ≢ []
    → AreDigits w
    → f ≢ []
    → AreDigits f
    → decimal (w ++ (b'.' ∷ (f ++ s))) ≢ none
unfolding decimal
decimal-ne-none [] f s n a m b h = n refl
decimal-ne-none (x ∷ w) [] s n a m b h = m refl
decimal-ne-none (x ∷ w) (y ∷ f) s n a m b h = cc (
    rw (leading_digits-append (x ∷ w) (b'.' ∷ ((y ∷ f) ++ s)) a, leading_digits-append (y ∷ f) s b)
      at h)

labelled-ne-none :
    (label s : Text) (d : Decimal)
    → (r : Reads label s d)
    → labelled label (label ++ (r.spaces ++ (d.whole ++ (b'.' ∷ (d.fraction ++ r.rest))))) ≢ none
unfolding labelled
labelled-ne-none label s d r h =
    decimal-ne-none d.whole d.fraction r.rest r.whole-ne-nil r.are_digits.0 r.fraction-ne-nil
      r.are_digits.1
      (rw
        (
          after_prefix-append,
          some_spaces-append r.spaces d.whole _ r.spaces-ne-nil r.are_spaces r.whole-ne-nil
              r.are_digits.0,
        )
        at h)

or_else-none : {A : Type 0} (o p : Option A) → or_else o p ≡ none → (o ≡ none) × (p ≡ none)
or_else-none none p h = (refl, h)
or_else-none (some a) p h = cc

search_at_head : (label s : Text) → search_decimal label s ≡ none → labelled label s ≡ none
unfolding search_decimal
search_at_head label [] h = h
search_at_head label (c ∷ s) h = (or_else-none _ _ h).0

search_later :
    (label before s : Text)
    → search_decimal label (before ++ s) ≡ none
    → search_decimal label s ≡ none
unfolding search_decimal
search_later label [] s h = h
search_later label (c ∷ before) s h = search_later label before s (or_else-none _ _ h).1

-- Where the text holds a reading, the search does not fail.
pub search_decimal_complete :
    (label s : Text) (d : Decimal) → Reads label s d → search_decimal label s ≢ none
search_decimal_complete label s d r h =
    labelled-ne-none label s d r
      (search_at_head label _ (search_later label r.before _ (rw r.shape at h)))
