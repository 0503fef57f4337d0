-- ===== src/Strings/Tests.antt =====
-- Words and numbers at concrete texts.
use adbfs.Base.{◌≡◌, refl, [], ◌∷◌, ◌++◌, codes, some, none, pos, negsuc}
use adbfs.Strings.{words, first_word, atoi, digits_from}

spaces : words (codes "  a  bc" ++ 10 ∷ 9 ∷ codes "d ") ≡ codes "a" ∷ codes "bc" ∷ codes "d" ∷ []
unfolding words first_word
spaces = refl

plus : atoi (codes "+0042") ≡ some (pos 42)
unfolding digits_from
plus = refl

minus : atoi (codes "-9223372036854775808") ≡ some (negsuc 9223372036854775807)
unfolding digits_from
minus = refl

above : atoi (codes "9223372036854775808") ≡ none
unfolding digits_from
above = refl

no_digits : atoi (codes "12k") ≡ none
unfolding digits_from
no_digits = refl
