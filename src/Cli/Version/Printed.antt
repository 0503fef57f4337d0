-- ===== src/Cli/Version/Printed.antt =====
-- internal/cli/version.go: the version that a program prints is parsed again.
use adbfs.Base.{
  ℕ, append_assoc, ◌≡◌, refl, ap, ◌∙◌, Bool, true, false, not, ◌&&◌, ◌==◌, List, [], ◌∷◌, ◌++◌,
  Text, Option, none, some, arith, Bool-cases, inl, inr,
}
use adbfs.Cli.Version.{
  format_version, is_name_char, is_digit_char, span, is_empty, is_none, is_version, match_line,
  lines, first_match, parse_version, number_before, last_number, after_number,
}

abbrev no_newline : Text → Bool
no_newline [] = true
no_newline (c ∷ s) = not (c == 10) && no_newline s

abbrev all_chars : (ℕ → Bool) → Text → Bool
all_chars p [] = true
all_chars p (c ∷ s) = p c && all_chars p s

-- A program's name as the expression wants it.
abbrev pub is_name : Text → Bool
is_name s = not (is_empty s) && all_chars is_name_char s

-- Lines that are not of the expression's form.
abbrev pub no_match : List Text → Bool
no_match [] = true
no_match (l ∷ ls) = no_newline l && is_none (match_line l) && no_match ls

-- Lines as they are printed.
abbrev pub printed : List Text → Text
printed [] = []
printed (l ∷ ls) = l ++ 10 ∷ printed ls

span-append :
    (p : ℕ → Bool) (a : Text) (c : ℕ) (s : Text)
    → all_chars p a ≡ true
    → p c ≡ false
    → span p (a ++ c ∷ s) ≡ (a, c ∷ s)
unfolding span
span-append p [] c s h k = rw k refl
span-append p (b ∷ a) c s h k = rw (span-append p a c s (ground (arith, h)) k) (ground (arith, h))

match_line-format_version :
    (name version : Text)
    → is_name name ≡ true
    → is_version version ≡ true
    → match_line (format_version name version) ≡ some (name, version)
unfolding match_line
match_line-format_version name version h k =
    rw (span-append is_name_char name 32 (118 ∷ version) (ground (arith, h)) refl)
      (ground (arith, h, k))

-- Names and versions stand in one line.
name-no_newline :
    (s t : Text)
    → all_chars is_name_char s ≡ true
    → no_newline t ≡ true
    → no_newline (s ++ t) ≡ true
name-no_newline [] t h k = k
name-no_newline (c ∷ s) t h k = ground (arith, h, name-no_newline s t (ground (arith, h)) k)

span-no_newline : (s : Text) → no_newline (span is_digit_char s).1 ≡ true → no_newline s ≡ true
unfolding span
span-no_newline [] h = refl
span-no_newline (c ∷ s) h = elim (Bool-cases (is_digit_char c)) [
  | inl digit ↦ ground (arith, digit, span-no_newline s (rw digit at h))
  | inr other ↦ rw other at h
]

after_number-no_newline :
    (again : Text → Bool) (s : Text)
    → ((t : Text) → again t ≡ true → no_newline t ≡ true)
    → after_number again s ≡ true
    → no_newline s ≡ true
after_number-no_newline again [] h k = refl
after_number-no_newline again (c ∷ s) h k = ground (arith, k, h s)

number_before-no_newline :
    (again : Text → Bool) (s : Text)
    → ((t : Text) → again t ≡ true → no_newline t ≡ true)
    → number_before again s ≡ true
    → no_newline s ≡ true
number_before-no_newline again s h k =
    span-no_newline s (after_number-no_newline again (span is_digit_char s).1 h (ground (arith, k)))

empty-no_newline : (s : Text) → is_empty s ≡ true → no_newline s ≡ true
empty-no_newline [] h = refl
empty-no_newline (c ∷ s) h = absurd (cc)

version-no_newline : (s : Text) → is_version s ≡ true → no_newline s ≡ true
version-no_newline s h =
    number_before-no_newline (number_before last_number) s
      (λ t k.
        number_before-no_newline last_number t
          (λ r m. span-no_newline r (empty-no_newline (span is_digit_char r).1 (ground (arith, m))))
          k)
      h

lines-append : (l s : Text) → no_newline l ≡ true → lines (l ++ 10 ∷ s) ≡ l ∷ lines s
unfolding lines
lines-append [] s h = refl
lines-append (c ∷ l) s h = rw (lines-append l s (ground (arith, h))) (ground (arith, h))

none_lem : (o : Option (Text × Text)) → is_none o ≡ true → o ≡ none
none_lem none h = refl
none_lem (some m) h = absurd (cc)

first_match_past :
    (before : List Text) (l s : Text) (m : Text × Text)
    → no_match before ≡ true
    → no_newline l ≡ true
    → match_line l ≡ some m
    → parse_version (printed before ++ (l ++ 10 ∷ s)) ≡ some m
unfolding first_match
first_match_past [] l s m h k e = rw (lines-append l s k, e) refl
first_match_past (b ∷ before) l s m h k e =
    let skipped = first_match_past before l s m (ground (arith, h)) k e in
    ap parse_version (append_assoc b (10 ∷ printed before) (l ++ 10 ∷ s))
    ∙ rw
        (
          lines-append b (printed before ++ (l ++ 10 ∷ s)) (ground (arith, h)),
          none_lem (match_line b) (ground (arith, h)),
        )
        skipped

-- The version that a program prints on a line of its own is found, whatever lines that have not its
-- form are printed before it, and whatever is printed after it.
parse_version-format_version :
    (before : List Text) (name version rest : Text)
    → no_match before ≡ true
    → is_name name ≡ true
    → is_version version ≡ true
    → parse_version (printed before ++ (format_version name version ++ 10 ∷ rest))
      ≡ some (name, version)
parse_version-format_version before name version rest h k v =
    first_match_past before (format_version name version) rest (name, version) h
      (name-no_newline name (32 ∷ 118 ∷ version) (ground (arith, k))
        (ground (arith, version-no_newline version v)))
      (match_line-format_version name version k v)
