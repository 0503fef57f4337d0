-- ===== src/Cli/Version.antt =====
-- internal/cli/version.go. The expression of `parseVersion` is compiled for POSIX, where `^` and `$`
-- are the beginning and the end of a line: it matches the first line of its form.
pub mod Printed
pub mod Accepted
use adbfs.Base.{
  ℕ, Bool, true, false, not, ◌&&◌, ◌||◌, if◌then◌else◌, leb, ◌==◌, List, [], ◌∷◌, ◌++◌, Text,
  text_eq, codes, Option, none, some,
}

-- `formatVersion`.
abbrev pub format_version : Text → Text → Text
format_version app_name version = app_name ++ 32 ∷ 118 ∷ version

-- The characters of `[-a-z]` and of `[[:digit:]]`.
abbrev pub is_name_char : ℕ → Bool
is_name_char c = c == 45 || leb 97 c && leb c 122

abbrev pub is_digit_char : ℕ → Bool
is_digit_char c = leb 48 c && leb c 57

-- The longest beginning of such characters, and what is after it.
unfoldable pub span : (ℕ → Bool) → Text → Text × Text
span p [] = ([], [])
span p (c ∷ s) = let (a, b) = span p s in if p c then (c ∷ a, b) else ([], c ∷ s)

abbrev pub is_empty : Text → Bool
is_empty [] = true
is_empty (c ∷ s) = false

abbrev pub is_none : Option (Text × Text) → Bool
is_none none = true
is_none (some m) = false

-- `[[:digit:]]+\.` so many times, and then `[[:digit:]]+` to the end.
abbrev after_number : (Text → Bool) → Text → Bool
after_number again [] = false
after_number again (c ∷ s) = c == 46 && again s

abbrev last_number : Text → Bool
last_number s = let (a, b) = span is_digit_char s in not (is_empty a) && is_empty b

abbrev number_before : (Text → Bool) → Text → Bool
number_before again s =
    let (a, b) = span is_digit_char s in not (is_empty a) && after_number again b

abbrev pub is_version : Text → Bool
is_version s = number_before (number_before last_number) s

abbrev after_name : Text → Text → Option (Text × Text)
after_name name (a ∷ b ∷ version) =
    if not (is_empty name) && a == 32 && b == 118 && is_version version
    then some (name, version)
    else none
after_name name (a ∷ []) = none
after_name name [] = none

-- The submatches of the expression in a line.
unfoldable pub match_line : Text → Option (Text × Text)
match_line s = let (name, rest) = span is_name_char s in after_name name rest

-- A text's lines.
abbrev onto_first : ℕ → List Text → List Text
onto_first c [] = (c ∷ []) ∷ []
onto_first c (l ∷ ls) = (c ∷ l) ∷ ls

unfoldable pub lines : Text → List Text
lines [] = [] ∷ []
lines (c ∷ s) = let rest = lines s in if c == 10 then [] ∷ rest else onto_first c rest

abbrev or_else : Option (Text × Text) → Option (Text × Text) → Option (Text × Text)
or_else (some m) other = some m
or_else none other = other

unfoldable pub first_match : List Text → Option (Text × Text)
first_match [] = none
first_match (l ∷ ls) = or_else (match_line l) (first_match ls)

-- `parseVersion`, where none is its error.
abbrev pub parse_version : Text → Option (Text × Text)
parse_version s = first_match (lines s)

-- How the program that is asked for its version ended: well, with this status, or otherwise.
pub data Exit : Type 0 where
  succeeded : Exit
  exited : ℕ → Exit
  not_run : Exit

-- `getExecutableVersion` of a program that ended so with this output.
abbrev pub get_executable_version : Exit → Text → Option (Text × Text)
get_executable_version succeeded output = parse_version output
get_executable_version (exited status) output = if status == 2 then parse_version output else none
get_executable_version not_run output = none

abbrev pub matches : Text → Text → Option (Text × Text) → Bool
matches app_name version none = false
matches app_name version (some (name, found)) =
    text_eq app_name name && (is_empty version || text_eq version found)

-- `CheckExecutableVersionMatches`: whether it returns no error.
abbrev pub check_executable_version_matches : Text → Text → Exit → Text → Bool
check_executable_version_matches app_name version exit output =
    matches app_name version (get_executable_version exit output)
