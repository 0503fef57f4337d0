-- ===== src/Strings.antt =====
-- What the program uses of Go's packages strings, strconv and bufio, on text as bytes. Spaces are
-- those of ASCII.
pub mod Fields
pub mod Numbers
pub mod Parts
mod Tests
use adbfs.Base.{
  ℕ, ◌+◌, ◌*◌, ◌-◌, ◌^◌, Bool, true, false, ◌&&◌, ◌||◌, if◌then◌else◌, ltb, leb, ◌==◌, List, [],
  ◌∷◌, Text, length, Option, none, some, ℤ, pos, negsuc,
}

-- `strings.HasSuffix` and `strings.TrimSuffix` of a suffix of one byte.
abbrev pub ends_with : Text → ℕ → Bool
ends_with [] c = false
ends_with (b ∷ []) c = b == c
ends_with (b ∷ a ∷ s) c = ends_with (a ∷ s) c

abbrev pub trim_last : Text → ℕ → Text
trim_last [] c = []
trim_last (b ∷ []) c = if b == c then [] else b ∷ []
trim_last (b ∷ a ∷ s) c = b ∷ trim_last (a ∷ s) c

abbrev pub is_space : ℕ → Bool
is_space c = c == 32 || leb 9 c && leb c 13

abbrev pub is_digit : ℕ → Bool
is_digit c = leb 48 c && leb c 57

-- `bufio.ScanWords`, for a whole text.
abbrev pub push : Text → List Text → List Text
push [] ws = ws
push (c ∷ w) ws = (c ∷ w) ∷ ws

-- What is left of the word that the text stands in, and the words after it.
unfoldable pub first_word : Text → Text × List Text
first_word [] = ([], [])
first_word (c ∷ s) =
    let (w, ws) = first_word s in if is_space c then ([], push w ws) else (c ∷ w, ws)

unfoldable pub words : Text → List Text
words s = let (w, ws) = first_word s in push w ws

-- `bufio.MaxScanTokenSize`: a scanner stops with an error at a word that is not shorter.
abbrev pub max_scan_token_size : ℕ
max_scan_token_size = 65536

-- The words that a scanner delivers, and whether it stopped at one that is too long.
pub record Scanned : Type 0 where
  pub found : List Text
  pub too_long : Bool

unfoldable pub scan : List Text → Scanned
scan [] = record { found = []; too_long = false }
scan (w ∷ ws) =
    let rest = scan ws in
    if ltb (length w) max_scan_token_size
    then record rest { found = w ∷ rest.found }
    else record { found = []; too_long = true }

-- `strconv.Atoi`, where an error has no value.
unfoldable pub digits_from : ℕ → Text → Option ℕ
digits_from n [] = some n
digits_from n (c ∷ s) =
    let rest = digits_from (n * 10 + (c - 48)) s in if is_digit c then rest else none

abbrev pub unsigned : Text → Option ℕ
unsigned [] = none
unsigned (c ∷ s) = digits_from 0 (c ∷ s)

abbrev pub in_range : Option ℕ → Option ℤ
in_range none = none
in_range (some n) = if ltb n (2 ^ 63) then some (pos n) else none

abbrev pub negated : Option ℕ → Option ℤ
negated none = none
negated (some n) =
    if n == 0 then some (pos 0) else if leb n (2 ^ 63) then some (negsuc (n - 1)) else none

abbrev pub atoi : Text → Option ℤ
atoi [] = none
atoi (c ∷ s) =
    if c == 43
    then in_range (unsigned s)
    else if c == 45
    then negated (unsigned s)
    else in_range (unsigned (c ∷ s))
