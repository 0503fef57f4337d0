-- ===== src/Strings/Parts.antt =====
-- What the program uses of Go's package strings to cut text at a byte, to join it again, and to trim
-- it: `Split`, `Join` and `TrimSpace`.
use adbfs.Base.{
  ℕ, ◌≤◌, ◌+◌, ◌≡◌, refl, false, if◌then◌else◌, ◌==◌, List, [], ◌∷◌, ◌++◌, Text, length, arith,
}
use mathlib.Core.List.{append-nil}
use adbfs.Strings.{is_space}

module _ (sep : ℕ) where
  -- The part that the text stands in, and the parts after it.
  unfoldable pub first_part : Text → Text × List Text
  first_part [] = ([], [])
  first_part (c ∷ s) = let (p, ps) = first_part s in if c == sep then ([], p ∷ ps) else (c ∷ p, ps)

  unfoldable pub split : Text → List Text
  unfolding first_part
  split s = let (p, ps) = first_part s in p ∷ ps

  unfoldable pub join : List Text → Text
  join [] = []
  join (p ∷ []) = p
  join (p ∷ q ∷ ps) = p ++ sep ∷ join (q ∷ ps)

  abbrev pub Lacks : Text → Type 0
  Lacks [] = Unit
  Lacks (c ∷ s) = (c == sep ≡ false) × Lacks s

  abbrev pub AllLack : List Text → Type 0
  AllLack [] = Unit
  AllLack (s ∷ ss) = Lacks s × AllLack ss

  first_part-append :
      (p s : Text) → Lacks p → first_part (p ++ s) ≡ (let (q, qs) = first_part s in (p ++ q, qs))
  unfolding first_part
  first_part-append [] s h = refl
  first_part-append (c ∷ p) s (h, hs) = rw (first_part-append p s hs, h) refl

  first_part_at : (s : Text) → first_part (sep ∷ s) ≡ ([], split s)
  unfolding first_part split
  first_part_at s = ground arith

  split_lem : (s p : Text) (ps : List Text) → first_part s ≡ (p, ps) → split s ≡ p ∷ ps
  unfolding split
  split_lem s p ps e = rw e refl

  first_part_alone : (p : Text) → Lacks p → first_part p ≡ (p, [])
  unfolding first_part
  first_part_alone [] h = refl
  first_part_alone (c ∷ p) (h, hs) = rw (first_part_alone p hs, h) refl

  first_part-join :
      (p : Text) (ps : List Text) → AllLack (p ∷ ps) → first_part (join (p ∷ ps)) ≡ (p, ps)
  unfolding join
  first_part-join p [] (h, _) = first_part_alone p h
  first_part-join p (q ∷ ps) (h, hs) =
      rw (first_part-append p (sep ∷ join (q ∷ ps)) h, first_part_at (join (q ∷ ps)))
        (rw (split_lem _ q ps (first_part-join q ps hs), append-nil) refl)

  -- A join of parts without the separator is split into them again.
  pub split-join : (p : Text) (ps : List Text) → AllLack (p ∷ ps) → split (join (p ∷ ps)) ≡ p ∷ ps
  split-join p ps h = split_lem _ p ps (first_part-join p ps h)

-- `strings.TrimSpace`, of the spaces of ASCII.
unfoldable pub trim_left : Text → Text
trim_left [] = []
trim_left (c ∷ s) = if is_space c then trim_left s else c ∷ s

abbrev onto : ℕ → Text → Text
onto c [] = if is_space c then [] else c ∷ []
onto c (d ∷ s) = c ∷ d ∷ s

unfoldable pub trim_right : Text → Text
trim_right [] = []
trim_right (c ∷ s) = onto c (trim_right s)

abbrev pub trim_space : Text → Text
trim_space s = trim_right (trim_left s)

length-trim_left : (s : Text) → length (trim_left s) ≤ length s
unfolding trim_left
length-trim_left [] = omega arith
length-trim_left (c ∷ s) = ground (arith, length-trim_left s)

length-onto : (c : ℕ) (s : Text) → length (onto c s) ≤ length s + 1
length-onto c [] = ground arith
length-onto c (d ∷ s) = omega arith

length-trim_right : (s : Text) → length (trim_right s) ≤ length s
unfolding trim_right
length-trim_right [] = omega arith
length-trim_right (c ∷ s) = omega (arith, length-onto c (trim_right s), length-trim_right s)

pub length-trim_space : (s : Text) → length (trim_space s) ≤ length s
length-trim_space s = omega (arith, length-trim_right (trim_left s), length-trim_left s)
