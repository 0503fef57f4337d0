-- ===== src/Cli/Version/Accepted.antt =====
-- internal/cli/version.go, `CheckExecutableVersionMatches`: what it accepts.
use adbfs.Base.{
  ℕ, ◌≡◌, ◌⊎◌, refl, sym, ap, ◌∙◌, Bool, true, not, ◌&&◌, ◌==◌, ==_iff, List, [], ◌∷◌, ◌++◌, Text,
  text_eq_iff, Option, some, arith, Bool-cases, Option-cases, inl, inr,
}
use adbfs.Cli.Version.{
  format_version, is_name_char, span, is_empty, is_version, match_line, after_name, lines,
  first_match, parse_version, Exit, succeeded, exited, not_run, matches,
  check_executable_version_matches,
}

-- A line of a text.
abbrev pub OneOf : Text → List Text → Type 0
OneOf l [] = ⊥
OneOf l (k ∷ ls) = (l ≡ k) ⊎ OneOf l ls

span_lem : (p : ℕ → Bool) (s : Text) → s ≡ (span p s).0 ++ (span p s).1
unfolding span
span_lem p [] = refl
span_lem p (c ∷ s) = elim (Bool-cases (p c)) [
  | inl char ↦ rw char (ap (λ r. c ∷ r) (span_lem p s))
  | inr other ↦ rw other refl
]

after_name-some :
    (name rest : Text) (m : Text × Text)
    → after_name name rest ≡ some m
    → (name ++ rest ≡ format_version m.0 m.1) × (is_version m.1 ≡ true)
after_name-some name [] m h = absurd (cc)
after_name-some name (a ∷ []) m h = absurd (cc)
after_name-some name (a ∷ b ∷ version) m h =
    elim (Bool-cases (not (is_empty name) && a == 32 && b == 118 && is_version version)) [
      | inr other ↦ absurd (let no = rw other at h in cc)
      | inl form ↦
          let made : ◌≡◌ {A = Option (Text × Text)} (some (name, version)) (some m) =
            rw form at h in
          let same : (name, version) ≡ m = cc in
          let space : a ≡ 32 = ground (arith, form) in
          let letter : b ≡ 118 = ground (arith, form) in
          (rw (space, letter, sym same) refl, rw (sym same) (ground (arith, form)))
    ]

match_line-some :
    (l : Text) (m : Text × Text)
    → match_line l ≡ some m
    → (l ≡ format_version m.0 m.1) × (is_version m.1 ≡ true)
unfolding match_line
match_line-some l m h =
    let (same, form) = after_name-some (span is_name_char l).0 (span is_name_char l).1 m h in
    (span_lem is_name_char l ∙ same, form)

first_match-some :
    (ls : List Text) (m : Text × Text)
    → first_match ls ≡ some m
    → OneOf (format_version m.0 m.1) ls × (is_version m.1 ≡ true)
unfolding first_match
first_match-some [] m h = absurd (cc)
first_match-some (l ∷ ls) m h = elim (Option-cases (match_line l)) [
  | inl none_there ↦
      let (there, form) = first_match-some ls m (rw none_there at h) in (inr there, form)
  | inr (k, found) ↦
      let same = rw found at h in
      let (here, form) = match_line-some l m (found ∙ same) in (inl (sym here), form)
]

is_empty_nil : (s : Text) → is_empty s ≡ true → s ≡ []
is_empty_nil [] h = refl
is_empty_nil (c ∷ s) h = absurd (cc)

abbrev Found : Text → Text → Text → Type 0
Found name version output =
    (found : Text) × OneOf (format_version name found) (lines output)
    × (is_version found ≡ true)
    × ((version ≡ []) ⊎ (version ≡ found))

parse_version-Found :
    (name version output : Text)
    → matches name version (parse_version output) ≡ true
    → Found name version output
parse_version-Found name version output h = elim (Option-cases (parse_version output)) [
  | inl nothing ↦ absurd (let no = rw nothing at h in cc)
  | inr (m, there) ↦
      let (line, form) = first_match-some (lines output) m there in
      let agree = rw there at h in
      let same : name ≡ m.0 = (text_eq_iff name m.0).0 (ground (arith, agree)) in
      (
        m.1,
        rw same line,
        form,
        elim (Bool-cases (is_empty version)) [
          | inl any ↦ inl (is_empty_nil version any)
          | inr asked ↦ inr ((text_eq_iff version m.1).0 (ground (arith, agree, asked)))
        ],
      )
]

-- A program is accepted for a name and a version only if it could be run, with the exit status 0 or
-- 2, and a line of its output is that name with a version of three numbers, which is the version
-- asked for unless that is empty.
pub check_executable_version_matches_lem :
    (name version output : Text) (exit : Exit)
    → check_executable_version_matches name version exit output ≡ true
    → (found : Text) × OneOf (format_version name found) (lines output)
      × (is_version found ≡ true)
      × ((version ≡ []) ⊎ (version ≡ found))
      × ((exit ≡ succeeded) ⊎ (exit ≡ exited 2))
check_executable_version_matches_lem name version output succeeded h =
    let (found, line, form, same) = parse_version-Found name version output h in
    (found, line, form, same, inl refl)
check_executable_version_matches_lem name version output (exited status) h =
    elim (Bool-cases (status == 2)) [
      | inl two ↦
          let (found, line, form, same) = parse_version-Found name version output (rw two at h) in
          (found, line, form, same, inr (ap exited ((==_iff status 2).0 two)))
      | inr other ↦ absurd (let no = rw other at h in cc)
    ]
check_executable_version_matches_lem name version output not_run h = absurd (cc)
