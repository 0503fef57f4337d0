-- ===== src/Cli/Mountpoint/Names.antt =====
-- internal/cli/mountpoint.go: the names of mountpoints, and how they are made.
use adbfs.Base.{
  ℕ, ◌≡◌, ◌≢◌, refl, sym, ap, ◌∙◌, Bool, true, false, not, ◌&&◌, ◌||◌, ◌==◌, [], ◌∷◌, ◌++◌, Text,
  text_eq, arith, Bool-cases, inl, inr,
}
use adbfs.Paths.Plain.{no_slash, all_plain}
use adbfs.Cli.Mountpoint.{DeviceInfo, is_kept, underscore, replaced, build_dir_name_for_device}

abbrev starts_with_underscore : Text → Bool
starts_with_underscore [] = false
starts_with_underscore (c ∷ s) = c == underscore

-- Kept bytes and single underscores.
abbrev pub is_clean : Text → Bool
is_clean [] = true
is_clean (c ∷ s) = (is_kept c || c == underscore && not (starts_with_underscore s)) && is_clean s

replaced-is_clean :
    (in_run : Bool) (s : Text)
    → (is_clean (replaced in_run s) ≡ true)
      × (not in_run || not (starts_with_underscore (replaced in_run s)) ≡ true)
unfolding replaced
replaced-is_clean true [] = (refl, refl)
replaced-is_clean false [] = (refl, refl)
replaced-is_clean true (c ∷ s) = elim (Bool-cases (is_kept c)) [
  | inl kept ↦
      let (clean, start) = replaced-is_clean false s in
      rw kept (ground (arith, clean, kept), ground (arith, kept))
  | inr other ↦ rw other (replaced-is_clean true s)
]
replaced-is_clean false (c ∷ s) = elim (Bool-cases (is_kept c)) [
  | inl kept ↦
      let (clean, start) = replaced-is_clean false s in rw kept (ground (arith, clean, kept), refl)
  | inr other ↦
      let (clean, start) = replaced-is_clean true s in rw other (ground (arith, clean, start), refl)
]

-- A text of that kind is not changed.
replaced_start :
    (s : Text)
    → is_clean s ≡ true
    → starts_with_underscore s ≡ false
    → replaced true s ≡ replaced false s
unfolding replaced
replaced_start [] h k = refl
replaced_start (c ∷ s) h k = let kept : is_kept c ≡ true = ground (arith, h, k) in rw kept refl

replaced_clean : (s : Text) → is_clean s ≡ true → replaced false s ≡ s
unfolding replaced
replaced_clean [] h = refl
replaced_clean (c ∷ s) h =
    let rest = replaced_clean s (ground (arith, h)) in
    elim (Bool-cases (is_kept c)) [
      | inl kept ↦ rw kept (ap (λ r. c ∷ r) rest)
      | inr other ↦
          let at : c ≡ underscore = ground (arith, h, other) in
          rw other (
            ap (λ r. underscore ∷ r)
              (replaced_start s (ground (arith, h)) (ground (arith, h, other)) ∙ rest)
            ∙ ap (λ d. d ∷ s) (sym at))
    ]

no_slash_lem : (s : Text) → is_clean s ≡ true → no_slash s ≡ true
no_slash_lem [] h = refl
no_slash_lem (c ∷ s) h = let rest = no_slash_lem s (ground (arith, h)) in ground (arith, h, rest)

clean-all_plain : (c : ℕ) (s : Text) → is_clean (c ∷ s) ≡ true → all_plain ((c ∷ s) ∷ []) ≡ true
unfolding text_eq
clean-all_plain c s h = ground (arith, h, no_slash_lem (c ∷ s) h)

clean_some-all_plain : (s : Text) → is_clean s ≡ true → s ≢ [] → all_plain (s ∷ []) ≡ true
clean_some-all_plain [] h k = absurd (k refl)
clean_some-all_plain (c ∷ s) h k = clean-all_plain c s h

-- The dash between the model and the serial number is kept.
replaced_some : (in_run : Bool) (s t : Text) → replaced in_run (s ++ 45 ∷ t) ≢ []
unfolding replaced
replaced_some in_run [] t e = absurd (cc)
replaced_some in_run (c ∷ s) t e = elim (Bool-cases (is_kept c)) [
  | inl kept ↦ absurd (let no = rw kept at e in cc)
  | inr other ↦ elim (Bool-cases in_run) [
    | inl inside ↦ replaced_some true s t (rw (other, inside) at e)
    | inr outside ↦ absurd (let no = rw (other, outside) at e in cc)
  ]
]

-- Whatever its model and serial number, the directory name of a device is one segment of a path,
-- neither empty nor . nor .., of letters, digits, dashes and single underscores; a name of that kind
-- stays as it is.
pub build_dir_name_for_device-all_plain :
    (d : DeviceInfo)
    → let name = build_dir_name_for_device d in
      (all_plain (name ∷ []) ≡ true) × (is_clean name ≡ true) × (replaced false name ≡ name)
build_dir_name_for_device-all_plain d =
    let (clean, start) = replaced-is_clean false (d.model ++ 45 ∷ d.serial) in
    (
      clean_some-all_plain (build_dir_name_for_device d) clean
          (replaced_some false d.model d.serial),
      clean,
      replaced_clean (build_dir_name_for_device d) clean,
    )
