-- ===== src/StatFs/Failures.antt =====
-- adb_filesystem.go: how `parseStatfs` and `StatFs` fail.
use adbfs.Base.{
  sym, codes, ◌↔◌, ◌≡◌, ◌≢◌, refl, ap, ◌∙◌, ◌⊎◌, inl, inr, Bool, true, false, List, [], ◌∷◌, Text,
  Option, none, some, Bool-cases, panic,
}
use adbfs.Errors.{ok, ErrUtil}
use adbfs.Device.{DeviceClient, DirEntry}
use adbfs.Links.{read_link_recursively}
use adbfs.Strings.{ends_with, first_word, words, Scanned, scan}
use adbfs.StatFs.{
  StatfsOut, colon, invalid_value, Parsed, Reading, read_word, read_words, parse_statfs, stored,
  reported, stat_fs, new_reading,
}

-- What a loop returns when the scanner got to the end, and what it returns when it did not.
data Ended (too_long : Bool) : Parsed → Type 0 where
  whole : (s : StatfsOut) → too_long ≡ false → Ended too_long (some s, none)
  cut : too_long ≡ true → Ended too_long (none, none)
  bad : (key : Text) → Ended too_long (none, some (invalid_value key))

abbrev Ends : Bool → (Reading → Parsed) → Type 0
Ends too_long f = (r : Reading) → Ended too_long (f r)

stored-Ended :
    (too_long : Bool) (again : Reading → Parsed) (r : Reading) (key : Text) (o : Option StatfsOut)
    → Ends too_long again
    → Ended too_long (stored again r key o)
stored-Ended too_long again r key none h = bad key
stored-Ended too_long again r key (some stat) h = h _

read_word-Ended :
    (too_long : Bool) (again : Reading → Parsed) (w : Text) (r : Reading)
    → Ends too_long again
    → Ended too_long (read_word again w r)
unfolding read_word
read_word-Ended too_long again w r h = elim (Bool-cases (ends_with r.key colon)) [
  | inl key ↦ elim (Bool-cases (ends_with w colon)) [
    | inl prefix ↦ rw (key, prefix) (h _)
    | inr value ↦ rw (key, value) (stored-Ended too_long again r _ _ h)
  ]
  | inr part ↦ rw part (h _)
]

read_words-Ended :
    (ws : List Text) (too_long : Bool) → Ends too_long (λ r. read_words ws too_long r)
unfolding read_words
read_words-Ended [] true r = cut refl
read_words-Ended [] false r = whole r.stat refl
read_words-Ended (w ∷ ws) too_long r = read_word-Ended too_long _ w r (read_words-Ended ws too_long)

-- As far as the words before it go, a long word changes what is returned exactly where nothing else
-- is wrong.
abbrev CutShort : Parsed → Parsed → Type 0
CutShort p q = ((p ≡ (none, none)) × (q.1 ≡ none)) ⊎ ((p ≡ q) × (q.1 ≢ none))

abbrev Cuts : (Reading → Parsed) → (Reading → Parsed) → Type 0
Cuts f g = (r : Reading) → CutShort (f r) (g r)

stored-CutShort :
    (f g : Reading → Parsed) (r : Reading) (key : Text) (o : Option StatfsOut)
    → Cuts f g
    → CutShort (stored f r key o) (stored g r key o)
stored-CutShort f g r key none h = inr (refl, λ e. cc)
stored-CutShort f g r key (some stat) h = h _

read_word-CutShort :
    (f g : Reading → Parsed) (w : Text) (r : Reading)
    → Cuts f g
    → CutShort (read_word f w r) (read_word g w r)
unfolding read_word
read_word-CutShort f g w r h = elim (Bool-cases (ends_with r.key colon)) [
  | inl key ↦ elim (Bool-cases (ends_with w colon)) [
    | inl prefix ↦ rw (key, prefix) (h _)
    | inr value ↦ rw (key, value) (stored-CutShort f g r _ _ h)
  ]
  | inr part ↦ rw part (h _)
]

read_words-CutShort :
    (ws : List Text) → Cuts (λ r. read_words ws true r) (λ r. read_words ws false r)
unfolding read_words
read_words-CutShort [] r = inl (refl, refl)
read_words-CutShort (w ∷ ws) r = read_word-CutShort _ _ w r (read_words-CutShort ws)

Ended-whole : (p : Parsed) → Ended false p → p ≢ (none, none)
Ended-whole p (whole s h) e = cc
Ended-whole p (cut h) e = cc
Ended-whole p (bad key) e = cc

-- The words of the output that a scanner delivers, and whether there was a long one after them.
abbrev pub delivered : Text → Scanned
delivered output = scan (words output)

reported-panic : (p : Parsed) → reported p ≡ panic → p ≡ (none, none)
reported-panic (none, none) h = refl
reported-panic (none, some e) h = absurd (cc)
reported-panic (some s, none) h = absurd (cc)
reported-panic (some s, some e) h = absurd (cc)

read_words-nil :
    (ws : List Text) (too_long : Bool) (r : Reading)
    → (read_words ws too_long r ≡ (none, none))
      ↔ ((too_long ≡ true) × ((read_words ws false r).1 ≡ none))
read_words-nil ws true r = elim (read_words-CutShort ws r) [
  | inl (nil, fine) ↦ (λ e. (refl, fine), λ e. nil)
  | inr (same, wrong) ↦
      (λ e. absurd (wrong (ap (λ p. p.1) (sym same ∙ e))), λ e. absurd (wrong e.1))
]
read_words-nil ws false r =
    (λ e. absurd (Ended-whole _ (read_words-Ended ws false r) e), λ e. absurd (cc))

scan-nothing : (scan (words [])).too_long ≡ false
unfolding scan words first_word
scan-nothing = refl

parse_statfs-nil :
    (output : Text)
    → (parse_statfs output ≡ (none, none)) ↔ (
        ((delivered output).too_long ≡ true)
        × ((read_words (delivered output).found false new_reading).1 ≡ none))
unfolding parse_statfs
parse_statfs-nil [] = (λ e. absurd (cc), λ e. absurd (let h = scan-nothing in cc))
parse_statfs-nil (c ∷ s) =
    let x = delivered (c ∷ s) in read_words-nil x.found x.too_long new_reading

module _ {W : Type 0} (u : ErrUtil) (d : DeviceClient W) where
  -- Where the name leads to an entry and the command succeeds, StatFs panics exactly if its output
  -- has a word of 65536 bytes or more and nothing before that word is an invalid value: the scanner
  -- then stops with an error, but the code returns a nil pointer and no error.
  pub stat_fs-panic :
      (name target output : Text) (entry : DirEntry) (w w1 w2 : W)
      → read_link_recursively u d name w ≡ (ok (target, entry), w1)
      → d.run_command (codes "stat") (codes "-f" ∷ target ∷ []) w1 ≡ (ok output, w2)
      → ((stat_fs u d name w).0 ≡ panic) ↔ (
          ((delivered output).too_long ≡ true)
          × ((read_words (delivered output).found false new_reading).1 ≡ none))
  unfolding stat_fs
  stat_fs-panic name target output entry w w1 w2 e f =
      rw (e, f)
        (
          (λ h. (parse_statfs-nil output).0 (reported-panic (parse_statfs output) h)),
          (λ h. ap reported ((parse_statfs-nil output).1 h)),
        )
