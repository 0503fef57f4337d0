-- ===== src/Strings/Fields.antt =====
-- `bufio.ScanWords` on words that are laid out with white space between them.
use adbfs.Base.{
  append-nil, ℕ, suc, ◌≡◌, refl, ap, ◌∙◌, Bool, true, false, not, ◌&&◌, List, [], ◌∷◌, ◌++◌, Text,
  arith,
}
use adbfs.Strings.{is_space, push, first_word, words}

abbrev pub no_space : Text → Bool
no_space [] = true
no_space (c ∷ s) = not (is_space c) && no_space s

-- A word: not empty, and without spaces.
abbrev pub is_word : Text → Bool
is_word [] = false
is_word (c ∷ s) = no_space (c ∷ s)

first_word-space :
    (w : Text) (c : ℕ) (s : Text)
    → no_space w ≡ true
    → is_space c ≡ true
    → first_word (w ++ c ∷ s) ≡ (w, words s)
unfolding first_word words
first_word-space [] c s h k = rw k refl
first_word-space (b ∷ w) c s h k =
    rw (first_word-space w c s (ground (arith, h)) k) (ground (arith, h))

first_word-end : (w : Text) → no_space w ≡ true → first_word w ≡ (w, [])
unfolding first_word
first_word-end [] h = refl
first_word-end (b ∷ w) h = rw (first_word-end w (ground (arith, h))) (ground (arith, h))

push-word : (w : Text) (ws : List Text) → is_word w ≡ true → push w ws ≡ w ∷ ws
push-word [] ws h = absurd (cc)
push-word (c ∷ w) ws h = refl

no_space-word : (w : Text) → is_word w ≡ true → no_space w ≡ true
no_space-word [] h = refl
no_space-word (c ∷ w) h = h

pub words-space :
    (w : Text) (c : ℕ) (s : Text)
    → is_word w ≡ true
    → is_space c ≡ true
    → words (w ++ c ∷ s) ≡ w ∷ words s
unfolding words
words-space w c s h k = rw (first_word-space w c s (no_space-word w h) k) (push-word w (words s) h)

pub words-end : (w : Text) → is_word w ≡ true → words w ≡ w ∷ []
unfolding words
words-end w h = rw (first_word-end w (no_space-word w h)) (push-word w [] h)

-- The white space of ASCII, by the characters' numbers.
pub data White : Type 0 where
  blank tab newline vertical_tab form_feed carriage_return : White

abbrev white : White → ℕ
white blank = b' '
white tab = b'\t'
white newline = b'\n'
white vertical_tab = 11
white form_feed = 12
white carriage_return = 13

abbrev spaces : List White → Text
spaces [] = []
spaces (g ∷ gs) = white g ∷ spaces gs

-- What stands between two words: one or more of these.
pub record Gap : Type 0 where
  pub first : White
  pub rest : List White

-- Words, where the gap after the i-th one is that of the number, and what comes after the last one.
abbrev parted : (ℕ → Gap) → ℕ → List Text → List White → Text
parted gaps i [] end = spaces end
parted gaps i (w ∷ []) end = w ++ spaces end
parted gaps i (w ∷ v ∷ ws) end =
    w ++ white (gaps i).first ∷ (spaces (gaps i).rest ++ parted gaps (suc i) (v ∷ ws) end)

-- Words in any layout.
pub record Layout : Type 0 where
  pub start : List White
  pub gaps : ℕ → Gap
  pub end : List White

abbrev pub laid_out : Layout → List Text → Text
laid_out l ws = spaces l.start ++ parted l.gaps 0 ws l.end

abbrev pub all_words : List Text → Bool
all_words [] = true
all_words (w ∷ ws) = is_word w && all_words ws

white-is_space : (g : White) → is_space (white g) ≡ true
white-is_space blank = refl
white-is_space tab = refl
white-is_space newline = refl
white-is_space vertical_tab = refl
white-is_space form_feed = refl
white-is_space carriage_return = refl

words-white : (g : White) (s : Text) → words (white g ∷ s) ≡ words s
unfolding words first_word
words-white g s = rw (white-is_space g) refl

words-spaces : (gs : List White) (s : Text) → words (spaces gs ++ s) ≡ words s
words-spaces [] s = refl
words-spaces (g ∷ gs) s = words-white g (spaces gs ++ s) ∙ words-spaces gs s

words-no_words : (gs : List White) → words (spaces gs) ≡ []
unfolding words first_word
words-no_words [] = refl
words-no_words (g ∷ gs) = words-white g (spaces gs) ∙ words-no_words gs

words-last : (w : Text) (gs : List White) → is_word w ≡ true → words (w ++ spaces gs) ≡ w ∷ []
words-last w [] h = ap words (append-nil w) ∙ words-end w h
words-last w (g ∷ gs) h =
    words-space w (white g) (spaces gs) h (white-is_space g) ∙ ap (λ r. w ∷ r) (words-no_words gs)

words-parted :
    (gaps : ℕ → Gap) (i : ℕ) (ws : List Text) (end : List White)
    → all_words ws ≡ true
    → words (parted gaps i ws end) ≡ ws
words-parted gaps i [] end h = words-no_words end
words-parted gaps i (w ∷ []) end h = words-last w end (ground (arith, h))
words-parted gaps i (w ∷ v ∷ ws) end h =
    let rest = parted gaps (suc i) (v ∷ ws) end in
    words-space w (white (gaps i).first) (spaces (gaps i).rest ++ rest) (ground (arith, h))
      (white-is_space (gaps i).first)
    ∙ ap (λ r. w ∷ r)
        (words-spaces (gaps i).rest rest
          ∙ words-parted gaps (suc i) (v ∷ ws) end (ground (arith, h)))

pub words-laid_out :
    (l : Layout) (ws : List Text) → all_words ws ≡ true → words (laid_out l ws) ≡ ws
words-laid_out l ws h =
    words-spaces l.start (parted l.gaps 0 ws l.end) ∙ words-parted l.gaps 0 ws l.end h
