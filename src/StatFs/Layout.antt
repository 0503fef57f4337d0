-- ===== src/StatFs/Layout.antt =====
-- adb_filesystem.go, `parseStatfs`: all of such an output.
use adbfs.Base.{
  ℕ, ◌%◌, ◌^◌, ◌≡◌, refl, ap, sym, ◌∙◌, Bool, true, false, ◌&&◌, ltb, List, [], ◌∷◌, ◌++◌, Text,
  text_eq, codes, length, none, some, pos, arith,
}
use adbfs.Strings.{words, first_word, scan, max_scan_token_size}
use adbfs.Strings.Fields.{is_word, Layout, laid_out, all_words, words-laid_out}
use adbfs.Strings.Numbers.{atoi-is_word}
use adbfs.StatFs.{StatfsOut, new_statfs_out, set_value, read_word, read_words, parse_statfs}
use adbfs.StatFs.Printed.{Output, after_name, printed, is_plain, all_plain, Numeral, Says}
use adbfs.StatFs.Rounds.{
  is_plain_lem, read_rest_of_name, mod_64, at, read_text, read_number_at, read_number, read_joined,
  read_end, read_scoped,
}

-- What comes after the identifier.
abbrev after_id : Output → List Text
after_id o =
    codes "Namelen:"
    ∷ o.name_len
    ∷ codes "Type:"
    ∷ o.kind
    ∷ codes "Block"
    ∷ codes "size:"
    ∷ o.block_size
    ∷ codes "Blocks:"
    ∷ codes "Total:"
    ∷ o.total
    ∷ codes "Free:"
    ∷ o.free
    ∷ codes "Available:"
    ∷ o.available
    ∷ codes "Inodes:"
    ∷ codes "Total:"
    ∷ o.inodes
    ∷ codes "Free:"
    ∷ o.free_inodes
    ∷ []

abbrev said : StatfsOut → ℕ → ℕ → StatfsOut
said s name_len bsize = record {
  blocks = s.blocks % 2 ^ 64;
  bfree = s.bfree % 2 ^ 64;
  bavail = s.bavail % 2 ^ 64;
  files = s.files % 2 ^ 64;
  ffree = s.ffree % 2 ^ 64;
  bsize = bsize % 2 ^ 32;
  name_len = name_len % 2 ^ 32;
}

module _ (o : Output) (s : StatfsOut) (name_len bsize : ℕ) (h : Says o s name_len bsize) where
  read_after_id :
      read_words (after_id o) false (at [] [] new_statfs_out) ≡ (some (said s name_len bsize), none)
  unfolding set_value text_eq
  read_after_id =
      read_number (codes "Namelen:") o.name_len name_len _ [] _ _ refl h.says_name_len refl
      ∙ read_text (codes "Type:") o.kind _ [] _ refl
          (is_plain_lem o.kind (ground (arith, h.texts))).0 refl
      ∙ read_joined (codes "Block") (codes "size:") _ [] _ refl
      ∙ read_number_at (codes "Blocksize:") o.block_size bsize _ [] _ _ refl h.says_bsize refl
      ∙ read_scoped (codes "Blocks:") (codes "Total:") o.total s.blocks _ [] _ _ refl refl
          h.says_blocks refl
      ∙ read_number (codes "Free:") o.free s.bfree _ (codes "Blocks") _ _ refl h.says_bfree refl
      ∙ read_number (codes "Available:") o.available s.bavail _ (codes "Blocks") _ _ refl
          h.says_bavail refl
      ∙ read_scoped (codes "Inodes:") (codes "Total:") o.inodes s.files _ (codes "Blocks") _ _ refl
          refl h.says_files refl
      ∙ read_number (codes "Free:") o.free_inodes s.ffree _ (codes "Inodes") _ _ refl h.says_ffree
          refl
      ∙ read_end _

  said_lem : said s name_len bsize ≡ s
  said_lem =
      rw
        (
          mod_64 o.total s.blocks h.says_blocks,
          mod_64 o.free s.bfree h.says_bfree,
          mod_64 o.available s.bavail h.says_bavail,
          mod_64 o.inodes s.files h.says_files,
          mod_64 o.free_inodes s.ffree h.says_ffree,
          sym h.name_len_32,
          sym h.bsize_32,
        )
        refl

  read_printed : read_words (printed o) false (at [] [] new_statfs_out) ≡ (some s, none)
  unfolding read_words read_word set_value text_eq
  read_printed = rw (is_plain_lem o.name (ground (arith, h.texts))).0 (
      read_rest_of_name o.rest_of_name o.id (after_id o) false (at [] [] new_statfs_out)
        (ground (arith, h.texts)) refl (is_plain_lem o.id (ground (arith, h.texts))).0
      ∙ read_after_id
      ∙ ap (λ x. (some x, none)) said_lem)

-- What a scanner delivers.
abbrev is_delivered : Text → Bool
is_delivered w = is_word w && ltb (length w) max_scan_token_size

abbrev all_delivered : List Text → Bool
all_delivered [] = true
all_delivered (w ∷ ws) = is_delivered w && all_delivered ws

scan_all :
    (ws : List Text) → all_delivered ws ≡ true → scan ws ≡ record { found = ws; too_long = false }
unfolding scan
scan_all [] h = refl
scan_all (w ∷ ws) h = rw (scan_all ws (ground (arith, h))) (ground (arith, h))

all_delivered-all_words : (ws : List Text) → all_delivered ws ≡ true → all_words ws ≡ true
all_delivered-all_words [] h = refl
all_delivered-all_words (w ∷ ws) h = ground (arith, h, all_delivered-all_words ws)

all_delivered-append :
    (ws vs : List Text)
    → all_plain ws ≡ true
    → all_delivered vs ≡ true
    → all_delivered (ws ++ vs) ≡ true
all_delivered-append [] vs h k = k
all_delivered-append (w ∷ ws) vs h k = ground (arith, h, all_delivered-append ws vs, k)

Numeral-is_delivered : (t : Text) (n : ℕ) → Numeral t n → is_delivered t ≡ true
Numeral-is_delivered t n h = ground (arith, (atoi-is_word t (pos n) h.value).0, h.short)

is_plain-is_delivered : (w : Text) → is_plain w ≡ true → is_delivered w ≡ true
is_plain-is_delivered w h = ground (arith, h)

-- Output with a word in it.
parse_statfs-words :
    (t w : Text) (ws : List Text)
    → words t ≡ w ∷ ws
    → parse_statfs t
      ≡ read_words (scan (w ∷ ws)).found (scan (w ∷ ws)).too_long (at [] [] new_statfs_out)
unfolding parse_statfs words first_word
parse_statfs-words [] w ws e = absurd (cc e)
parse_statfs-words (c ∷ t) w ws e =
    ap (λ vs. read_words (scan vs).found (scan vs).too_long (at [] [] new_statfs_out)) e

module _ (o : Output) (s : StatfsOut) (name_len bsize : ℕ) (h : Says o s name_len bsize) where
  after_name-all_delivered : all_delivered (after_name o) ≡ true
  after_name-all_delivered =
      rw
        (
          is_plain-is_delivered o.id (ground (arith, h.texts)),
          is_plain-is_delivered o.kind (ground (arith, h.texts)),
          Numeral-is_delivered o.name_len name_len h.says_name_len,
          Numeral-is_delivered o.block_size bsize h.says_bsize,
          Numeral-is_delivered o.total s.blocks h.says_blocks,
          Numeral-is_delivered o.free s.bfree h.says_bfree,
          Numeral-is_delivered o.available s.bavail h.says_bavail,
          Numeral-is_delivered o.inodes s.files h.says_files,
          Numeral-is_delivered o.free_inodes s.ffree h.says_ffree,
        )
        refl

  printed-all_delivered : all_delivered (printed o) ≡ true
  printed-all_delivered = rw (is_plain-is_delivered o.name (ground (arith, h.texts))) (
      all_delivered-append o.rest_of_name (after_name o) (ground (arith, h.texts))
        after_name-all_delivered)

  -- Output of the words of the sample, its file's name of one word or of several, with any white space
  -- between them, line breaks included, and before and after them, is parsed to the numbers in it: those below 2^63 as they are, but for the block size and the longest name, which
  -- keep their lowest 32 bits. No word of the texts in it looks like a key.
  pub parse_statfs-printed : (l : Layout) → parse_statfs (laid_out l (printed o)) ≡ (some s, none)
  parse_statfs-printed l =
      parse_statfs-words (laid_out l (printed o)) (codes "File:") _
        (words-laid_out l (printed o) (all_delivered-all_words (printed o) printed-all_delivered))
      ∙ rw (scan_all (printed o) printed-all_delivered) (read_printed o s name_len bsize h)
