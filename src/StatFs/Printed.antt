-- ===== src/StatFs/Printed.antt =====
-- adb_filesystem.go, `parseStatfs`: the output of the sample in its comment.
use adbfs.Base.{
  ℕ, ◌%◌, ◌^◌, ◌<◌, ◌≡◌, Bool, true, not, ◌&&◌, ltb, List, [], ◌∷◌, ◌++◌, Text, codes, length, some,
  pos,
}
use adbfs.Strings.{ends_with, atoi, max_scan_token_size}
use adbfs.Strings.Fields.{is_word}
use adbfs.StatFs.{StatfsOut, colon}

-- What the command prints: the words of the file's name, and what stands after each key.
pub record Output : Type 0 where
  pub name : Text
  pub rest_of_name : List Text
  pub id : Text
  pub kind : Text
  pub name_len : Text
  pub block_size : Text
  pub total : Text
  pub free : Text
  pub available : Text
  pub inodes : Text
  pub free_inodes : Text

abbrev pub after_name : Output → List Text
after_name o =
    codes "ID:"
    ∷ o.id
    ∷ codes "Namelen:"
    ∷ o.name_len
    ∷ codes "Type:"
    ∷ o.kind
    ∷ codes "Block"
    ∷ codes "size:"
    ∷ o.block_size
    ∷ codes "Blocks:"
    ∷ codes "Total:"
    ∷ o.total
    ∷ codes "Free:"
    ∷ o.free
    ∷ codes "Available:"
    ∷ o.available
    ∷ codes "Inodes:"
    ∷ codes "Total:"
    ∷ o.inodes
    ∷ codes "Free:"
    ∷ o.free_inodes
    ∷ []

abbrev pub printed : Output → List Text
printed o = codes "File:" ∷ o.name ∷ o.rest_of_name ++ after_name o

-- A word that a scanner delivers and that does not look like a key.
abbrev pub is_plain : Text → Bool
is_plain w = is_word w && ltb (length w) max_scan_token_size && not (ends_with w colon)

abbrev pub all_plain : List Text → Bool
all_plain [] = true
all_plain (w ∷ ws) = is_plain w && all_plain ws

-- A text that is the number.
pub record Numeral (t : Text) (n : ℕ) : Type 0 where
  pub value : atoi t ≡ some (pos n)
  pub short : length t < max_scan_token_size

-- The output says these statistics.
pub record Says (o : Output) (s : StatfsOut) (name_len bsize : ℕ) : Type 0 where
  pub texts : all_plain (o.name ∷ o.id ∷ o.kind ∷ o.rest_of_name) ≡ true
  pub says_name_len : Numeral o.name_len name_len
  pub says_bsize : Numeral o.block_size bsize
  pub says_blocks : Numeral o.total s.blocks
  pub says_bfree : Numeral o.free s.bfree
  pub says_bavail : Numeral o.available s.bavail
  pub says_files : Numeral o.inodes s.files
  pub says_ffree : Numeral o.free_inodes s.ffree
  pub name_len_32 : s.name_len ≡ name_len % 2 ^ 32
  pub bsize_32 : s.bsize ≡ bsize % 2 ^ 32
