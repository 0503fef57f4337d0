-- ===== src/FileOpenFlags/Bits.antt =====
-- file_open_flags.go: `Contains` on joined words, which the tests of several flags rest on.
use adbfs.Base.{ℕ, ◌≡◌, ◌||◌, bit_or, bit_and-bit_or_left, bit_and-bit_or_right, arith}
use adbfs.FileOpenFlags.{contains}

-- A word contains one of several flags exactly if it contains one of them, and a joined word
-- contains what one of its parts contains.
pub contains-bit_or :
    (f g bits more : ℕ)
    → (contains f (bit_or bits more) ≡ (contains f bits || contains f more))
      × (contains (bit_or f g) bits ≡ (contains f bits || contains g bits))
unfolding contains
contains-bit_or f g bits more =
    (ground (arith, bit_and-bit_or_right f bits more), ground (arith, bit_and-bit_or_left f g bits))
