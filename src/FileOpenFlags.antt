-- ===== src/FileOpenFlags.antt =====
-- file_open_flags.go. A flag word is a number below 2 ^ 32; the flags are those of package os on Linux.
pub mod Bits
use adbfs.Base.{ℕ, Bool, not, ◌==◌, bit_and, bit_or}

abbrev pub o_rdonly : ℕ
o_rdonly = 0x0

abbrev pub o_wronly : ℕ
o_wronly = 0x1

abbrev pub o_rdwr : ℕ
o_rdwr = 0x2

abbrev pub o_append : ℕ
o_append = 0x400

abbrev pub o_create : ℕ
o_create = 0x40

abbrev pub o_excl : ℕ
o_excl = 0x80

abbrev pub o_sync : ℕ
o_sync = 0x101000

abbrev pub o_trunc : ℕ
o_trunc = 0x200

-- Whether the flags contain any of the bits.
unfoldable pub contains : ℕ → ℕ → Bool
contains f bits = not (bit_and f bits == 0)

unfoldable pub can_read : ℕ → Bool
can_read f = not (contains f o_wronly)

unfoldable pub can_write : ℕ → Bool
can_write f = contains f (bit_or o_wronly o_rdwr)
