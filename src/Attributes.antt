-- ===== src/Attributes.antt =====
-- util.go, `getAttr` and `GetAttr` of adb_filesystem.go and adb_file.go: the attributes of an entry in
-- the words of FUSE. The bits of `os.FileMode` are those of Go, the others those of Linux.
pub mod Modes
mod Tests
use adbfs.Base.{
  ℕ, ◌+◌, ◌-◌, ◌*◌, ◌%◌, ◌^◌, Bool, if◌then◌else◌, ◌==◌, List, map, Text, ℤ, pos, negsuc, bit_and,
  bit_or, none, some,
}
use adbfs.Errors.{Result, ok, err, ErrUtil, to_errno}
use adbfs.Device.{DeviceClient, DirEntry}
use adbfs.Links.{mode_symlink}

abbrev pub mode_dir : ℕ
mode_dir = 0x80000000

abbrev pub mode_named_pipe : ℕ
mode_named_pipe = 0x2000000

abbrev pub mode_socket : ℕ
mode_socket = 0x1000000

abbrev pub mode_device : ℕ
mode_device = 0x4000000

abbrev pub mode_type : ℕ
mode_type = 0x8f000000

abbrev pub s_ififo : ℕ
s_ififo = 0x1000

abbrev pub s_ifdir : ℕ
s_ifdir = 0x4000

abbrev pub s_ifreg : ℕ
s_ifreg = 0x8000

abbrev pub s_iflnk : ℕ
s_iflnk = 0xa000

abbrev pub has_bit : ℕ → ℕ → Bool
has_bit mode bit = bit_and mode bit == bit

abbrev pub is_regular : ℕ → Bool
is_regular mode = bit_and mode mode_type == 0

abbrev with_bit : Bool → ℕ → ℕ → ℕ
with_bit b bit out = if b then bit_or out bit else out

pub os_file_mode_to_fuse_file_mode : ℕ → ℕ
os_file_mode_to_fuse_file_mode mode =
    let out = with_bit (is_regular mode) s_ifreg 0 in
    let out = with_bit (has_bit mode mode_dir) s_ifdir out in
    let out = with_bit (has_bit mode mode_symlink) s_iflnk out in
    let out = with_bit (has_bit mode mode_named_pipe) s_ififo out in bit_or out (bit_and mode 0o777)

pub record Attr : Type 0 where
  pub mode : ℕ
  pub size : ℕ
  pub mtime : ℕ

abbrev pub zero_attr : Attr
zero_attr = record { mode = 0; size = 0; mtime = 0 }

-- The conversion of a signed integer to `uint64`.
abbrev pub uint64 : ℤ → ℕ
uint64 (pos n) = n % 2 ^ 64
uint64 (negsuc n) = 2 ^ 64 - 1 - n % 2 ^ 64

pub as_fuse_attr : DirEntry → Attr
unfolding os_file_mode_to_fuse_file_mode
as_fuse_attr entry = record {
  mode = os_file_mode_to_fuse_file_mode entry.mode;
  size = uint64 entry.size;
  mtime = entry.modified_at % 2 ^ 64;
}

pub record FuseDirEntry : Type 0 where
  pub name : Text
  pub mode : ℕ

abbrev fuse_dir_entry : DirEntry → FuseDirEntry
fuse_dir_entry entry = record {
  name = entry.name;
  mode = os_file_mode_to_fuse_file_mode entry.mode;
}

pub as_fuse_dir_entries : List DirEntry → List FuseDirEntry
as_fuse_dir_entries entries = map fuse_dir_entry entries

abbrev attr_reply : ErrUtil → Result DirEntry → Attr × ℕ
attr_reply u (ok entry) = (as_fuse_attr entry, to_errno u none)
attr_reply u (err e) = (zero_attr, to_errno u (some e))

-- `getAttr`: the attributes stay empty with an error.
unfoldable pub get_attr : {W : Type 0} → ErrUtil → DeviceClient W → Text → W → (Attr × ℕ) × W
unfolding to_errno as_fuse_attr
get_attr u d name w = let (r, w') = d.stat name w in (attr_reply u r, w')
