-- ===== src/AdbFileSystem.antt =====
-- adb_filesystem.go: the calls of the kernel on names. The pool of device clients, which every call
-- takes one from and gives it back to, stands in `ClientPool`.
pub mod Answers
pub mod Mounted
pub mod ReadOnly
pub mod Session
pub mod Served
pub mod Unwritten
mod Tests
use adbfs.Base.{
  ℕ, ◌≡◌, Bool, true, false, not, ◌&&◌, if◌then◌else◌, ◌==◌, List, [], ◌∷◌, Text, codes, Option,
  none, some, bit_and, bit_or,
}
use adbfs.Errors.{Error, Result, ok, err, ErrUtil, to_errno, not_permitted, errno, enosys}
use adbfs.Device.{DeviceClient, DirEntry}
use adbfs.FileOpenFlags.{contains, o_rdwr, o_wronly, o_create, o_trunc, o_append}
use adbfs.FileBuffer.{dont_set_perms}
use adbfs.OpenFiles.{OpenFiles, Opened, new_open_files, get_or_load}
use adbfs.Paths.{device_path, path_join, slash}
use adbfs.Links.{read_link, read_link_recursively}
use adbfs.Attributes.{Attr, FuseDirEntry, get_attr, as_fuse_dir_entries}
use adbfs.Commands.{mkdir, rename, rmdir, unlink}

pub record Config : Type 0 where
  pub mountpoint : Text
  pub device_root : Text
  pub read_only : Bool

pub record AdbFileSystem : Type 0 where
  pub config : Config
  pub open_files : OpenFiles

-- An open file: its buffer and the flags it was opened with.
pub record Handle : Type 0 where
  pub file_buffer : ℕ
  pub flags : ℕ

-- The calls that are answered from the device.
pub data Call : Type 0 where
  get_attr_of open_dir_of read_link_of : Text → Call
  access_to : Text → ℕ → Call
  make_dir remove_dir unlink_name : Text → Call
  rename_to : Text → Text → Call
  -- With the flags, the permissions, where they are used, and the clock's reading.
  create_file_at : Text → ℕ → ℕ → ℕ → Call
  open_file_at : Text → ℕ → ℕ → Call
  -- Chmod, Chown, the extended attributes, Link, Symlink, Mknod, Truncate and Utimens.
  unsupported : Call

-- What a call returns beside the status.
pub data Value : Type 0 where
  nothing : Value
  attr : Attr → Value
  entries : List FuseDirEntry → Value
  target : Text → Value
  handle : Handle → Value

-- The status, the value and the state after a call.
pub record Answer (W : Type 0) : Type 0 where
  pub status : ℕ
  pub value : Value
  pub fs : AdbFileSystem
  pub world : W

abbrev trim_slash : Text → Text
trim_slash [] = []
trim_slash (c ∷ []) = if c == slash then [] else c ∷ []
trim_slash (c ∷ b ∷ s) = c ∷ trim_slash (b ∷ s)

abbrev pub to_device : AdbFileSystem → Text → Text
to_device fs name = device_path fs.config.device_root name

abbrev pub w_ok : ℕ
w_ok = 2

-- What `createFile` counts as opening to write.
abbrev pub is_write_op : ℕ → Bool
is_write_op flags =
    contains flags (bit_or (bit_or (bit_or (bit_or o_rdwr o_wronly) o_create) o_trunc) o_append)

-- The flags that `Create` opens with.
abbrev pub create_flags : ℕ → ℕ
create_flags raw =
    let flags = bit_or raw (bit_or o_create o_trunc) in
    if contains flags o_rdwr then flags else bit_or flags o_wronly

abbrev mounted : Text → Bool → Result (Text × DirEntry) → Result AdbFileSystem
mounted mountpoint read_only (err e) = err e
mounted mountpoint read_only (ok (t, e)) = ok (record {
  config = record { mountpoint = mountpoint; device_root = t; read_only = read_only };
  open_files = new_open_files 0;
})

module _ {W : Type 0} (u : ErrUtil) (d : DeviceClient W) where
  -- `initialize`: the device root is resolved, but for an empty one.
  abbrev rooted : Config → Text → W → Result AdbFileSystem × W
  rooted config [] w = (
    ok (record { config = record config { device_root = [] }; open_files = new_open_files 0 }),
    w,
  )
  rooted config (c ∷ s) w =
      let (r, w') = read_link_recursively u d (c ∷ s) w in
      (mounted config.mountpoint config.read_only r, w')

  -- `NewAdbFileSystem`, which drops a slash at the end of the device root.
  unfoldable pub new_adb_file_system : Config → W → Result AdbFileSystem × W
  new_adb_file_system config w = rooted config (trim_slash config.device_root) w

  abbrev answer : AdbFileSystem → Value → Option Error → W → Answer W
  answer fs value e w = record { status = to_errno u e; value = value; fs = fs; world = w }

  -- A call that a filesystem mounted read-only does not do.
  abbrev unless_read_only : AdbFileSystem → (W → Option Error × W) → W → Answer W
  unless_read_only fs body w =
      if fs.config.read_only
      then answer fs nothing (some not_permitted) w
      else (let (e, w') = body w in answer fs nothing e w')

  abbrev linked : AdbFileSystem → Result Text → W → Answer W
  linked fs (err e) w = answer fs (target []) (some e) w
  linked fs (ok []) w = answer fs (target []) none w
  linked fs (ok (c ∷ t)) w =
      answer fs
        (target (if c == slash then path_join (fs.config.mountpoint ∷ (c ∷ t) ∷ []) else c ∷ t))
        none w

  abbrev listed : AdbFileSystem → Result (List DirEntry) → W → Answer W
  listed fs (err e) w = answer fs (entries []) (some e) w
  listed fs (ok es) w = answer fs (entries (as_fuse_dir_entries es)) none w

  abbrev resolved : AdbFileSystem → Result (Text × DirEntry) → W → Answer W
  resolved fs (err e) w = answer fs nothing (some e) w
  resolved fs (ok x) w = answer fs nothing none w

  abbrev opened : AdbFileSystem → ℕ → Result ℕ → W → Answer W
  opened fs flags (err e) w = answer fs nothing (some e) w
  opened fs flags (ok i) w = answer fs (handle (record { file_buffer = i; flags = flags })) none w

  pub create_file : AdbFileSystem → Text → ℕ → ℕ → ℕ → W → Answer W
  create_file fs name flags perms now w =
      if is_write_op flags && fs.config.read_only
      then answer fs nothing (some not_permitted) w
      else (let r = get_or_load u d fs.open_files name flags perms now w in
          opened (record fs { open_files = r.files }) flags r.file r.world)

  abbrev serve_get_attr : AdbFileSystem → Text → W → Answer W
  serve_get_attr fs name w =
      let ((a, status), w') = get_attr u d (to_device fs name) w in
      record { status = status; value = attr a; fs = fs; world = w' }

  abbrev serve_open_dir : AdbFileSystem → Text → W → Answer W
  serve_open_dir fs name w =
      let (r, w') = d.list_dir_entries (to_device fs name) w in listed fs r w'

  abbrev serve_read_link : AdbFileSystem → Text → W → Answer W
  serve_read_link fs name w = let (r, w') = read_link u d (to_device fs name) w in linked fs r w'

  -- For want of better knowledge, an entry that exists is taken to be accessible.
  abbrev serve_access : AdbFileSystem → Text → ℕ → W → Answer W
  serve_access fs name mode w =
      if bit_and mode w_ok == w_ok && fs.config.read_only
      then answer fs nothing (some not_permitted) w
      else (let (r, w') = read_link_recursively u d (to_device fs name) w in resolved fs r w')

  abbrev serve_create : AdbFileSystem → Text → ℕ → ℕ → ℕ → W → Answer W
  serve_create fs name raw perms now w =
      create_file fs (to_device fs name) (create_flags raw) perms now w

  abbrev serve_open : AdbFileSystem → Text → ℕ → ℕ → W → Answer W
  serve_open fs name flags now w = create_file fs (to_device fs name) flags dont_set_perms now w

  -- The permissions that `Mkdir` is given are ignored.
  abbrev serve_mkdir : AdbFileSystem → Text → W → Answer W
  serve_mkdir fs name w = unless_read_only fs (mkdir d (to_device fs name)) w

  abbrev serve_rename : AdbFileSystem → Text → Text → W → Answer W
  serve_rename fs old_name new_name w =
      unless_read_only fs (rename d (to_device fs old_name) (to_device fs new_name)) w

  abbrev serve_rmdir : AdbFileSystem → Text → W → Answer W
  serve_rmdir fs name w = unless_read_only fs (rmdir d (to_device fs name)) w

  abbrev serve_unlink : AdbFileSystem → Text → W → Answer W
  serve_unlink fs name w = unless_read_only fs (unlink d (to_device fs name)) w

  abbrev serve_unsupported : AdbFileSystem → W → Answer W
  serve_unsupported fs w = answer fs nothing (some (errno enosys)) w

  -- One call of the kernel.
  pub serve : AdbFileSystem → Call → W → Answer W
  serve fs (get_attr_of name) w = serve_get_attr fs name w
  serve fs (open_dir_of name) w = serve_open_dir fs name w
  serve fs (read_link_of name) w = serve_read_link fs name w
  serve fs (access_to name mode) w = serve_access fs name mode w
  serve fs (make_dir name) w = serve_mkdir fs name w
  serve fs (remove_dir name) w = serve_rmdir fs name w
  serve fs (unlink_name name) w = serve_unlink fs name w
  serve fs (rename_to old_name new_name) w = serve_rename fs old_name new_name w
  serve fs (create_file_at name raw perms now) w = serve_create fs name raw perms now w
  serve fs (open_file_at name flags now) w = serve_open fs name flags now w
  serve fs unsupported w = serve_unsupported fs w

  -- Calls one after another.
  pub serve_all : AdbFileSystem → List Call → W → AdbFileSystem × W
  serve_all fs [] w = (fs, w)
  serve_all fs (c ∷ cs) w = let a = serve fs c w in serve_all a.fs cs a.world
