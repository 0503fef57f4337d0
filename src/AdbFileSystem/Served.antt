-- ===== src/AdbFileSystem/Served.antt =====
-- adb_filesystem.go: what a call on a name leaves of a filesystem that is mounted read-only.
use adbfs.Base.{
  ℕ, ◌≡◌, refl, Bool, true, false, not, ◌&&◌, ◌==◌, List, [], ◌∷◌, Text, bit_and, bit_or, arith,
  Bool-cases, inl, inr,
}
use adbfs.Errors.{Result, ok, err, ErrUtil}
use adbfs.Device.{DeviceClient, DirEntry}
use adbfs.FileOpenFlags.{contains, can_write, o_rdwr, o_wronly, o_create, o_trunc, o_append}
use adbfs.FileOpenFlags.Bits.{contains-bit_or}
use adbfs.OpenFiles.{get_or_load}
use adbfs.OpenFiles.Clean.{AllClean, get_or_load-AllClean}
use adbfs.AdbFileSystem.{
  AdbFileSystem, Handle, Answer, Call, get_attr_of, open_dir_of, read_link_of, access_to, make_dir,
  remove_dir, unlink_name, rename_to, create_file_at, open_file_at, unsupported, linked, listed,
  resolved, opened, is_write_op, create_file, create_flags, to_device, serve, w_ok,
}
use adbfs.AdbFileSystem.Session.{Session, handle_of}

abbrev pub all_unwritable : List Handle → Bool
all_unwritable [] = true
all_unwritable (h ∷ hs) = not (can_write h.flags) && all_unwritable hs

-- A filesystem that is mounted read-only, its buffers not dirty, and no file open to write.
pub record IsReadOnly {W : Type 0} (s : Session W) : Type 0 where
  pub read_only : s.fs.config.read_only ≡ true
  pub clean : AllClean s.fs.open_files
  pub unwritable : all_unwritable s.handles ≡ true

is_write_op-can_write :
    (flags : ℕ)
    → is_write_op flags ≡ false
    → (can_write flags ≡ false)
      × (contains flags o_create ≡ false)
      × (contains flags o_trunc ≡ false)
unfolding can_write
is_write_op-can_write flags h =
    let one =
      contains-bit_or flags flags (bit_or (bit_or (bit_or o_rdwr o_wronly) o_create) o_trunc)
        o_append in
    let two = contains-bit_or flags flags (bit_or (bit_or o_rdwr o_wronly) o_create) o_trunc in
    let three = contains-bit_or flags flags (bit_or o_rdwr o_wronly) o_create in
    let four = contains-bit_or flags flags o_rdwr o_wronly in
    let five = contains-bit_or flags flags o_wronly o_rdwr in
    (
      ground (arith, h, one, two, three, four, five),
      ground (arith, h, one, two, three),
      ground (arith, h, one, two, three),
    )

-- What a call on a name leaves.
pub record Served {W : Type 0} (a : Answer W) : Type 0 where
  pub clean : AllClean a.fs.open_files
  pub unwritable : all_unwritable (handle_of a.value) ≡ true

module _ {W : Type 0} (u : ErrUtil) (d : DeviceClient W) (fs : AdbFileSystem)
    (clean : AllClean fs.open_files) where
  linked-Served : (r : Result Text) (w : W) → Served (linked u d fs r w)
  linked-Served (err e) w = record { clean = clean; unwritable = refl }
  linked-Served (ok []) w = record { clean = clean; unwritable = refl }
  linked-Served (ok (c ∷ t)) w = record { clean = clean; unwritable = refl }

  listed-Served : (r : Result (List DirEntry)) (w : W) → Served (listed u d fs r w)
  listed-Served (err e) w = record { clean = clean; unwritable = refl }
  listed-Served (ok es) w = record { clean = clean; unwritable = refl }

  resolved-Served : (r : Result (Text × DirEntry)) (w : W) → Served (resolved u d fs r w)
  resolved-Served (err e) w = record { clean = clean; unwritable = refl }
  resolved-Served (ok x) w = record { clean = clean; unwritable = refl }

  opened-Served :
      (flags : ℕ) (r : Result ℕ) (w : W)
      → can_write flags ≡ false
      → Served (opened u d fs flags r w)
  opened-Served flags (err e) w h = record { clean = clean; unwritable = refl }
  opened-Served flags (ok i) w h = record { clean = clean; unwritable = ground (arith, h) }

module _ {W : Type 0} (u : ErrUtil) (d : DeviceClient W) where
  create_file-Served :
      (fs : AdbFileSystem) (name : Text) (flags perms now : ℕ) (w : W)
      → AllClean fs.open_files
      → fs.config.read_only ≡ true
      → Served (create_file u d fs name flags perms now w)
  unfolding create_file
  create_file-Served fs name flags perms now w h r = elim (Bool-cases (is_write_op flags)) [
    | inl writes ↦ rw (writes, r) (record { clean = h; unwritable = refl })
    | inr none_asked ↦
        let (unwritable, c, t) = is_write_op-can_write flags none_asked in
        let o = get_or_load u d fs.open_files name flags perms now w in
        rw none_asked (
          opened-Served u d (record fs { open_files = o.files })
            (get_or_load-AllClean u d fs.open_files name flags perms now w h c t) flags o.file
            o.world unwritable)
  ]

  pub serve-Served :
      (fs : AdbFileSystem) (c : Call) (w : W)
      → AllClean fs.open_files
      → fs.config.read_only ≡ true
      → Served (serve u d fs c w)
  unfolding serve
  serve-Served fs (get_attr_of name) w h r = record { clean = h; unwritable = refl }
  serve-Served fs (open_dir_of name) w h r = listed-Served u d fs h _ _
  serve-Served fs (read_link_of name) w h r = linked-Served u d fs h _ _
  serve-Served fs (access_to name mode) w h r = elim (Bool-cases (bit_and mode w_ok == w_ok)) [
    | inl writes ↦ rw (writes, r) (record { clean = h; unwritable = refl })
    | inr asks ↦ rw asks (resolved-Served u d fs h _ _)
  ]
  serve-Served fs (make_dir name) w h r = rw r (record { clean = h; unwritable = refl })
  serve-Served fs (remove_dir name) w h r = rw r (record { clean = h; unwritable = refl })
  serve-Served fs (unlink_name name) w h r = rw r (record { clean = h; unwritable = refl })
  serve-Served fs (rename_to old_name new_name) w h r =
      rw r (record { clean = h; unwritable = refl })
  serve-Served fs (create_file_at name raw perms now) w h r =
      create_file-Served fs (to_device fs name) (create_flags raw) perms now w h r
  serve-Served fs (open_file_at name flags now) w h r =
      create_file-Served fs (to_device fs name) flags _ now w h r
  serve-Served fs unsupported w h r = record { clean = h; unwritable = refl }
