-- ===== src/AdbFileSystem/ReadOnly.antt =====
-- adb_filesystem.go: a filesystem that is mounted read-only only reads the device.
use adbfs.Base.{
  ℕ, ◌≡◌, refl, ap, ◌∙◌, true, false, ◌&&◌, ◌==◌, List, [], ◌∷◌, Text, bit_and, bit_or, arith,
  Bool-cases, inl, inr,
}
use adbfs.Errors.{Result, ok, err, ErrUtil}
use adbfs.Device.{DeviceClient, DirEntry}
use adbfs.Device.Reads.{Reads}
use adbfs.FileOpenFlags.{contains, o_rdwr, o_wronly, o_create, o_trunc, o_append}
use adbfs.FileOpenFlags.Bits.{contains-bit_or}
use adbfs.OpenFiles.Untouched.{get_or_load-view}
use adbfs.OpenFiles.{get_or_load}
use adbfs.Links.Untouched.{read_link-view, read_link_recursively-view}
use adbfs.Attributes.{get_attr}
use adbfs.AdbFileSystem.{
  AdbFileSystem, Call, get_attr_of, open_dir_of, read_link_of, access_to, make_dir, remove_dir,
  unlink_name, rename_to, create_file_at, open_file_at, unsupported, linked, listed, resolved,
  opened, is_write_op, create_file, create_flags, to_device, serve, serve_all, w_ok,
}

is_write_op_lem :
    (flags : ℕ)
    → is_write_op flags ≡ false
    → (contains flags o_create ≡ false) × (contains flags o_trunc ≡ false)
is_write_op_lem flags h =
    let one =
      contains-bit_or flags flags (bit_or (bit_or (bit_or o_rdwr o_wronly) o_create) o_trunc)
        o_append in
    let two = contains-bit_or flags flags (bit_or (bit_or o_rdwr o_wronly) o_create) o_trunc in
    let three = contains-bit_or flags flags (bit_or o_rdwr o_wronly) o_create in
    ground (arith, h, one, two, three)

-- A call leaves the configuration alone, so that it stays read-only.
module _ {W : Type 0} (u : ErrUtil) (d : DeviceClient W) (fs : AdbFileSystem) where
  linked-config : (r : Result Text) (w : W) → (linked u d fs r w).fs.config ≡ fs.config
  linked-config (err e) w = refl
  linked-config (ok []) w = refl
  linked-config (ok (c ∷ t)) w = refl

  listed-config : (r : Result (List DirEntry)) (w : W) → (listed u d fs r w).fs.config ≡ fs.config
  listed-config (err e) w = refl
  listed-config (ok es) w = refl

  resolved-config :
      (r : Result (Text × DirEntry)) (w : W) → (resolved u d fs r w).fs.config ≡ fs.config
  resolved-config (err e) w = refl
  resolved-config (ok x) w = refl

  opened-config :
      (flags : ℕ) (r : Result ℕ) (w : W) → (opened u d fs flags r w).fs.config ≡ fs.config
  opened-config flags (ok i) w = refl
  opened-config flags (err e) w = refl

create_file-config :
    {W : Type 0} (u : ErrUtil) (d : DeviceClient W) (fs : AdbFileSystem) (name : Text)
    (flags perms now : ℕ) (w : W)
    → (create_file u d fs name flags perms now w).fs.config ≡ fs.config
unfolding create_file
create_file-config u d fs name flags perms now w =
    let r = get_or_load u d fs.open_files name flags perms now w in
    elim (Bool-cases (is_write_op flags && fs.config.read_only)) [
      | inl refused ↦ rw refused refl
      | inr fine ↦
          rw fine (opened-config u d (record fs { open_files = r.files }) flags r.file r.world)
    ]

pub serve-config :
    {W : Type 0} (u : ErrUtil) (d : DeviceClient W) (fs : AdbFileSystem) (c : Call) (w : W)
    → (serve u d fs c w).fs.config ≡ fs.config
unfolding serve
serve-config u d fs (get_attr_of name) w = refl
serve-config u d fs (open_dir_of name) w = listed-config u d fs _ _
serve-config u d fs (read_link_of name) w = linked-config u d fs _ _
serve-config u d fs (access_to name mode) w =
    elim (Bool-cases (bit_and mode w_ok == w_ok && fs.config.read_only)) [
      | inl refused ↦ rw refused refl
      | inr fine ↦ rw fine (resolved-config u d fs _ _)
    ]
serve-config u d fs (make_dir name) w = ground arith
serve-config u d fs (remove_dir name) w = ground arith
serve-config u d fs (unlink_name name) w = ground arith
serve-config u d fs (rename_to old_name new_name) w = ground arith
serve-config u d fs (create_file_at name raw perms now) w =
    create_file-config u d fs (to_device fs name) (create_flags raw) perms now w
serve-config u d fs (open_file_at name flags now) w =
    create_file-config u d fs (to_device fs name) flags _ now w
serve-config u d fs unsupported w = refl

module _ {W A : Type 0} (u : ErrUtil) (d : DeviceClient W) (view : W → A)
    (reads : Reads d view) where
  opened-world :
      (fs : AdbFileSystem) (flags : ℕ) (r : Result ℕ) (w : W) → (opened u d fs flags r w).world ≡ w
  opened-world fs flags (ok i) w = refl
  opened-world fs flags (err e) w = refl

  create_file-view :
      (fs : AdbFileSystem) (name : Text) (flags perms now : ℕ) (w : W)
      → fs.config.read_only ≡ true
      → view (create_file u d fs name flags perms now w).world ≡ view w
  unfolding create_file
  create_file-view fs name flags perms now w r = elim (Bool-cases (is_write_op flags)) [
    | inl writes ↦ rw (writes, r) refl
    | inr none_asked ↦
        let (c, t) = is_write_op_lem flags none_asked in
        rw (none_asked, r)
          (ap view (opened-world _ flags _ _)
            ∙ get_or_load-view u d view reads fs.open_files name flags perms now w c t)
  ]

  linked-world : (fs : AdbFileSystem) (r : Result Text) (w : W) → (linked u d fs r w).world ≡ w
  linked-world fs (err e) w = refl
  linked-world fs (ok []) w = refl
  linked-world fs (ok (c ∷ t)) w = refl

  listed-world :
      (fs : AdbFileSystem) (r : Result (List DirEntry)) (w : W) → (listed u d fs r w).world ≡ w
  listed-world fs (err e) w = refl
  listed-world fs (ok es) w = refl

  resolved-world :
      (fs : AdbFileSystem) (r : Result (Text × DirEntry)) (w : W) → (resolved u d fs r w).world ≡ w
  resolved-world fs (err e) w = refl
  resolved-world fs (ok x) w = refl

  pub serve-view :
      (fs : AdbFileSystem) (c : Call) (w : W)
      → fs.config.read_only ≡ true
      → view (serve u d fs c w).world ≡ view w
  unfolding serve get_attr
  serve-view fs (get_attr_of name) w r = reads.keep_stat (to_device fs name) w
  serve-view fs (open_dir_of name) w r =
      ap view (listed-world fs _ _) ∙ reads.keep_list_dir_entries (to_device fs name) w
  serve-view fs (read_link_of name) w r =
      ap view (linked-world fs _ _) ∙ read_link-view u d view reads (to_device fs name) w
  serve-view fs (access_to name mode) w r = elim (Bool-cases (bit_and mode w_ok == w_ok)) [
    | inl writes ↦ rw (writes, r) refl
    | inr asks ↦ rw asks (
        ap view (resolved-world fs _ _)
        ∙ read_link_recursively-view u d view reads (to_device fs name) w)
  ]
  serve-view fs (make_dir name) w r = rw r refl
  serve-view fs (remove_dir name) w r = rw r refl
  serve-view fs (unlink_name name) w r = rw r refl
  serve-view fs (rename_to old_name new_name) w r = rw r refl
  serve-view fs (create_file_at name raw perms now) w r =
      create_file-view fs (to_device fs name) (create_flags raw) perms now w r
  serve-view fs (open_file_at name flags now) w r =
      create_file-view fs (to_device fs name) flags _ now w r
  serve-view fs unsupported w r = refl

  -- On a device whose reading calls do not change what is seen of it, no sequence of calls to a
  -- filesystem that is mounted read-only changes that.
  serve_all-view :
      (fs : AdbFileSystem) (cs : List Call) (w : W)
      → fs.config.read_only ≡ true
      → view (serve_all u d fs cs w).1 ≡ view w
  unfolding serve_all
  serve_all-view fs [] w r = refl
  serve_all-view fs (c ∷ cs) w r =
      serve_all-view (serve u d fs c w).fs cs (serve u d fs c w).world
        (ap (λ k. k.read_only) (serve-config u d fs c w) ∙ r)
      ∙ serve-view fs c w r
