-- ===== src/AdbFileSystem/Answers.antt =====
-- adb_filesystem.go: what calls answer that are refused or fail.
use adbfs.Base.{
  ℕ, ◌≡◌, refl, Bool, true, false, ◌==◌, Text, bit_and, bit_or, arith, Bool-cases, inl, inr,
}
use adbfs.Errors.{errno, enosys, ErrUtil, IsErrUtil, to_errno, eperm, file_no_exist}
use adbfs.Device.{DeviceClient}
use adbfs.FileOpenFlags.{contains, o_rdwr, o_wronly, o_create, o_trunc, o_append}
use adbfs.FileOpenFlags.Bits.{contains-bit_or}
use adbfs.AdbFileSystem.{
  AdbFileSystem, Call, get_attr_of, open_dir_of, read_link_of, access_to, make_dir, remove_dir,
  unlink_name, rename_to, create_file_at, open_file_at, unsupported, nothing, is_write_op,
  create_file, create_flags, to_device, serve, w_ok,
}

-- Whether a call asks for a change of the device, or is one that the program does not offer: all of
-- those ask for one, but for the reading of extended attributes.
abbrev asks_write : Call → Bool
asks_write (access_to name mode) = bit_and mode w_ok == w_ok
asks_write (make_dir name) = true
asks_write (remove_dir name) = true
asks_write (unlink_name name) = true
asks_write (rename_to old_name new_name) = true
asks_write (create_file_at name raw perms now) = true
asks_write (open_file_at name flags now) = is_write_op flags
asks_write unsupported = true
asks_write _ = false

-- What they are answered with.
abbrev refusal : Call → ℕ
refusal unsupported = enosys
refusal _ = eperm

creates_writes : (flags : ℕ) → contains flags o_create ≡ true → is_write_op flags ≡ true
creates_writes flags h =
    let one =
      contains-bit_or flags flags (bit_or (bit_or (bit_or o_rdwr o_wronly) o_create) o_trunc)
        o_append in
    let two = contains-bit_or flags flags (bit_or (bit_or o_rdwr o_wronly) o_create) o_trunc in
    let three = contains-bit_or flags flags (bit_or o_rdwr o_wronly) o_create in
    ground (arith, h, one, two, three)

creates : contains (bit_or o_create o_trunc) o_create ≡ true
unfolding contains
creates = refl

create_flags-is_write_op : (raw : ℕ) → is_write_op (create_flags raw) ≡ true
create_flags-is_write_op raw =
    let flags = bit_or raw (bit_or o_create o_trunc) in
    let asked = contains-bit_or raw (bit_or o_create o_trunc) o_create o_create in
    let kept = contains-bit_or flags o_wronly o_create o_create in
    creates_writes (create_flags raw) (ground (arith, asked, kept, creates))

create_file_refused :
    {W : Type 0} (u : ErrUtil) (d : DeviceClient W) (fs : AdbFileSystem) (name : Text)
    (flags perms now : ℕ) (w : W)
    → fs.config.read_only ≡ true
    → is_write_op flags ≡ true
    → create_file u d fs name flags perms now w
      ≡ record { status = eperm; value = nothing; fs = fs; world = w }
unfolding create_file to_errno
create_file_refused u d fs name flags perms now w r writes = rw (writes, r) refl

uncoded : (u : ErrUtil) → IsErrUtil u → (n : ℕ) → u.has_err_code (errno n) file_no_exist ≡ false
uncoded u law n = elim (Bool-cases (u.has_err_code (errno n) file_no_exist)) [
  | inl h ↦ let (m, e) = law.code_foreign (errno n) file_no_exist h in absurd (cc)
  | inr h ↦ h
]

-- A filesystem that is mounted read-only refuses every call that asks for a change: Access for
-- writing, Mkdir, Rmdir, Unlink, Rename, Create and Open for writing with EPERM, and those that the
-- program does not offer, as Chmod, with ENOSYS; neither its open files nor the device change.
pub serve_refused :
    {W : Type 0} (u : ErrUtil) (d : DeviceClient W) (fs : AdbFileSystem) (c : Call) (w : W)
    → IsErrUtil u
    → fs.config.read_only ≡ true
    → asks_write c ≡ true
    → serve u d fs c w ≡ record { status = refusal c; value = nothing; fs = fs; world = w }
unfolding serve to_errno
serve_refused u d fs (access_to name mode) w law r h = rw (h, r) refl
serve_refused u d fs (make_dir name) w law r h = rw r refl
serve_refused u d fs (remove_dir name) w law r h = rw r refl
serve_refused u d fs (unlink_name name) w law r h = rw r refl
serve_refused u d fs (rename_to old_name new_name) w law r h = rw r refl
serve_refused u d fs (create_file_at name raw perms now) w law r h =
    create_file_refused u d fs (to_device fs name) (create_flags raw) perms now w r
      (create_flags-is_write_op raw)
serve_refused u d fs (open_file_at name flags now) w law r h =
    create_file_refused u d fs (to_device fs name) flags _ now w r h
serve_refused u d fs (get_attr_of name) w law r h = absurd (cc)
serve_refused u d fs (open_dir_of name) w law r h = absurd (cc)
serve_refused u d fs (read_link_of name) w law r h = absurd (cc)
serve_refused u d fs unsupported w law r h = rw (uncoded u law enosys) refl
