-- ===== src/FileBuffer/Untouched.antt =====
-- file_buffer.go: opening a file as it is, and loading it, only read the device.
use adbfs.Base.{
  ℕ, ◌≡◌, refl, ap, ◌∙◌, false, if◌then◌else◌, ◌==◌, Text, arith, Bool-cases, Option-cases, not,
  inl, inr, bit_or, ◌&&◌,
}
use adbfs.Errors.{Result, ok, err, ErrUtil}
use adbfs.Device.{DeviceClient}
use adbfs.Device.Reads.{Reads}
use adbfs.DirtyTimestamp.{is_set, new_dirty_timestamp}
use adbfs.FileOpenFlags.{contains, can_write, o_create, o_trunc, o_append}
use adbfs.FileBuffer.{
  FileBuffer, Synced, is_dirty, fresh, after_read, opened_read, load_from_device, sync,
  get_file_permissions, initialize_with, with_permissions, initialize, made, new_file_buffer,
  dont_set_perms,
}

pub fresh_clean : (path : Text) (perms timeout : ℕ) → is_dirty (fresh path perms timeout) ≡ false
unfolding is_dirty is_set fresh new_dirty_timestamp
fresh_clean path perms timeout = refl

module _ {W A : Type 0} (u : ErrUtil) (d : DeviceClient W) (view : W → A)
    (reads : Reads d view) where
  made-world : (s : Synced W) → (made u d s).1 ≡ s.world
  unfolding made
  made-world s = elim (Option-cases s.failure) [ inl e ↦ rw (e, made) | inr (x, e) ↦ rw (e, made) ]

  opened_read-view :
      (f : FileBuffer) (r : Result ℕ × W) → view (opened_read u d f r).world ≡ view r.1
  unfolding opened_read after_read
  opened_read-view f (err e, w) = refl
  opened_read-view f (ok h, w) =
      reads.keep_close_reader h (d.read_all h w).1 ∙ reads.keep_read_all h w

  pub load_from_device-view :
      (f : FileBuffer) (w : W) → view (load_from_device u d f w).world ≡ view w
  unfolding load_from_device
  load_from_device-view f w =
      opened_read-view f (d.open_read f.path w) ∙ reads.keep_open_read f.path w

  pub sync_clean-view :
      (f : FileBuffer) (w : W) → is_dirty f ≡ false → view (sync u d f w).world ≡ view w
  unfolding sync
  sync_clean-view f w clean = rw clean (load_from_device-view f w)

  with_permissions-view :
      (f : FileBuffer) (flags now : ℕ) (r : Result ℕ × W)
      → is_dirty f ≡ false
      → contains flags o_create ≡ false
      → contains flags o_trunc ≡ false
      → view (with_permissions u d f flags now r).world ≡ view r.1
  unfolding with_permissions initialize_with is_dirty
  with_permissions-view f flags now (err e, w) clean c t = ground (arith, c)
  with_permissions-view f flags now (ok p, w) clean c t = rw t (
      sync_clean-view (record f { perms = if f.perms == dont_set_perms then p else f.perms }) w
        clean)

  initialize-view :
      (f : FileBuffer) (flags now : ℕ) (w : W)
      → is_dirty f ≡ false
      → contains flags o_create ≡ false
      → contains flags o_trunc ≡ false
      → view (initialize u d f flags now w).world ≡ view w
  unfolding initialize get_file_permissions
  initialize-view f flags now w clean c t =
      elim (Bool-cases
        (contains flags (bit_or (bit_or o_create o_trunc) o_append) && not (can_write flags))) [
          | inl refused ↦ rw refused refl
          | inr fine ↦ rw fine (
              with_permissions-view f flags now (get_file_permissions u d f w) clean c t
              ∙ reads.keep_stat f.path w)
        ]

  -- `NewFileBuffer` without `O_CREATE` and `O_TRUNC`.
  pub new_file_buffer-view :
      (flags : ℕ) (path : Text) (perms timeout now : ℕ) (w : W)
      → contains flags o_create ≡ false
      → contains flags o_trunc ≡ false
      → view (new_file_buffer u d flags path perms timeout now w).1 ≡ view w
  unfolding new_file_buffer
  new_file_buffer-view flags path perms timeout now w c t =
      let f = fresh path perms timeout in
      ap view (made-world (initialize u d f flags now w))
      ∙ initialize-view f flags now w (fresh_clean path perms timeout) c t
