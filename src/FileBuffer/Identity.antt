-- ===== src/FileBuffer/Identity.antt =====
-- file_buffer.go: no operation on the device changes which file a buffer is of, or how many are open
-- on it.
use adbfs.Base.{ℕ, ◌≡◌, refl, Bool, ◌||◌, true, false, Text, pos, arith, Bool-cases, inl, inr}
use adbfs.Errors.{Result, ok, err, ErrUtil}
use adbfs.Device.{DeviceClient}
use adbfs.FileOpenFlags.{contains, o_trunc}
use adbfs.FileBuffer.{
  FileBuffer, Synced, fresh, opened_read, load_from_device, save_to_device, sync, initialize_with,
  with_permissions, initialize, made, new_file_buffer, get_file_permissions,
}
use adbfs.FileBuffer.Saving.{IsSave, save_to_device-IsSave}

abbrev Same : FileBuffer → FileBuffer → Type 0
Same f g = (g.path ≡ f.path) × (g.ref_count ≡ f.ref_count)

module _ {W : Type 0} (u : ErrUtil) (d : DeviceClient W) where
  opened_read-Same : (f : FileBuffer) (r : Result ℕ × W) → Same f (opened_read u d f r).file
  unfolding opened_read
  opened_read-Same f (ok h, w) = (refl, refl)
  opened_read-Same f (err e, w) = (refl, refl)

  load-Same : (f : FileBuffer) (w : W) → Same f (load_from_device u d f w).file
  unfolding load_from_device
  load-Same f w = opened_read-Same f (d.open_read f.path w)

  save-Same : (f : FileBuffer) (s : Synced W) → IsSave u f s → Same f s.file
  save-Same f s v = ground arith

  sync-Same : (f : FileBuffer) (w : W) → Same f (sync u d f w).file
  unfolding sync
  sync-Same f w =
      ground
        (arith, load-Same f w, save-Same f (save_to_device u d f w) (save_to_device-IsSave u d f w))

  initialize_with-Same :
      (create_new : Bool) (current : ℕ) (f : FileBuffer) (flags now : ℕ) (w : W)
      → Same f (initialize_with u d create_new current f flags now w).file
  unfolding initialize_with
  initialize_with-Same create_new current f flags now w =
      elim (Bool-cases (create_new || contains flags o_trunc)) [
        | inl e ↦ rw e (sync-Same _ w)
        | inr e ↦ rw e (sync-Same _ w)
      ]

  with_permissions-Same :
      (f : FileBuffer) (flags now : ℕ) (r : Result ℕ × W)
      → Same f (with_permissions u d f flags now r).file
  unfolding with_permissions
  with_permissions-Same f flags now (ok p, w) = initialize_with-Same false p f flags now w
  with_permissions-Same f flags now (err e, w) =
      ground (arith, initialize_with-Same true 0o664 f flags now w)

  initialize-Same :
      (f : FileBuffer) (flags now : ℕ) (w : W) → Same f (initialize u d f flags now w).file
  unfolding initialize
  initialize-Same f flags now w =
      ground (arith, with_permissions-Same f flags now (get_file_permissions u d f w))

  -- A new buffer is of the path asked for, and no file is open on it yet.
  pub new_file_buffer-Same :
      (flags : ℕ) (path : Text) (perms timeout now : ℕ) (w : W) (f : FileBuffer)
      → (new_file_buffer u d flags path perms timeout now w).0 ≡ ok f
      → (f.path ≡ path) × (f.ref_count ≡ pos 0)
  unfolding new_file_buffer made fresh
  new_file_buffer-Same flags path perms timeout now w f e =
      ground (arith, initialize-Same (fresh path perms timeout) flags now w)
