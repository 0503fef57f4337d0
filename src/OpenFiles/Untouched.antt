-- ===== src/OpenFiles/Untouched.antt =====
-- open_files.go: opening a file as it is only reads the device.
use adbfs.Base.{ℕ, ◌≡◌, refl, ap, ◌∙◌, false, Text, Option-cases, inl, inr}
use adbfs.Errors.{Result, ok, err, ErrUtil}
use adbfs.Device.{DeviceClient}
use adbfs.Device.Reads.{Reads}
use adbfs.FileOpenFlags.{contains, o_create, o_trunc}
use adbfs.FileBuffer.{FileBuffer, new_file_buffer}
use adbfs.FileBuffer.Untouched.{new_file_buffer-view}
use adbfs.OpenFiles.{OpenFiles, loaded, get_or_load}

module _ {W A : Type 0} (u : ErrUtil) (d : DeviceClient W) (view : W → A)
    (reads : Reads d view) where
  loaded-world :
      (o : OpenFiles) (path : Text) (r : Result FileBuffer × W) → (loaded u d o path r).world ≡ r.1
  unfolding loaded
  loaded-world o path (err e, w) = refl
  loaded-world o path (ok f, w) = refl

  pub get_or_load-view :
      (o : OpenFiles) (path : Text) (flags perms now : ℕ) (w : W)
      → contains flags o_create ≡ false
      → contains flags o_trunc ≡ false
      → view (get_or_load u d o path flags perms now w).world ≡ view w
  unfolding get_or_load
  get_or_load-view o path flags perms now w c t = elim (Option-cases (o.by_path path)) [
    | inr (i, e) ↦ rw (e, get_or_load) refl
    | inl e ↦
        rw (e, get_or_load)
          (ap view
              (loaded-world o path (new_file_buffer u d flags path perms o.dirty_timeout now w))
            ∙ new_file_buffer-view u d view reads flags path perms o.dirty_timeout now w c t)
  ]
