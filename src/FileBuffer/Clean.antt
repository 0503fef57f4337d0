-- ===== src/FileBuffer/Clean.antt =====
-- file_buffer.go: a buffer that is opened as its file is, and loaded, is not dirty.
use adbfs.Base.{
  ℕ, ◌≡◌, refl, ap, sym, ◌∙◌, false, if◌then◌else◌, ◌==◌, Text, arith, Bool-cases, Option-cases,
  not, inl, inr, bit_or, ◌&&◌, ℤ, done,
}
use adbfs.Errors.{Result, ok, err, ErrUtil}
use adbfs.Device.{DeviceClient}
use adbfs.FileOpenFlags.{contains, can_write, o_create, o_trunc, o_append}
use adbfs.FileBuffer.{
  FileBuffer, Synced, is_dirty, fresh, after_read, opened_read, load_from_device, sync,
  get_file_permissions, initialize_with, with_permissions, initialize, made, new_file_buffer,
  dont_set_perms, inc_ref_count, dec_ref_count,
}
use adbfs.FileBuffer.Untouched.{fresh_clean}

module _ {W : Type 0} (u : ErrUtil) (d : DeviceClient W) where
  opened_read-is_dirty :
      (f : FileBuffer) (r : Result ℕ × W) → is_dirty (opened_read u d f r).file ≡ is_dirty f
  unfolding opened_read after_read is_dirty
  opened_read-is_dirty f (err e, w) = refl
  opened_read-is_dirty f (ok h, w) = refl

  pub sync-is_dirty :
      (f : FileBuffer) (w : W) → is_dirty f ≡ false → is_dirty (sync u d f w).file ≡ false
  unfolding sync load_from_device
  sync-is_dirty f w clean = rw clean (opened_read-is_dirty f (d.open_read f.path w) ∙ clean)

  with_permissions-is_dirty :
      (f : FileBuffer) (flags now : ℕ) (r : Result ℕ × W)
      → is_dirty f ≡ false
      → contains flags o_create ≡ false
      → contains flags o_trunc ≡ false
      → is_dirty (with_permissions u d f flags now r).file ≡ false
  unfolding with_permissions initialize_with is_dirty
  with_permissions-is_dirty f flags now (err e, w) clean c t = ground (arith, c, clean)
  with_permissions-is_dirty f flags now (ok p, w) clean c t = rw t (
      sync-is_dirty (record f { perms = if f.perms == dont_set_perms then p else f.perms }) w clean)

  initialize-is_dirty :
      (f : FileBuffer) (flags now : ℕ) (w : W)
      → is_dirty f ≡ false
      → contains flags o_create ≡ false
      → contains flags o_trunc ≡ false
      → is_dirty (initialize u d f flags now w).file ≡ false
  unfolding initialize
  initialize-is_dirty f flags now w clean c t =
      elim (Bool-cases
        (contains flags (bit_or (bit_or o_create o_trunc) o_append) && not (can_write flags))) [
          | inl refused ↦ rw refused clean
          | inr fine ↦
              rw fine
                (with_permissions-is_dirty f flags now (get_file_permissions u d f w) clean c t)
        ]

  made_ok : (s : Synced W) (f : FileBuffer) → (made u d s).0 ≡ ok f → s.file ≡ f
  unfolding made
  made_ok s f e = elim (Option-cases s.failure) [
    | inl fine ↦
        let made_it : ◌≡◌ {A = Result FileBuffer} (ok s.file) (ok f) = rw (fine, made) at e in cc
    | inr (x, failed) ↦ absurd (let no = rw (failed, made) at e in cc)
  ]

  pub new_file_buffer-is_dirty :
      (flags : ℕ) (path : Text) (perms timeout now : ℕ) (w : W) (f : FileBuffer)
      → contains flags o_create ≡ false
      → contains flags o_trunc ≡ false
      → (new_file_buffer u d flags path perms timeout now w).0 ≡ ok f
      → is_dirty f ≡ false
  unfolding new_file_buffer
  new_file_buffer-is_dirty flags path perms timeout now w f c t e =
      let g = fresh path perms timeout in
      ap is_dirty (sym (made_ok (initialize u d g flags now w) f e))
      ∙ initialize-is_dirty g flags now w (fresh_clean path perms timeout) c t

pub inc_ref_count-is_dirty : (f : FileBuffer) → is_dirty (inc_ref_count f).0 ≡ is_dirty f
unfolding inc_ref_count is_dirty
inc_ref_count-is_dirty f = refl

pub dec_ref_count-is_dirty :
    (f g : FileBuffer) (n : ℤ) → dec_ref_count f ≡ done (g, n) → is_dirty g ≡ is_dirty f
unfolding dec_ref_count is_dirty
dec_ref_count-is_dirty f g n e = ground arith
