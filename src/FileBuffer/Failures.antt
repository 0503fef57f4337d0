-- ===== src/FileBuffer/Failures.antt =====
-- file_buffer.go: the errors of `saveToDevice` and `loadFromDevice`.
use adbfs.Base.{
  ℕ, ◌≡◌, refl, ap, ◌∙◌, inl, inr, Option, none, some, List, [], ◌∷◌, Option-cases, arith,
}
use adbfs.Errors.{Error, Result, ok, err, ErrUtil, IsWrapped}
use adbfs.Device.{DeviceClient, ReadAll}
use adbfs.Device.Failures.{IsForeign, FailsAsGoadb}
use adbfs.GrowableByteSlice.{contents}
use adbfs.FileBuffer.{
  FileBuffer, write_to, after_read, opened_read, load_from_device, closed_write, after_write,
  opened_write, save_to_device,
}

module _ {W : Type 0} (u : ErrUtil) (d : DeviceClient W) (fails : FailsAsGoadb d) where
  wrapped : (e : Error) → IsForeign e → IsWrapped u (some (u.wrap_err e))
  wrapped e (n, f) = inr (n, ap (λ x. some (u.wrap_err x)) f)

  write_to-IsForeign :
      (h : ℕ) (bytes : List ℕ) (w : W) (e : Error)
      → (write_to u d h bytes w).0 ≡ some e
      → IsForeign e
  unfolding write_to
  write_to-IsForeign h [] w e f = absurd (cc f)
  write_to-IsForeign h (b ∷ bytes) w e f = elim (Option-cases (d.write h (b ∷ bytes) w).0.failure) [
    | inl fine ↦
        absurd (let g = rw (fine, fails.writes_all h (b ∷ bytes) w fine) at f in ground arith)
    | inr (x, failed) ↦ fails.write_fails h (b ∷ bytes) w e (failed ∙ rw failed at f)
  ]

  closed_write-IsWrapped :
      (f : FileBuffer) (h : ℕ) (r : Option Error × W)
      → ((e : Error) → r.0 ≡ some e → IsForeign e)
      → IsWrapped u (closed_write u d f h r).failure
  unfolding closed_write
  closed_write-IsWrapped f h (none, w) k = inl refl
  closed_write-IsWrapped f h (some e, w) k = wrapped e (k e refl)

  after_write-IsWrapped :
      (f : FileBuffer) (h : ℕ) (r : Option Error × W)
      → ((e : Error) → r.0 ≡ some e → IsForeign e)
      → IsWrapped u (after_write u d f h r).failure
  unfolding after_write
  after_write-IsWrapped f h (none, w) k =
      closed_write-IsWrapped f h (d.close_writer h w) (fails.close_writer_fails h w)
  after_write-IsWrapped f h (some e, w) k = wrapped e (k e refl)

  opened_write-IsWrapped :
      (f : FileBuffer) (r : Result ℕ × W)
      → ((e : Error) → r.0 ≡ err e → IsForeign e)
      → IsWrapped u (opened_write u d f r).failure
  unfolding opened_write
  opened_write-IsWrapped f (ok h, w) k =
      after_write-IsWrapped f h (write_to u d h (contents f.buffer) w)
        (write_to-IsForeign h (contents f.buffer) w)
  opened_write-IsWrapped f (err e, w) k = wrapped e (k e refl)

  pub save_to_device-IsWrapped :
      (f : FileBuffer) (w : W) → IsWrapped u (save_to_device u d f w).failure
  unfolding save_to_device
  save_to_device-IsWrapped f w =
      opened_write-IsWrapped f (d.open_write f.path f.perms w)
        (fails.open_write_fails f.path f.perms w)

  after_read-IsWrapped :
      (f : FileBuffer) (h : ℕ) (r : ReadAll × W)
      → ((e : Error) → r.0.failure ≡ some e → IsForeign e)
      → IsWrapped u (after_read u d f h r).failure
  unfolding after_read
  after_read-IsWrapped f h (r, w) k = elim (Option-cases r.failure) [
    | inl fine ↦ rw fine (inl refl)
    | inr (e, failed) ↦ rw failed (wrapped e (k e failed))
  ]

  opened_read-IsWrapped :
      (f : FileBuffer) (r : Result ℕ × W)
      → ((e : Error) → r.0 ≡ err e → IsForeign e)
      → IsWrapped u (opened_read u d f r).failure
  unfolding opened_read
  opened_read-IsWrapped f (ok h, w) k =
      after_read-IsWrapped f h (d.read_all h w) (fails.read_all_fails h w)
  opened_read-IsWrapped f (err e, w) k = wrapped e (k e refl)

  pub load_from_device-IsWrapped :
      (f : FileBuffer) (w : W) → IsWrapped u (load_from_device u d f w).failure
  unfolding load_from_device
  load_from_device-IsWrapped f w =
      opened_read-IsWrapped f (d.open_read f.path w) (fails.open_read_fails f.path w)
