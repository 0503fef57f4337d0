-- ===== src/AdbFile/Data.antt =====
-- adb_file.go: what is written through an open file is read back through any other of its path, and
-- reaches the device.
use adbfs.Base.{
  ℕ, ◌+◌, ◌%◌, ◌^◌, ◌<◌, ◌≡◌, refl, sym, ap, ◌∙◌, subst, true, false, List, length, pos, done,
  Returns, Returns-map, Returns-done,
}
use adbfs.Errors.{ErrUtil, IsErrUtil}
use adbfs.Device.{DeviceClient}
use adbfs.FileOpenFlags.{can_read, can_write}
use adbfs.GrowableByteSlice.{contents}
use adbfs.GrowableByteSlice
use adbfs.GrowableByteSlice.Shape.{IsValid}
use adbfs.GrowableByteSlice.Growing.{IsClean}
use adbfs.GrowableByteSlice.Reading.{read_at-IsRead, pread, pread-pwrite}
use adbfs.GrowableByteSlice.Writing.{pwrite}
use adbfs.FileBuffer.{FileBuffer, Synced, is_dirty}
use adbfs.FileBuffer
use adbfs.FileBuffer.Saving.{sync_if_too_dirty-kept, flush_dirty}
use adbfs.FileBuffer.Editing.{IsSound, write_at-Edited}
use adbfs.AdbFile.{Reply, replied, read, write, flush}

module _ {W : Type 0} (u : ErrUtil) (d : DeviceClient W) (flags : ℕ) where
  -- `Read` with read access, at an offset that is not negative, of a buffer whose slice is valid,
  -- succeeds with as many of the bytes there as the caller's buffer holds.
  pub read-pread :
      (f : FileBuffer) (buf : List ℕ) (off : ℕ)
      → can_read flags ≡ true
      → IsValid f.buffer
      → read u d flags f buf (pos off)
        ≡ done (record { bytes = pread (length buf) off (contents f.buffer); status = 0 })
  unfolding read FileBuffer.read_at
  read-pread f buf off h v =
      let (r, e, is) =
        Returns-done (GrowableByteSlice.read_at f.buffer buf (pos off)) _
          (read_at-IsRead f.buffer buf off v) in
      rw (h, e, is.bytes)

  -- What `Write` leaves behind.
  pub record Wrote (f : FileBuffer) (off : ℕ) (bytes : List ℕ) (r : Reply W) : Type 0 where
    pub sound : IsSound r.file
    pub count : r.n ≡ length bytes % 2 ^ 32
    pub held : contents r.file.buffer ≡ pwrite off bytes (contents f.buffer)

  write-Wrote :
      (f : FileBuffer) (bytes : List ℕ) (off now later : ℕ) (w : W)
      → can_write flags ≡ true
      → IsSound f
      → 0 < now
      → off + length bytes < 2 ^ 62
      → Returns (write u d flags f bytes (pos off) now later w) (Wrote f off bytes)
  unfolding write
  write-Wrote f bytes off now later w h v ticks fits =
      let (g, e, ed) = write_at-Edited f now v ticks bytes off fits in
      rw (h, e)
        (record {
          sound = record {
            valid = subst IsValid (sym (kept g)) ed.sound.valid;
            clean = subst IsClean (sym (kept g)) ed.sound.clean;
          };
          count = refl;
          held = ap contents (kept g) ∙ ed.held;
        })
    where
      kept : (g : FileBuffer) → (FileBuffer.sync_if_too_dirty u d g later w).file.buffer ≡ g.buffer
      kept g = sync_if_too_dirty-kept u d g later w

-- What `Write` stores through a file that is open for writing, `Read` returns through any file of
-- the same path that is open for reading: after a write of bytes that end below 2 ^ 62 into a sound
-- buffer, a read of as many bytes at the same offset succeeds and returns them. This holds also if
-- the write was followed by a save that failed.
read-write :
    {W : Type 0} (u : ErrUtil) (d : DeviceClient W) (writer reader : ℕ) (f : FileBuffer)
    (bytes buf : List ℕ) (off now later : ℕ) (w : W)
    → can_write writer ≡ true
    → can_read reader ≡ true
    → IsSound f
    → 0 < now
    → off + length bytes < 2 ^ 62
    → length buf ≡ length bytes
    → Returns (write u d writer f bytes (pos off) now later w) (λ r.
      (r.n ≡ length bytes % 2 ^ 32)
      × (read u d reader r.file buf (pos off) ≡ done (record { bytes = bytes; status = 0 })))
read-write u d writer reader f bytes buf off now later w writes reads v ticks fits same =
    Returns-map (write u d writer f bytes (pos off) now later w) (Wrote u d writer f off bytes) _
      (λ r wrote. (
        wrote.count,
        read-pread u d reader r.file buf off reads wrote.sound.valid
            ∙ rw (same, wrote.held, pread-pwrite off bytes (contents f.buffer)),
      ))
      (write-Wrote u d writer f bytes off now later w writes v ticks fits)

pub flush_lem :
    {W : Type 0} (u : ErrUtil) (d : DeviceClient W) (flags : ℕ) (f : FileBuffer) (w : W)
    → can_write flags ≡ true
    → is_dirty f ≡ true
    → let s = FileBuffer.save_to_device u d f w in
      flush u d flags f w ≡ replied u d flags 0 s.failure s
unfolding flush
flush_lem u d flags f w writes set = rw (writes, flush_dirty u d f w set)

pub flush_clean :
    {W : Type 0} (u : ErrUtil) (d : DeviceClient W) (flags : ℕ) (f : FileBuffer) (w : W)
    → can_write flags ≡ true
    → is_dirty f ≡ false
    → flush u d flags f w ≡ record { n = 0; status = 0; file = f; world = w }
unfolding flush FileBuffer.flush adbfs.Errors.to_errno
flush_clean u d flags f w writes unset = rw (writes, unset) refl
