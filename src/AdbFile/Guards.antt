-- ===== src/AdbFile/Guards.antt =====
-- adb_file.go: what the open flags forbid.
use adbfs.Base.{ℕ, ◌≡◌, refl, false, List, ℤ, done}
use adbfs.Errors.{ErrUtil, to_errno, eperm}
use adbfs.Device.{DeviceClient}
use adbfs.FileOpenFlags.{can_write}
use adbfs.FileBuffer.{FileBuffer, sync}
use adbfs.AdbFile.{write, fsync, flush, truncate}

-- Without write access `Write` and `Truncate` return EPERM and `Flush` returns success, and none of
-- the three touches the buffer or the device, whatever the arguments.
pub access_denied :
    {W : Type 0} (u : ErrUtil) (d : DeviceClient W) (flags : ℕ) (f : FileBuffer) (w : W)
    → can_write flags ≡ false
    → ((bytes : List ℕ) (off : ℤ) (now later : ℕ)
        → write u d flags f bytes off now later w
          ≡ done (record { n = 0; status = eperm; file = f; world = w }))
      × ((size now : ℕ)
          → truncate u d flags f size now w
            ≡ done (record { n = 0; status = eperm; file = f; world = w }))
      × (flush u d flags f w ≡ record { n = 0; status = 0; file = f; world = w })
unfolding write flush truncate to_errno
access_denied u d flags f w h = (λ bytes off now later. rw h, λ size now. rw h, rw h)

-- `Fsync` needs no write access.
pub fsync-sync :
    {W : Type 0} (u : ErrUtil) (d : DeviceClient W) (flags : ℕ) (f : FileBuffer) (w : W)
    → ((fsync u d flags f w).file ≡ (sync u d f w).file)
      × ((fsync u d flags f w).world ≡ (sync u d f w).world)
unfolding fsync
fsync-sync u d flags f w = (refl, refl)
