-- ===== src/AdbFile.antt =====
-- adb_file.go: the operations of one open file, over its flags and the buffer that it shares with
-- the other open files of its path. `Release` stands with the open files, `GetAttr` with the
-- sessions of the filesystem. A status is an errno, 0 for success.
pub mod Guards
pub mod Data
pub mod Ideal
mod Tests
use adbfs.Base.{
  ℕ, ◌%◌, ◌^◌, Bool, if◌then◌else◌, Option, none, some, List, [], take, length, ℤ, pos, int64,
  Outcome, done, panic, ◌>>=◌,
}
use mathlib.Core.Option
use adbfs.Errors.{Error, ErrUtil, not_permitted, to_errno}
use adbfs.Device.{DeviceClient}
use adbfs.FileOpenFlags.{can_read, can_write}
use adbfs.FileBuffer.{FileBuffer, Synced}
use adbfs.FileBuffer

-- What `Read` returns: the bytes, none with an error, and the status.
pub record ReadReply : Type 0 where
  pub bytes : List ℕ
  pub status : ℕ

-- What an operation returns and leaves behind; `n` is the count that `Write` returns.
pub record Reply (W : Type 0) : Type 0 where
  pub n : ℕ
  pub status : ℕ
  pub file : FileBuffer
  pub world : W

module _ {W : Type 0} (u : ErrUtil) (d : DeviceClient W) (flags : ℕ) where
  pub read : FileBuffer → List ℕ → ℤ → Outcome ReadReply
  read f buf off =
      if can_read flags
      then (FileBuffer.read_at f buf off >>= λ r.
          done (record { bytes = take r.n r.buf; status = 0 }))
      else done (record { bytes = []; status = to_errno u (some not_permitted) })

  abbrev denied : FileBuffer → W → Reply W
  denied f w = record { n = 0; status = to_errno u (some not_permitted); file = f; world = w }

  abbrev replied : ℕ → Option Error → Synced W → Reply W
  replied n e s = record { n = n; status = to_errno u e; file = s.file; world = s.world }

  -- The two times are the clock's readings when the buffer is marked and when the timeout is tested.
  pub write : FileBuffer → List ℕ → ℤ → ℕ → ℕ → W → Outcome (Reply W)
  write f bytes off now later w =
      if can_write flags
      then (FileBuffer.write_at f bytes off now >>= λ (g, n).
          let s = FileBuffer.sync_if_too_dirty u d g later w in
          done (replied (n % 2 ^ 32) (Option.map u.wrap_err s.failure) s))
      else done (denied f w)

  pub fsync : FileBuffer → W → Reply W
  fsync f w = let s = FileBuffer.sync u d f w in replied 0 s.failure s

  pub flush : FileBuffer → W → Reply W
  flush f w =
      if can_write flags
      then (let s = FileBuffer.flush u d f w in replied 0 s.failure s)
      else record { n = 0; status = 0; file = f; world = w }

  -- The size is a `uint64`, which is converted to `int64`.
  pub truncate : FileBuffer → ℕ → ℕ → W → Outcome (Reply W)
  truncate f size now w =
      if can_write flags
      then (FileBuffer.set_size f (int64 (pos size)) now >>= λ g.
          let s = FileBuffer.sync u d g w in done (replied 0 s.failure s))
      else done (denied f w)
