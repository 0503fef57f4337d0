-- ===== src/FileBuffer.antt =====
-- file_buffer.go. The mutex makes each operation one step, so an operation is a function from the
-- buffer and the device's state to the new ones. The reading of the clock is an argument.
pub mod Saving
pub mod Failures
pub mod Opening
pub mod Editing
pub mod Identity
pub mod Untouched
pub mod Clean
mod Tests
use adbfs.Base.{
  ℕ, ◌^◌, ◌≡◌, Bool, true, false, if◌then◌else◌, ◌==◌, ltb, ltb_ℤ, ◌&&◌, ◌||◌, not, Option, none,
  some, List, [], ◌∷◌, length, Text, ℤ, pos, negsuc, ◌+ℤ◌, int32, Outcome, done, panic, ◌>>=◌,
  bit_or, bit_and,
}
use mathlib.Core.Option
use adbfs.Errors.{Error, Result, ok, err, ErrUtil, not_permitted, file_no_exist}
use adbfs.Errors
use adbfs.Device.{DeviceClient, DirEntry, ReadAll, WriteResult}
use adbfs.DirtyTimestamp.{DirtyTimestamp, is_set, new_dirty_timestamp}
use adbfs.DirtyTimestamp
use adbfs.FileOpenFlags.{contains, can_write, o_create, o_trunc, o_append}
use adbfs.GrowableByteSlice.{GrowableByteSlice, read_from, contents}
use adbfs.GrowableByteSlice

abbrev pub default_file_permissions : ℕ
default_file_permissions = 0o664

-- `os.FileMode(0)`, of adb_file.go.
abbrev pub dont_set_perms : ℕ
dont_set_perms = 0

pub record FileBuffer : Type 0 where
  pub path : Text
  pub dirty_timeout : ℕ
  pub perms : ℕ
  pub ref_count : ℤ
  pub buffer : GrowableByteSlice
  pub dirty : DirtyTimestamp

unfoldable pub is_dirty : FileBuffer → Bool
unfolding DirtyTimestamp.is_set
is_dirty f = DirtyTimestamp.is_set f.dirty

-- What an operation that talks to the device leaves behind: its error, the buffer and the device.
pub record Synced (W : Type 0) : Type 0 where
  pub failure : Option Error
  pub file : FileBuffer
  pub world : W

-- The buffer that `NewFileBuffer` starts from.
unfoldable pub fresh : Text → ℕ → ℕ → FileBuffer
fresh path perms dirty_timeout = record {
  path = path;
  dirty_timeout = dirty_timeout;
  perms = perms;
  ref_count = pos 0;
  buffer = GrowableByteSlice.empty;
  dirty = new_dirty_timestamp;
}

module _ {W : Type 0} (u : ErrUtil) (d : DeviceClient W) where
  -- `io.Copy(w, bytes.NewReader(s.data))`: one write, none if there is nothing to write, and a
  -- short write is an error of its own.
  pub write_to : ℕ → List ℕ → W → Option Error × W
  write_to h [] w = (none, w)
  write_to h (b ∷ bytes) w =
      let (r, w1) = d.write h (b ∷ bytes) w in
      (
        elim r.failure [
          | some e ↦ some e
          | none ↦ if r.n == length (b ∷ bytes) then none else some Error.short_write
        ],
        w1,
      )

  -- The stream is closed on return, and its error ignored.
  unfoldable pub after_read : FileBuffer → ℕ → ReadAll × W → Synced W
  after_read f h (r, w) = record {
    failure = Option.map u.wrap_err r.failure;
    file = record f { buffer = read_from r.bytes r.spare };
    world = d.close_reader h w;
  }

  unfoldable pub opened_read : FileBuffer → Result ℕ × W → Synced W
  unfolding after_read
  opened_read f (err e, w) = record { failure = some (u.wrap_err e); file = f; world = w }
  opened_read f (ok h, w) = after_read f h (d.read_all h w)

  unfoldable pub load_from_device : FileBuffer → W → Synced W
  unfolding opened_read
  load_from_device f w = opened_read f (d.open_read f.path w)

  -- The deferred second close of the writer.
  closed_write : FileBuffer → ℕ → Option Error × W → Synced W
  closed_write f h (some e, w) = record {
    failure = some (u.wrap_err e);
    file = f;
    world = (d.close_writer h w).1;
  }
  closed_write f h (none, w) = record {
    failure = none;
    file = record f { dirty = DirtyTimestamp.clear f.dirty };
    world = (d.close_writer h w).1;
  }

  after_write : FileBuffer → ℕ → Option Error × W → Synced W
  unfolding closed_write
  after_write f h (some e, w) = record {
    failure = some (u.wrap_err e);
    file = f;
    world = (d.close_writer h w).1;
  }
  after_write f h (none, w) = closed_write f h (d.close_writer h w)

  opened_write : FileBuffer → Result ℕ × W → Synced W
  unfolding after_write write_to
  opened_write f (err e, w) = record { failure = some (u.wrap_err e); file = f; world = w }
  opened_write f (ok h, w) = after_write f h (write_to h (contents f.buffer) w)

  unfoldable pub save_to_device : FileBuffer → W → Synced W
  unfolding opened_write
  save_to_device f w = opened_write f (d.open_write f.path f.perms w)

  unfoldable pub sync : FileBuffer → W → Synced W
  sync f w = if is_dirty f then save_to_device f w else load_from_device f w

  unfoldable pub flush : FileBuffer → W → Synced W
  flush f w =
      if is_dirty f then save_to_device f w else record { failure = none; file = f; world = w }

  pub sync_if_too_dirty : FileBuffer → ℕ → W → Synced W
  sync_if_too_dirty f now w =
      if DirtyTimestamp.has_been_dirty_for f.dirty f.dirty_timeout now
      then save_to_device f w
      else record { failure = none; file = f; world = w }

  -- `entry.Mode.Perm()` keeps the nine permission bits.
  pub get_file_permissions : FileBuffer → W → Result ℕ × W
  get_file_permissions f w =
      let (r, w1) = d.stat f.path w in
      (elim r [ ok entry ↦ ok (bit_and entry.mode 0o777) | err e ↦ err (u.wrap_err e) ], w1)

  -- The rest of `initialize`, once it is known whether the file is new and which permissions it has.
  -- The error of the first load or save is dropped.
  pub initialize_with : Bool → ℕ → FileBuffer → ℕ → ℕ → W → Synced W
  initialize_with create_new current f flags now w =
      let g = record f { perms = if f.perms == dont_set_perms then current else f.perms } in
      let h =
        if create_new || contains flags o_trunc
        then record g { dirty = DirtyTimestamp.set g.dirty now }
        else g in
      let s = sync h w in record { failure = none; file = s.file; world = s.world }

  pub with_permissions : FileBuffer → ℕ → ℕ → Result ℕ × W → Synced W
  unfolding initialize_with
  with_permissions f flags now (ok current, w) = initialize_with false current f flags now w
  with_permissions f flags now (err e, w) =
      if u.has_err_code e file_no_exist && contains flags o_create
      then initialize_with true default_file_permissions f flags now w
      else record { failure = some e; file = f; world = w }

  pub initialize : FileBuffer → ℕ → ℕ → W → Synced W
  unfolding with_permissions
  initialize f flags now w =
      if contains flags (bit_or (bit_or o_create o_trunc) o_append) && not (can_write flags)
      then record { failure = some not_permitted; file = f; world = w }
      else with_permissions f flags now (get_file_permissions f w)

  pub made : Synced W → Result FileBuffer × W
  made s = elim s.failure [ none ↦ (ok s.file, s.world) | some e ↦ (err e, s.world) ]

  pub new_file_buffer : ℕ → Text → ℕ → ℕ → ℕ → W → Result FileBuffer × W
  unfolding initialize made
  new_file_buffer flags path perms dirty_timeout now w =
      made (initialize (fresh path perms dirty_timeout) flags now w)

pub size : FileBuffer → ℕ
size f = f.buffer.len

unfoldable pub read_at : FileBuffer → List ℕ → ℤ → Outcome GrowableByteSlice.ReadAt
read_at f buf off = GrowableByteSlice.read_at f.buffer buf off

-- The dirty flag is set before the write.
pub write_at : FileBuffer → List ℕ → ℤ → ℕ → Outcome (FileBuffer × ℕ)
write_at f bytes off now = do
  (buffer, n) ← GrowableByteSlice.write_at f.buffer bytes off
  done (record f { dirty = DirtyTimestamp.set f.dirty now; buffer = buffer }, n)

pub set_size : FileBuffer → ℤ → ℕ → Outcome FileBuffer
set_size f size now = do
  buffer ← GrowableByteSlice.resize f.buffer size
  done (record f { dirty = DirtyTimestamp.set f.dirty now; buffer = buffer })

pub inc_ref_count : FileBuffer → FileBuffer × ℤ
inc_ref_count f =
    let count = int32 (f.ref_count +ℤ pos 1) in (record f { ref_count = count }, count)

-- The handler that runs at 0 is the caller's to call: it takes the lock of the open files.
pub dec_ref_count : FileBuffer → Outcome (FileBuffer × ℤ)
dec_ref_count f =
    let count = int32 (f.ref_count +ℤ negsuc 0) in
    if ltb_ℤ count (pos 0) then panic else done (record f { ref_count = count }, count)
