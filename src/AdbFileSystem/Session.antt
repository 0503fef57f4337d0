-- ===== src/AdbFileSystem/Session.antt =====
-- adb_filesystem.go and adb_file.go together: the kernel's calls on names and those on the files that
-- they have opened, in any order.
use adbfs.Base.{
  ℕ, zero, Bool, true, false, suc, List, [], ◌∷◌, ◌++◌, ℤ, Option, none, some, Outcome, done, panic,
  ◌>>=◌, Text,
}
use adbfs.Errors.{ErrUtil}
use adbfs.Device.{DeviceClient}
use adbfs.FileBuffer.{FileBuffer}
use adbfs.OpenFiles.{store, close}
use adbfs.Attributes.{get_attr}
use adbfs.AdbFile.{Reply, read, write, fsync, flush, truncate}
use adbfs.AdbFileSystem.{
  AdbFileSystem, Handle, Call, Value, nothing, attr, entries, target, handle, serve, to_device,
}
use adbfs.StatFs.{StatfsOut, stat_fs}

-- The filesystem, the open files, by the numbers that the kernel has for them, and the device.
pub record Session (W : Type 0) : Type 0 where
  pub fs : AdbFileSystem
  pub handles : List Handle
  pub world : W

-- A call on an open file.
pub data FileOp : Type 0 where
  read_op : List ℕ → ℤ → FileOp
  write_op : List ℕ → ℤ → ℕ → ℕ → FileOp
  get_attr_op fsync_op flush_op release_op : FileOp
  truncate_op : ℕ → ℕ → FileOp

pub data Event : Type 0 where
  on_name : Call → Event
  on_file : ℕ → FileOp → Event
  stat_fs_of : Text → Event

-- A new open file.
abbrev pub handle_of : Value → List Handle
handle_of (handle h) = h ∷ []
handle_of nothing = []
handle_of (attr a) = []
handle_of (entries es) = []
handle_of (target t) = []

abbrev pub nth : List Handle → ℕ → Option Handle
nth [] k = none
nth (h ∷ hs) zero = some h
nth (h ∷ hs) (suc k) = nth hs k

module _ {W : Type 0} (u : ErrUtil) (d : DeviceClient W) where
  -- What an operation leaves of the buffer and the device.
  abbrev pub after_reply : Session W → ℕ → Reply W → Session W
  after_reply s i r = record s {
    fs = record s.fs { open_files = store s.fs.open_files i r.file };
    world = r.world;
  }

  abbrev pub operate : Session W → Handle → FileBuffer → FileOp → Outcome (Session W)
  operate s h f (read_op buf off) = read u d h.flags f buf off >>= λ r. done s
  operate s h f (write_op bytes off now later) =
      write u d h.flags f bytes off now later s.world >>= λ r. done (after_reply s h.file_buffer r)
  operate s h f fsync_op = done (after_reply s h.file_buffer (fsync u d h.flags f s.world))
  operate s h f get_attr_op =
      let (r, w) = get_attr u d f.path s.world in done (record s { world = w })
  operate s h f flush_op = done (after_reply s h.file_buffer (flush u d h.flags f s.world))
  operate s h f (truncate_op size now) =
      truncate u d h.flags f size now s.world >>= λ r. done (after_reply s h.file_buffer r)
  operate s h f release_op = close s.fs.open_files h.file_buffer >>= λ o.
      done (record s { fs = record s.fs { open_files = o } })

  abbrev pub on_buffer : Session W → Handle → FileOp → Option FileBuffer → Outcome (Session W)
  on_buffer s h op none = panic
  on_buffer s h op (some f) = operate s h f op

  -- The kernel makes no call on a file that is not open; nothing happens then.
  abbrev pub on_handle : Session W → FileOp → Option Handle → Outcome (Session W)
  on_handle s op none = done s
  on_handle s op (some h) = on_buffer s h op (s.fs.open_files.buffers h.file_buffer)

  -- `StatFs`, which may panic when the device has answered.
  abbrev pub after_stat_fs : Session W → Outcome (Option StatfsOut) × W → Outcome (Session W)
  after_stat_fs s (o, w) = o >>= λ out. done (record s { world = w })

  unfoldable pub serve_event : Session W → Event → Outcome (Session W)
  serve_event s (on_name c) =
      let a = serve u d s.fs c s.world in
      done (record { fs = a.fs; handles = s.handles ++ handle_of a.value; world = a.world })
  serve_event s (on_file k op) = on_handle s op (nth s.handles k)
  serve_event s (stat_fs_of name) = after_stat_fs s (stat_fs u d (to_device s.fs name) s.world)

  -- The device where a call panics: no other call than `StatFs` that panics has called it before.
  unfoldable pub world_at_panic : Session W → Event → W
  world_at_panic s (on_name c) = s.world
  world_at_panic s (on_file k op) = s.world
  world_at_panic s (stat_fs_of name) = (stat_fs u d (to_device s.fs name) s.world).1

  abbrev pub after_event :
      (Session W → Session W × Bool) → Session W → Event → Outcome (Session W) → Session W × Bool
  after_event again s e (done t) = again t
  after_event again s e panic = (record s { world = world_at_panic s e }, true)

  -- Calls one after another, until one panics, which ends the program. With the state, whether one did.
  unfoldable pub serve_events : Session W → List Event → Session W × Bool
  serve_events s [] = (s, false)
  serve_events s (e ∷ es) = after_event (λ t. serve_events t es) s e (serve_event s e)
