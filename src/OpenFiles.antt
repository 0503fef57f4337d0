-- ===== src/OpenFiles.antt =====
-- open_files.go, and `Release` of adb_file.go. Buffers are shared, so they stand in a store and are
-- named by pointers; `buffersByPath` maps a path to a pointer. `GetOrLoad` and `release` hold the
-- lock of the open files and are one step each; the count that `Release` takes down is atomic, and
-- other steps may come between it and the handler.
pub mod Invariant
pub mod Sharing
pub mod Untouched
pub mod Clean
pub mod Schedule
pub mod Counts
pub mod Race
pub mod Owned
mod Tests
use adbfs.Base.{
  ℕ, ◌+◌, ◌*◌, Bool, true, false, if◌then◌else◌, ◌==◌, Option, none, some, Text, text_eq, ℤ, pos,
  negsuc, Outcome, done, panic, ◌>>=◌,
}
use mathlib.Core.Option
use adbfs.Errors.{Result, ok, err, ErrUtil}
use adbfs.Device.{DeviceClient}
use adbfs.FileBuffer.{FileBuffer, new_file_buffer, inc_ref_count, dec_ref_count}

-- Five minutes, of adb_file.go.
abbrev pub default_dirty_timeout : ℕ
default_dirty_timeout = 5 * 60 * 1000000000

pub record OpenFiles : Type 0 where
  pub dirty_timeout : ℕ
  pub buffers : ℕ → Option FileBuffer
  pub next : ℕ
  pub by_path : Text → Option ℕ

pub new_open_files : ℕ → OpenFiles
new_open_files dirty_timeout = record {
  dirty_timeout = if dirty_timeout == 0 then default_dirty_timeout else dirty_timeout;
  buffers = λ i. none;
  next = 0;
  by_path = λ p. none;
}

abbrev pub store : OpenFiles → ℕ → FileBuffer → OpenFiles
store o i f = record o { buffers = λ j. if i == j then some f else o.buffers j }

abbrev pub bind : OpenFiles → Text → Option ℕ → OpenFiles
bind o p v = record o { by_path = λ q. if text_eq p q then v else o.by_path q }

abbrev pub is_zero : ℤ → Bool
is_zero (pos n) = n == 0
is_zero (negsuc n) = false

-- `file.IncRefCount()` through a pointer.
pub retain : OpenFiles → ℕ → OpenFiles
retain o i = elim (o.buffers i) [ none ↦ o | some f ↦ store o i (inc_ref_count f).0 ]

-- The pointer and the state after `GetOrLoad`.
pub record Opened (W : Type 0) : Type 0 where
  pub file : Result ℕ
  pub files : OpenFiles
  pub world : W

-- A new buffer under a new pointer.
pub add : OpenFiles → Text → FileBuffer → OpenFiles
add o path f = record (store o o.next f) {
  next = o.next + 1;
  by_path = λ q. if text_eq path q then some o.next else o.by_path q;
}

module _ {W : Type 0} (u : ErrUtil) (d : DeviceClient W) where
  pub loaded : OpenFiles → Text → Result FileBuffer × W → Opened W
  loaded o path (err e, w) = record { file = err e; files = o; world = w }
  loaded o path (ok f, w) = record {
    file = ok o.next;
    files = retain (add o path f) o.next;
    world = w;
  }

  pub get_or_load : OpenFiles → Text → ℕ → ℕ → ℕ → W → Opened W
  get_or_load o path flags perms now w = elim (o.by_path path) [
    | some i ↦ record { file = ok i; files = retain o i; world = w }
    | none ↦ loaded o path (new_file_buffer u d flags path perms o.dirty_timeout now w)
  ]

-- The handler: the path is forgotten if no file is open on the buffer.
pub release : OpenFiles → ℕ → OpenFiles
release o i = elim (o.buffers i) [
  | none ↦ o
  | some f ↦ if is_zero f.ref_count then bind o f.path none else o
]

-- `DecRefCount` through a pointer, but for the call of the handler.
pub drop_count : OpenFiles → ℕ → Outcome (OpenFiles × ℤ)
drop_count o i = elim (o.buffers i) [
  | none ↦ panic
  | some f ↦ (dec_ref_count f >>= λ (g, n). done (store o i g, n))
]

-- `Release` of an open file, where nothing comes between the count and the handler.
pub close : OpenFiles → ℕ → Outcome OpenFiles
close o i = drop_count o i >>= λ (o', n). done (if is_zero n then release o' i else o')
