-- ===== src/AdbFile/Tests.antt =====
-- The theorems on open files at a device in memory.
use adbfs.Base.{◌≡◌, refl, true, false, none, List, [], ◌∷◌, Text, codes, pos, arith}
use adbfs.Errors.{eperm}
use adbfs.Device.Reads.{Reads}
use adbfs.Device.Ram.{
  ram-Reads, ram-FailsAsGoadb, Ram, ram, ram_store, ram_errors, ram_errors-IsErrUtil,
}
use adbfs.FileOpenFlags.{o_rdonly, o_wronly, contains, can_read, can_write}
use adbfs.GrowableByteSlice.{read_from}
use adbfs.GrowableByteSlice.Growing.{read_from-IsValid, read_from-IsClean}
use adbfs.GrowableByteSlice.Writing.{length-pwrite}
use adbfs.FileBuffer.{FileBuffer, is_dirty, save_to_device}
use adbfs.FileBuffer
use adbfs.FileBuffer.Editing.{IsSound}
use adbfs.AdbFile.{flush}
use adbfs.AdbFile.Ideal.{FileStep, truncates, IsFile, Refines, run-Refines}
use adbfs.AdbFile.Ideal

abbrev path : Text
path = codes "/a"

abbrev disk : Ram
disk = record { files = λ q. none; writing = none; reading = [] }

abbrev shared : FileBuffer
shared = record {
  path = path;
  dirty_timeout = 300;
  perms = 0o644;
  ref_count = pos 2;
  buffer = record { array = 104 ∷ 101 ∷ 121 ∷ 0 ∷ []; len = 3 };
  dirty = record { t = 7 };
}

shared-IsSound : IsSound shared
unfolding read_from
shared-IsSound = record {
  valid = read_from-IsValid (104 ∷ 101 ∷ 121 ∷ []) (0 ∷ []);
  clean = read_from-IsClean (104 ∷ 101 ∷ 121 ∷ []) 1;
}

writes : can_write o_wronly ≡ true
unfolding can_write contains
writes = refl

reads : can_read o_rdonly ≡ true
unfolding can_read contains
reads = refl

read_only : can_write o_rdonly ≡ false
unfolding can_write contains
read_only = refl

kept : Reads ram ram_store.files
unfolding ram_store
kept = ram-Reads

shared_set : is_dirty shared ≡ true
unfolding is_dirty
shared_set = refl

flushes : (flush ram_errors ram o_wronly shared disk).status ≡ 0
unfolding flush FileBuffer.flush can_write contains is_dirty save_to_device adbfs.Errors.to_errno
flushes = refl

abbrev steps : List FileStep
steps =
    Ideal.writes o_wronly (33 ∷ []) 5 8 9
    ∷ Ideal.reads o_rdonly (0 ∷ 0 ∷ 0 ∷ []) 4
    ∷ truncates o_wronly 8 10
    ∷ Ideal.flushes o_wronly
    ∷ Ideal.syncs o_rdonly
    ∷ []

shared-IsFile :
    IsFile ram_errors ram ram_store kept ram-FailsAsGoadb path (104 ∷ 101 ∷ 121 ∷ []) shared disk
shared-IsFile = record {
  sound = shared-IsSound;
  held = refl;
  at_path = refl;
  stored = λ unset. absurd (cc shared_set);
}

run-Refines_example :
    Refines ram_errors ram ram_store kept ram-FailsAsGoadb path
      (104 ∷ 101 ∷ 121 ∷ [])
      shared
      disk
      steps
run-Refines_example =
    run-Refines ram_errors ram ram_store kept ram-FailsAsGoadb path ram_errors-IsErrUtil steps
      (104 ∷ 101 ∷ 121 ∷ []) shared disk shared-IsFile
      (
        writes,
        omega arith,
        omega arith,
        (
          reads,
          (
            writes,
            omega arith,
            omega (arith, length-pwrite 5 (33 ∷ []) (104 ∷ 101 ∷ 121 ∷ [])),
            omega arith,
            (writes, tt),
          ),
        ),
      )
