-- ===== src/OpenFiles/Tests.antt =====
-- The open files' theorems at a device in memory.
use adbfs.Base.{
  ◌≡◌, refl, some, none, Text, codes, pos, [], arith, text_eq, text_eq_iff, text_eq_refl, ◌==◌,
  if◌then◌else◌,
}
use adbfs.Errors.{ok}
use adbfs.Device.Ram.{Ram, ram, ram_store, ram_errors}
use adbfs.Device.{DirEntry}
use adbfs.FileOpenFlags.{o_rdonly, contains, can_write}
use adbfs.FileBuffer.{FileBuffer, new_file_buffer, load_from_device, opened_read, after_read, fresh}
use adbfs.FileBuffer.Opening.{new_file_buffer-contents, unloaded}
use adbfs.OpenFiles.{OpenFiles, new_open_files, get_or_load}
use adbfs.OpenFiles.Invariant.{IsValid, Kept, Room, new_open_files-IsValid, get_or_load-Kept}
use adbfs.OpenFiles.Schedule.{Running, Run, started}
use adbfs.OpenFiles.Owned.{IsOwned, run-IsOwned}
use adbfs.OpenFiles.Race.{Lost, get_or_load_new, two_handlers-Lost}

abbrev path : Text
path = codes "/a"

abbrev disk : Ram
disk = record {
  files = λ q. if text_eq path q then some (codes "hi") else none;
  writing = none;
  reading = [];
}

abbrev hi_entry : DirEntry
hi_entry = record { name = path; mode = 0o644; size = pos 2; modified_at = 1 }

abbrev from : OpenFiles
from = new_open_files 300

abbrev after_open : Ram
after_open = (load_from_device ram_errors ram (unloaded path 0 300 hi_entry) disk).world

makes :
    (f : FileBuffer) × (new_file_buffer ram_errors ram o_rdonly path 0 300 5 disk
      ≡ (ok f, after_open))
unfolding contains can_write text_eq load_from_device opened_read after_read fresh ram_store
makes =
    let (f, e, c) =
      new_file_buffer-contents ram_errors ram o_rdonly path 0 300 5 disk refl ram_store hi_entry
        (codes "hi") refl refl refl refl in
    (f, e)

makes_again :
    (f : FileBuffer) × (new_file_buffer ram_errors ram o_rdonly path 0 300 5 after_open
      ≡ (ok f, after_open))
unfolding contains can_write text_eq load_from_device opened_read after_read fresh ram_store
makes_again =
    let (f, e, c) =
      new_file_buffer-contents ram_errors ram o_rdonly path 0 300 5 after_open refl ram_store
        hi_entry (codes "hi") refl refl refl refl in
    (f, e)

abbrev once : OpenFiles
once = (get_or_load ram_errors ram from path o_rdonly 0 5 disk).files

from-Room : Room from path
unfolding new_open_files
from-Room i f m b = absurd (cc)

opens : (get_or_load ram_errors ram from path o_rdonly 0 5 disk).file ≡ ok 0
unfolding new_open_files
opens =
    rw (get_or_load_new ram_errors ram path from o_rdonly 0 5 disk after_open makes.0 refl makes.1)

get_or_load-Kept_example :
    Kept ram_errors ram from path (get_or_load ram_errors ram from path o_rdonly 0 5 disk)
get_or_load-Kept_example =
    get_or_load-Kept ram_errors ram from path o_rdonly 0 5 disk (new_open_files-IsValid 300)
      from-Room

-- Open files of one path, on which one file is open.
abbrev one_open : OpenFiles
one_open = record {
  dirty_timeout = 300;
  buffers = λ i. if 0 == i then some (record (fresh path 0 300) { ref_count = pos 1 }) else none;
  next = 1;
  by_path = λ q. if text_eq path q then some 0 else none;
}

one_open-IsValid : IsValid one_open
unfolding fresh
one_open-IsValid = record {
  unused = λ i h. ground arith;
  mapped = λ p i m. ground (arith, text_eq_iff path p);
  reached = λ i f b h. ground (arith, text_eq_refl path);
}

-- A run in which two handlers of one buffer are pending at a time.
racing : (s : Running Ram) × Run ram_errors ram (started 300 disk) s × Lost s.files 1
unfolding new_open_files
racing =
    two_handlers-Lost ram_errors ram path 300 o_rdonly 0 5 disk after_open after_open makes.0
      makes_again.0 makes.1 makes_again.1

run-IsOwned_example : IsOwned racing.0.files racing.0.pending
run-IsOwned_example = run-IsOwned ram_errors ram 300 disk racing.0 racing.1

two_handlers-Lost_example :
    (s : Running Ram) × Run ram_errors ram (started 300 disk) s × Lost s.files 1
unfolding new_open_files
two_handlers-Lost_example =
    two_handlers-Lost ram_errors ram path 300 o_rdonly 0 5 disk after_open after_open makes.0
      makes_again.0 makes.1 makes_again.1
