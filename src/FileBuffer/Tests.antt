-- ===== src/FileBuffer/Tests.antt =====
-- The file buffer's theorems at a device in memory.
use adbfs.Base.{
  ◌+◌, ◌≡◌, refl, ◌⊎◌, true, false, none, some, [], ◌∷◌, Text, codes, pos, arith, text_eq,
  if◌then◌else◌,
}
use adbfs.Errors.{ok, err, foreign}
use adbfs.Device.Ram.{Ram, ram, ram_store, ram_errors}
use adbfs.Device.{DeviceClient, DirEntry}
use adbfs.DirtyTimestamp.{DirtyTimestamp}
use adbfs.FileOpenFlags.{o_rdonly, o_wronly, o_rdwr, o_trunc, contains, can_write}
use adbfs.GrowableByteSlice.{contents, read_from}
use adbfs.GrowableByteSlice.Growing.{read_from-IsValid, read_from-IsClean}
use adbfs.FileBuffer.{
  FileBuffer, is_dirty, fresh, save_to_device, load_from_device, sync, flush, sync_if_too_dirty,
  new_file_buffer, opened_write, after_write, closed_write, write_to, opened_read, after_read,
}
use adbfs.FileBuffer.Saving.{IsSave, dirty_kept, save_to_device-files, sync-flush}
use adbfs.FileBuffer.Editing.{IsSound}
use adbfs.FileBuffer.Opening.{
  draft, new_file_buffer_truncated, new_file_buffer-contents, new_file_buffer_unread, unloaded,
}

abbrev path : Text
path = codes "/a"

-- A device that holds one file, "hi".
abbrev disk : Ram
disk = record {
  files = λ q. if text_eq path q then some (codes "hi") else none;
  writing = none;
  reading = [];
}

abbrev hi_entry : DirEntry
hi_entry = record { name = path; mode = 0o644; size = pos 2; modified_at = 1 }

abbrev no_disk : Ram
no_disk = record { files = λ q. none; writing = none; reading = [] }

abbrev edited : FileBuffer
edited = record {
  path = path;
  dirty_timeout = 300;
  perms = 0o644;
  ref_count = pos 1;
  buffer = record { array = 104 ∷ 101 ∷ 121 ∷ 0 ∷ []; len = 3 };
  dirty = record { t = 7 };
}

abbrev clean_copy : FileBuffer
clean_copy = record edited { dirty = record { t = 0 } }

edited_set : is_dirty edited ≡ true
unfolding is_dirty adbfs.DirtyTimestamp.is_set
edited_set = refl

copy_unset : is_dirty clean_copy ≡ false
unfolding is_dirty adbfs.DirtyTimestamp.is_set
copy_unset = refl

edited-IsSound : IsSound edited
unfolding read_from
edited-IsSound = record {
  valid = read_from-IsValid (104 ∷ 101 ∷ 121 ∷ []) (0 ∷ []);
  clean = read_from-IsClean (104 ∷ 101 ∷ 121 ∷ []) 1;
}

saves : (save_to_device ram_errors ram edited disk).failure ≡ none
unfolding save_to_device opened_write after_write closed_write write_to
saves = refl

flushes : (flush ram_errors ram edited disk).failure ≡ none
unfolding flush is_dirty adbfs.DirtyTimestamp.is_set save_to_device opened_write after_write
    closed_write write_to
flushes = refl

abbrev flushed : Ram
flushed = (flush ram_errors ram edited disk).world

loads : (sync ram_errors ram clean_copy flushed).failure ≡ none
unfolding sync flush is_dirty adbfs.DirtyTimestamp.is_set save_to_device opened_write after_write
    closed_write write_to load_from_device opened_read after_read text_eq
loads = refl

dirty_kept_example :
    IsSave ram_errors edited (sync ram_errors ram edited disk)
    × IsSave ram_errors edited (flush ram_errors ram edited disk)
    × ((sync_if_too_dirty ram_errors ram edited 900 disk
          ≡ record { failure = none; file = edited; world = disk })
        ⊎ IsSave ram_errors edited (sync_if_too_dirty ram_errors ram edited 900 disk))
dirty_kept_example = dirty_kept ram_errors ram edited 900 disk edited_set

save_to_device-files_example :
    ram_store.files (save_to_device ram_errors ram edited disk).world path
    ≡ some (104 ∷ 101 ∷ 121 ∷ [])
save_to_device-files_example = save_to_device-files ram_errors ram ram_store edited disk saves

sync-flush_example :
    contents (sync ram_errors ram clean_copy flushed).file.buffer ≡ 104 ∷ 101 ∷ 121 ∷ []
sync-flush_example =
    sync-flush ram_errors ram ram_store edited clean_copy disk flushed edited_set copy_unset refl
      flushes refl loads

new_file_buffer_truncated_example :
    contents (save_to_device ram_errors ram (draft path 0 0o644 300 5) disk).file.buffer ≡ []
unfolding contains can_write text_eq
new_file_buffer_truncated_example =
    (new_file_buffer_truncated ram_errors ram (o_wronly + o_trunc) path 0 300 5 disk refl
      (omega arith) hi_entry refl refl).2

new_file_buffer-contents_example :
    (f : FileBuffer) × (new_file_buffer ram_errors ram o_rdonly path 0 300 5 disk
      ≡ (ok f, (load_from_device ram_errors ram (unloaded path 0 300 hi_entry) disk).world))
    × (contents f.buffer ≡ codes "hi")
unfolding contains can_write text_eq load_from_device opened_read after_read fresh ram_store
new_file_buffer-contents_example =
    new_file_buffer-contents ram_errors ram o_rdonly path 0 300 5 disk refl ram_store hi_entry
      (codes "hi") refl refl refl refl

-- A device on which the file can be stated but not read.
abbrev unreadable : DeviceClient Ram
unreadable = record ram { open_read = λ p w. (err (foreign 9), w) }

new_file_buffer_unread_example :
    (f : FileBuffer) × (new_file_buffer ram_errors unreadable o_rdwr path 0 300 5 disk
      ≡ (ok f, disk))
    × (contents f.buffer ≡ [])
    × (is_dirty f ≡ false)
unfolding contains can_write text_eq
new_file_buffer_unread_example =
    new_file_buffer_unread ram_errors unreadable o_rdwr path 0 300 5 disk refl hi_entry (foreign 9)
      refl refl refl
