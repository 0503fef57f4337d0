-- ===== src/CachingClient/Tests.antt =====
-- The cache's theorems at a cache that never expires, over a device in memory.
use adbfs.Base.{
  ◌≡◌, refl, false, if◌then◌else◌, List, [], ◌∷◌, Text, text_eq, text_eq_refl, codes, Option, none,
  some, pos,
}
use adbfs.Errors.{ok}
use adbfs.Device.{DeviceClient, DirEntry}
use adbfs.Device.Ram.{Ram, ram, ram_errors}
use adbfs.Paths.{split, join_segments, clean_segment, clean_segments, clean}
use adbfs.Paths.Parents.{path_dir, path_base, up_to_slash, strip_slashes}
use adbfs.CachingClient.{
  CachedDirEntries, new_cached_dir_entries, DirEntryCache, Cached, stat, list_dir_entries,
  get_or_load_entries, caching_device_client,
}
use adbfs.CachingClient.Listing.{stat_in, stat-list_dir_entries, stat-run_command}

abbrev Lasting : Type 0
Lasting = Text → Option CachedDirEntries

abbrev lasting : DirEntryCache Lasting
lasting = record {
  get = λ p c. c p;
  set = λ p v c q. if text_eq p q then some v else c q;
  delete = λ p c q. if text_eq p q then none else c q;
}

abbrev disk : Ram
disk = record { files = λ q. none; writing = none; reading = [] }

abbrev named : Text → DirEntry
named name = record { name = name; mode = 0o644; size = pos 2; modified_at = 1 }

abbrev listing : List DirEntry
listing = named (codes "a") ∷ named (codes "b") ∷ []

-- A device with one listing for all directories.
abbrev one_listing : DeviceClient Ram
one_listing = record ram { list_dir_entries = λ p w. (ok listing, w) }

abbrev cold : Cached Lasting Ram
cold = record { cache = λ q. none; removing = []; writers = λ h. none; world = disk }

abbrev full : Cached Lasting Ram
full = record cold {
  cache = λ q. if text_eq (codes "/d") q then some (new_cached_dir_entries listing) else none;
}

abbrev name : Text
name = codes "/d/b"

dir_of : path_dir name ≡ codes "/d"
unfolding path_dir clean split join_segments clean_segments clean_segment text_eq up_to_slash
dir_of = refl

name_base : path_base name ≡ codes "b"
unfolding path_base up_to_slash strip_slashes
name_base = refl

deep : text_eq (path_dir name) (path_base name) ≡ false
unfolding text_eq
deep = rw (dir_of, name_base) refl

lists : list_dir_entries ram_errors lasting one_listing (path_dir name) cold ≡ (ok listing, full)
unfolding list_dir_entries get_or_load_entries
lists = rw dir_of refl

stat-list_dir_entries_example :
    stat ram_errors lasting one_listing name full
    ≡ (stat_in ram_errors (path_base name) listing, full)
stat-list_dir_entries_example =
    stat-list_dir_entries ram_errors lasting one_listing name cold full listing
      (λ p v c. rw (text_eq_refl p) refl) (λ p v h. absurd (cc)) deep lists

stat-run_command_example :
    (stat ram_errors lasting one_listing name
      ((caching_device_client ram_errors lasting one_listing).run_command
        (codes "rm")
        (name ∷ [])
        full).1).0
    ≡ (stat ram_errors lasting one_listing name full).0
unfolding text_eq
stat-run_command_example =
    stat-run_command ram_errors lasting one_listing name (codes "rm") (name ∷ []) full
      (new_cached_dir_entries listing) deep cached
  where
    cached : lasting.get (path_dir name) full.cache ≡ some (new_cached_dir_entries listing)
    cached = rw dir_of refl
