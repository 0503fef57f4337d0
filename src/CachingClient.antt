-- ===== src/CachingClient.antt =====
-- caching_device_client.go and dir_entry_cache.go: a device client that answers from cached
-- directory listings, over the state of the cache, the removals that goroutines have yet to make, the
-- writers whose closing asks for one, and the device.
pub mod Listing
mod Tests
use adbfs.Base.{ℕ, Bool, if◌then◌else◌, ◌==◌, List, [], ◌∷◌, Text, text_eq, Option, none, some}
use adbfs.Errors.{Error, Result, ok, err, ErrUtil, file_no_exist}
use adbfs.Device.{DeviceClient, DirEntry}
use adbfs.Paths.Parents.{path_dir, path_base}

pub record CachedDirEntries : Type 0 where
  pub in_order : List DirEntry
  pub by_name : Text → Option DirEntry

abbrev enter : (Text → Option DirEntry) → List DirEntry → Text → Option DirEntry
enter names [] = names
enter names (e ∷ es) = enter (λ q. if text_eq e.name q then some e else names q) es

pub new_cached_dir_entries : List DirEntry → CachedDirEntries
new_cached_dir_entries entries = record { in_order = entries; by_name = enter (λ q. none) entries }

-- The cache library, over whatever state it keeps, its clock included.
pub record DirEntryCache (C : Type 0) : Type 0 where
  pub get : Text → C → Option CachedDirEntries
  pub set : Text → CachedDirEntries → C → C
  pub delete : Text → C → C

pub record Cached (C W : Type 0) : Type 0 where
  pub cache : C
  pub removing : List Text
  pub writers : ℕ → Option Text
  pub world : W

abbrev ordered : Result CachedDirEntries → Result (List DirEntry)
ordered (err e) = err e
ordered (ok entries) = ok entries.in_order

module _ {C W : Type 0} (u : ErrUtil) (k : DirEntryCache C) (d : DeviceClient W) where
  abbrev on : Cached C W → W → Cached C W
  on s w = record s { world = w }

  abbrev found : Text → CachedDirEntries → Cached C W → Result DirEntry × Cached C W
  found base entries s = elim (entries.by_name base) [
    | some entry ↦ (ok entry, s)
    | none ↦ (err (u.errorf file_no_exist), s)
  ]

  abbrev on_device : Text → Cached C W → Result DirEntry × Cached C W
  on_device name s = let (r, w) = d.stat name s.world in (r, on s w)

  pub stat : Text → Cached C W → Result DirEntry × Cached C W
  stat name s =
      if text_eq (path_dir name) (path_base name)
      then on_device name s
      else elim (k.get (path_dir name) s.cache) [
        | some entries ↦ found (path_base name) entries s
        | none ↦ on_device name s
      ]

  -- `GetOrLoad` of the cache with the loader of `ListDirEntries`.
  abbrev loaded :
      Text → Cached C W → Result (List DirEntry) × W → Result CachedDirEntries × Cached C W
  loaded path s (err e, w) = (err e, on s w)
  loaded path s (ok es, w) = (
    ok (new_cached_dir_entries es),
    record s { cache = k.set path (new_cached_dir_entries es) s.cache; world = w },
  )

  pub get_or_load_entries : Text → Cached C W → Result CachedDirEntries × Cached C W
  unfolding new_cached_dir_entries
  get_or_load_entries path s = elim (k.get path s.cache) [
    | some entries ↦ (ok entries, s)
    | none ↦ loaded path s (d.list_dir_entries path s.world)
  ]

  pub list_dir_entries : Text → Cached C W → Result (List DirEntry) × Cached C W
  unfolding get_or_load_entries
  list_dir_entries path s = let (r, s') = get_or_load_entries path s in (ordered r, s')

  -- The writer is remembered with the directory whose listing its closing makes stale.
  abbrev tracked : Text → Cached C W → Result ℕ × W → Result ℕ × Cached C W
  tracked name s (err e, w) = (err e, on s w)
  tracked name s (ok h, w) = (
    ok h,
    record s { writers = λ j. if h == j then some (path_dir name) else s.writers j; world = w },
  )

  pub open_write : Text → ℕ → Cached C W → Result ℕ × Cached C W
  open_write name perms s = tracked name s (d.open_write name perms s.world)

  abbrev remove_eventually : Option Text → List Text → List Text
  remove_eventually none removing = removing
  remove_eventually (some dir) removing = dir ∷ removing

  pub close_writer : ℕ → Cached C W → Option Error × Cached C W
  close_writer h s =
      let (e, w) = d.close_writer h s.world in
      (e, record s { removing = remove_eventually (s.writers h) s.removing; world = w })

  -- A goroutine of `RemoveEventually`.
  abbrev remove_next : List Text → Cached C W → Cached C W
  remove_next [] s = s
  remove_next (dir ∷ rest) s = record s { cache = k.delete dir s.cache; removing = rest }

  -- The client; the calls that it does not override are those of the client behind it.
  pub caching_device_client : DeviceClient (Cached C W)
  caching_device_client = record {
    open_read = λ p s. let (r, w) = d.open_read p s.world in (r, on s w);
    read_all = λ h s. let (r, w) = d.read_all h s.world in (r, on s w);
    close_reader = λ h s. on s (d.close_reader h s.world);
    open_write = open_write;
    write = λ h bytes s. let (r, w) = d.write h bytes s.world in (r, on s w);
    close_writer = close_writer;
    stat = stat;
    list_dir_entries = list_dir_entries;
    run_command = λ c args s. let (r, w) = d.run_command c args s.world in (r, on s w);
  }
