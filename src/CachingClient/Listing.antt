-- ===== src/CachingClient/Listing.antt =====
-- caching_device_client.go: what `Stat` answers while the listing of the directory is in the cache.
use adbfs.Base.{
  ◌≡◌, refl, sym, ap, ◌∙◌, Bool, true, false, if◌then◌else◌, List, [], ◌∷◌, Text, text_eq, Option,
  none, some, Option-cases, inl, inr, arith,
}
use adbfs.Errors.{Result, ok, err, ErrUtil, file_no_exist}
use adbfs.Device.{DeviceClient, DirEntry}
use adbfs.Paths.Parents.{path_dir, path_base}
use adbfs.CachingClient.{
  CachedDirEntries, enter, new_cached_dir_entries, DirEntryCache, Cached, stat, found, loaded,
  ordered, get_or_load_entries, list_dir_entries, caching_device_client,
}

-- The entry of a name in a listing: the last one.
abbrev last_named : Text → List DirEntry → Option DirEntry
last_named base [] = none
last_named base (e ∷ es) = elim (last_named base es) [
  | some x ↦ some x
  | none ↦ if text_eq e.name base then some e else none
]

-- What `Stat` makes of a listing.
abbrev pub stat_in : ErrUtil → Text → List DirEntry → Result DirEntry
stat_in u base es = elim (last_named base es) [
  | some e ↦ ok e
  | none ↦ err (u.errorf file_no_exist)
]

choice :
    (found : Option DirEntry) (here : Bool) (e : DirEntry) (before : Option DirEntry)
    → elim found as (λ x. Option DirEntry) [
      | some x ↦ some x
      | none ↦ if here then some e else before
    ]
      ≡ elim (elim found as (λ x. Option DirEntry) [
        | some x ↦ some x
        | none ↦ if here then some e else none
      ])
          as (λ x. Option DirEntry) [ some x ↦ some x | none ↦ before ]
choice (some x) here e before = refl
choice none true e before = refl
choice none false e before = refl

enter_lem :
    (names : Text → Option DirEntry) (es : List DirEntry) (base : Text)
    → enter names es base ≡ elim (last_named base es) [ some x ↦ some x | none ↦ names base ]
enter_lem names [] base = refl
enter_lem names (e ∷ es) base =
    enter_lem (λ q. if text_eq e.name q then some e else names q) es base
    ∙ choice (last_named base es) (text_eq e.name base) e (names base)

module _ {C W : Type 0} (u : ErrUtil) (k : DirEntryCache C) (d : DeviceClient W) where
  -- Every listing in the cache is one that the program has put there.
  abbrev Consistent : C → Type 0
  Consistent c =
      (p : Text) (v : CachedDirEntries) → k.get p c ≡ some v → v ≡ new_cached_dir_entries v.in_order

  -- What was set is there, until time passes.
  abbrev Keeps : Type 0
  Keeps = (p : Text) (v : CachedDirEntries) (c : C) → k.get p (k.set p v c) ≡ some v

  ok_same :
      (xs ys : List DirEntry) (s t : Cached C W)
      → ◌≡◌ {A = Result (List DirEntry) × Cached C W} (ok xs, s) (ok ys, t)
      → xs ≡ ys
  ok_same xs ys s t e = ground arith

  loaded_lem :
      (path : Text) (s s' : Cached C W) (es : List DirEntry) (r : Result (List DirEntry) × W)
      → Keeps
      → ◌≡◌ {A = Result (List DirEntry) × Cached C W}
          (ordered (loaded u k d path s r).0, (loaded u k d path s r).1)
          (ok es, s')
      → k.get path s'.cache ≡ some (new_cached_dir_entries es)
  unfolding new_cached_dir_entries
  loaded_lem path s s' es (err x, w) keeps e = absurd (cc)
  loaded_lem path s s' es (ok xs, w) keeps e =
      let same : xs ≡ es = ok_same xs es _ s' e in
      ap (λ r. k.get path r.1.cache) (sym e)
      ∙ keeps path (new_cached_dir_entries xs) s.cache
      ∙ ap (λ l. some (new_cached_dir_entries l)) same

  cached_lem :
      (path : Text) (s s' : Cached C W) (es : List DirEntry) (v : CachedDirEntries)
      → k.get path s.cache ≡ some v
      → v ≡ new_cached_dir_entries v.in_order
      → ◌≡◌ {A = Result (List DirEntry) × Cached C W} (ok v.in_order, s) (ok es, s')
      → k.get path s'.cache ≡ some (new_cached_dir_entries es)
  cached_lem path s s' es v hit sound e =
      let same : v.in_order ≡ es = ok_same v.in_order es s s' e in
      ap (λ r. k.get path r.1.cache) (sym e)
      ∙ hit
      ∙ ap some (sound ∙ ap new_cached_dir_entries same)

  list_lem :
      (path : Text) (s s' : Cached C W) (es : List DirEntry)
      → Keeps
      → Consistent s.cache
      → list_dir_entries u k d path s ≡ (ok es, s')
      → k.get path s'.cache ≡ some (new_cached_dir_entries es)
  unfolding list_dir_entries get_or_load_entries
  list_lem path s s' es keeps sound e = elim (Option-cases (k.get path s.cache)) [
    | inl miss ↦
        loaded_lem path s s' es (d.list_dir_entries path s.world) keeps
          (rw (miss, list_dir_entries, get_or_load_entries) at e)
    | inr (v, hit) ↦
        cached_lem path s s' es v hit (sound path v hit)
          (rw (hit, list_dir_entries, get_or_load_entries) at e)
  ]

  found_same :
      (base : Text) (v : CachedDirEntries) (s t : Cached C W)
      → (found u k d base v s).0 ≡ (found u k d base v t).0
  found_same base v s t = elim (Option-cases (v.by_name base)) [
    | inl e ↦ rw (e, found) refl
    | inr (x, e) ↦ rw (e, found) refl
  ]

  found_lem :
      (base : Text) (es : List DirEntry) (s : Cached C W)
      → found u k d base (new_cached_dir_entries es) s ≡ (stat_in u base es, s)
  unfolding new_cached_dir_entries
  found_lem base es s = elim (Option-cases (last_named base es)) [
    | inl e ↦ rw (found, enter_lem (λ q. none) es base, stat_in, e) refl
    | inr (x, e) ↦ rw (found, enter_lem (λ q. none) es base, stat_in, e) refl
  ]

  -- After a listing of a directory that succeeded, from a cache whose listings are all the program's
  -- own and while nothing expires, `Stat` of a name in it makes no call of the device and answers with
  -- the last entry of that name, or else with an error of a missing file.
  pub stat-list_dir_entries :
      (name : Text) (s s' : Cached C W) (es : List DirEntry)
      → Keeps
      → Consistent s.cache
      → text_eq (path_dir name) (path_base name) ≡ false
      → list_dir_entries u k d (path_dir name) s ≡ (ok es, s')
      → stat u k d name s' ≡ (stat_in u (path_base name) es, s')
  unfolding stat new_cached_dir_entries
  stat-list_dir_entries name s s' es keeps sound deep e =
      rw (deep, list_lem (path_dir name) s s' es keeps sound e) (found_lem (path_base name) es s')

  -- A command leaves the cache alone: while the listing of its directory is in the cache, `Stat` of a
  -- name answers the same before and after any command, `mkdir`, `mv` and `rm` included.
  pub stat-run_command :
      (name cmd : Text) (args : List Text) (s : Cached C W) (v : CachedDirEntries)
      → text_eq (path_dir name) (path_base name) ≡ false
      → k.get (path_dir name) s.cache ≡ some v
      → (stat u k d name ((caching_device_client u k d).run_command cmd args s).1).0
        ≡ (stat u k d name s).0
  unfolding stat caching_device_client
  stat-run_command name cmd args s v deep hit = rw (deep, hit) (found_same (path_base name) v _ s)
