-- ===== src/FileBuffer/Opening.antt =====
-- file_buffer.go: `NewFileBuffer` and `initialize`, on each outcome of the first calls of the device.
use adbfs.Base.{
  ℕ, ◌<◌, ◌≡◌, refl, ap, ◌∙◌, Bool, true, false, ◌&&◌, ◌||◌, not, none, some, List, [], Text, arith,
  if◌then◌else◌, ◌==◌, bit_or, bit_and,
}
use adbfs.Errors.{
  Error, Result, ok, err, ErrUtil, IsErrUtil, wrapped_code, not_permitted, file_no_exist, to_errno,
  enoent,
}
use adbfs.Device.{DeviceClient, DirEntry}
use adbfs.Device.Store.{Store}
use adbfs.DirtyTimestamp.{new_dirty_timestamp}
use adbfs.DirtyTimestamp
use adbfs.FileOpenFlags.{contains, can_write, o_create, o_trunc, o_append}
use adbfs.GrowableByteSlice.{contents}
use adbfs.GrowableByteSlice
use adbfs.FileBuffer.{
  FileBuffer, Synced, is_dirty, fresh, load_from_device, save_to_device, sync, get_file_permissions,
  initialize_with, with_permissions, initialize, made, new_file_buffer, dont_set_perms,
  default_file_permissions,
}
use adbfs.FileBuffer.Saving.{
  IsSave, save_to_device-IsSave, load_from_device-contents, load_from_device_unread,
}

-- The flags that ask for a change of the file.
abbrev asks_change : ℕ → Bool
asks_change flags = contains flags (bit_or (bit_or o_create o_trunc) o_append)

-- The permissions asked for, or else the given ones.
abbrev perms_or : ℕ → ℕ → ℕ
perms_or perms current = if perms == dont_set_perms then current else perms

-- The buffer of a file that is created or truncated: empty, and dirty since it was opened.
abbrev pub draft : Text → ℕ → ℕ → ℕ → ℕ → FileBuffer
draft path perms current timeout now = record (fresh path perms timeout) {
  perms = perms_or perms current;
  dirty = DirtyTimestamp.set new_dirty_timestamp now;
}

-- The buffer of a file that is opened as it is, before its first load.
abbrev pub unloaded : Text → ℕ → ℕ → DirEntry → FileBuffer
unloaded path perms timeout entry = record (fresh path perms timeout) {
  perms = perms_or perms (bit_and entry.mode 0o777);
}

draft-is_dirty :
    (path : Text) (perms current timeout now : ℕ)
    → 0 < now
    → is_dirty (draft path perms current timeout now) ≡ true
unfolding is_dirty DirtyTimestamp.is_set DirtyTimestamp.set
draft-is_dirty path perms current timeout now h = ground arith

IsSave-contents :
    {W : Type 0} (u : ErrUtil) (f : FileBuffer) (s : Synced W)
    → IsSave u f s
    → contents s.file.buffer ≡ contents f.buffer
IsSave-contents u f s v = ground arith

module _ {W : Type 0} (u : ErrUtil) (d : DeviceClient W) (flags : ℕ) (path : Text)
    (perms timeout now : ℕ) (w : W) where
  -- Flags that create, truncate or append without write access are refused before the device is
  -- asked anything.
  new_file_buffer_refused :
      asks_change flags ≡ true
      → can_write flags ≡ false
      → new_file_buffer u d flags path perms timeout now w ≡ (err not_permitted, w)
  unfolding new_file_buffer
  new_file_buffer_refused h k = rw (h, k)

  abbrev start : FileBuffer
  start = fresh path perms timeout

  abbrev after_stat : W
  after_stat = (d.stat path w).1

  permissions_err :
      (e : Error)
      → (d.stat path w).0 ≡ err e
      → get_file_permissions u d start w ≡ (err (u.wrap_err e), after_stat)
  unfolding get_file_permissions fresh
  permissions_err e h = rw h

  permissions_ok :
      (entry : DirEntry)
      → (d.stat path w).0 ≡ ok entry
      → get_file_permissions u d start w ≡ (ok (bit_and entry.mode 0o777), after_stat)
  unfolding get_file_permissions fresh
  permissions_ok entry h = rw h

  module _ (allowed : (asks_change flags && not (can_write flags)) ≡ false) where
    past_guard :
        (r : Result ℕ × W)
        → get_file_permissions u d start w ≡ r
        → new_file_buffer u d flags path perms timeout now w
          ≡ made u d (with_permissions u d start flags now r)
    unfolding new_file_buffer initialize
    past_guard r e = rw (allowed, e)

    -- A file that the device does not know is not opened without `O_CREATE`, and the status is
    -- ENOENT.
    new_file_buffer_missing :
        IsErrUtil u
        → (e : Error) → (d.stat path w).0 ≡ err e
        → u.has_err_code e file_no_exist ≡ true
        → contains flags o_create ≡ false
        → (x : Error) × (new_file_buffer u d flags path perms timeout now w ≡ (err x, after_stat))
          × (to_errno u (some x) ≡ enoent)
    unfolding with_permissions made to_errno
    new_file_buffer_missing law e missing code no_create = (
      u.wrap_err e,
      past_guard _ (permissions_err e missing) ∙ rw no_create (ground arith),
      status,
    )
      where
        has : u.has_err_code (u.wrap_err e) file_no_exist ≡ true
        has = (wrapped_code u e file_no_exist law code).0

        status : to_errno u (some (u.wrap_err e)) ≡ enoent
        status = let (_, n, f) = wrapped_code u e file_no_exist law code in rw f (rw (rw f at has))

    module _ (ticks : 0 < now) where
      abbrev saved : ℕ → Synced W
      saved current = save_to_device u d (draft path perms current timeout now) after_stat

      saved-contents : (current : ℕ) → contents (saved current).file.buffer ≡ []
      unfolding fresh GrowableByteSlice.empty
      saved-contents current =
          IsSave-contents u _ (saved current) (save_to_device-IsSave u d _ after_stat)

      emptied :
          (create_new : Bool) (current : ℕ)
          → (create_new || contains flags o_trunc) ≡ true
          → made u d (initialize_with u d create_new current start flags now after_stat)
            ≡ (ok (saved current).file, (saved current).world)
      unfolding made initialize_with sync fresh
      emptied create_new current h = rw (h, draft-is_dirty path perms current timeout now ticks)

      -- A file that does not exist yet, opened with `O_CREATE`: the buffer is empty, has the
      -- permissions asked for or else the default ones, and is saved once; an error of that save is
      -- not reported, but leaves the buffer dirty.
      new_file_buffer_created :
          IsErrUtil u
          → (e : Error) → (d.stat path w).0 ≡ err e
          → u.has_err_code e file_no_exist ≡ true
          → contains flags o_create ≡ true
          → let s = saved default_file_permissions in
            (new_file_buffer u d flags path perms timeout now w ≡ (ok s.file, s.world))
            × IsSave u (draft path perms default_file_permissions timeout now) s
            × (contents s.file.buffer ≡ [])
      unfolding with_permissions
      new_file_buffer_created law e missing code create = (
        past_guard _ (permissions_err e missing)
            ∙ rw ((wrapped_code u e file_no_exist law code).0, create) (emptied true _ refl),
        save_to_device-IsSave u d _ after_stat,
        saved-contents default_file_permissions,
      )

      -- A file that exists, opened with `O_TRUNC`: the same, but for its own permissions in place of
      -- the default ones.
      pub new_file_buffer_truncated :
          (entry : DirEntry)
          → (d.stat path w).0 ≡ ok entry
          → contains flags o_trunc ≡ true
          → let current = bit_and entry.mode 0o777 in
            let s = saved current in
            (new_file_buffer u d flags path perms timeout now w ≡ (ok s.file, s.world))
            × IsSave u (draft path perms current timeout now) s
            × (contents s.file.buffer ≡ [])
      unfolding with_permissions
      new_file_buffer_truncated entry found trunc = (
        past_guard _ (permissions_ok entry found) ∙ emptied false _ trunc,
        save_to_device-IsSave u d _ after_stat,
        saved-contents (bit_and entry.mode 0o777),
      )

    abbrev loaded : DirEntry → Synced W
    loaded entry = load_from_device u d (unloaded path perms timeout entry) after_stat

    new_file_buffer-loaded :
        (entry : DirEntry)
        → (d.stat path w).0 ≡ ok entry
        → contains flags o_trunc ≡ false
        → new_file_buffer u d flags path perms timeout now w
          ≡ (ok (loaded entry).file, (loaded entry).world)
    unfolding with_permissions made initialize_with sync fresh is_dirty DirtyTimestamp.is_set
        new_dirty_timestamp
    new_file_buffer-loaded entry found keep = past_guard _ (permissions_ok entry found) ∙ rw keep

    -- A file that exists, opened without `O_TRUNC`, where the first load succeeds: the buffer holds
    -- what the file holds.
    pub new_file_buffer-contents :
        (s : Store d) (entry : DirEntry) (xs : List ℕ)
        → (d.stat path w).0 ≡ ok entry
        → contains flags o_trunc ≡ false
        → s.files after_stat path ≡ some xs
        → (load_from_device u d (unloaded path perms timeout entry) after_stat).failure ≡ none
        → (f : FileBuffer) × (new_file_buffer u d flags path perms timeout now w
            ≡ (ok f, (load_from_device u d (unloaded path perms timeout entry) after_stat).world))
          × (contents f.buffer ≡ xs)
    unfolding fresh
    new_file_buffer-contents s entry xs found keep held fine = (
      (loaded entry).file,
      new_file_buffer-loaded entry found keep,
      load_from_device-contents u d s (unloaded path perms timeout entry) after_stat xs held fine,
    )

    -- But where the file cannot be opened to read, `NewFileBuffer` still succeeds, with a clean and
    -- empty buffer: the error of the first load is dropped.
    pub new_file_buffer_unread :
        (entry : DirEntry) (e : Error)
        → (d.stat path w).0 ≡ ok entry
        → contains flags o_trunc ≡ false
        → (d.open_read path after_stat).0 ≡ err e
        → (f : FileBuffer) × (new_file_buffer u d flags path perms timeout now w
            ≡ (ok f, (d.open_read path after_stat).1))
          × (contents f.buffer ≡ [])
          × (is_dirty f ≡ false)
    unfolding fresh is_dirty DirtyTimestamp.is_set new_dirty_timestamp GrowableByteSlice.empty
    new_file_buffer_unread entry e found keep unread = (
      unloaded path perms timeout entry,
      new_file_buffer-loaded entry found keep
          ∙ ap (λ (s : Synced W). (ok s.file, s.world))
              (load_from_device_unread u d (unloaded path perms timeout entry) after_stat e unread),
      refl,
      refl,
    )
