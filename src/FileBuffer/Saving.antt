-- ===== src/FileBuffer/Saving.antt =====
-- file_buffer.go: `saveToDevice`, `loadFromDevice`, `Sync`, `Flush` and `SyncIfTooDirty`.
use adbfs.Base.{
  ℕ, ◌≡◌, refl, ap, ◌∙◌, ◌⊎◌, inl, inr, true, false, Option, none, some, List, [], ◌∷◌, Text, arith,
  Bool-cases,
}
use adbfs.Errors.{Error, Result, ok, err, ErrUtil}
use adbfs.Device.{DeviceClient}
use adbfs.Device.Store.{Store}
use adbfs.DirtyTimestamp.{DirtyTimestamp}
use adbfs.DirtyTimestamp
use adbfs.GrowableByteSlice.{contents}
use adbfs.GrowableByteSlice.Growing.{contents-read_from}
use adbfs.FileBuffer.{
  FileBuffer, Synced, is_dirty, write_to, after_read, opened_read, load_from_device, closed_write,
  after_write, opened_write, save_to_device, sync, flush, sync_if_too_dirty,
}

-- The buffer after a save that succeeded.
abbrev pub cleaned : FileBuffer → FileBuffer
cleaned f = record f { dirty = DirtyTimestamp.clear f.dirty }

-- A save either succeeds and clears the dirty flag, or reports a wrapped error and leaves the buffer
-- as it was.
abbrev pub IsSave : {W : Type 0} → ErrUtil → FileBuffer → Synced W → Type 0
IsSave u f s =
    ((s.failure ≡ none) × (s.file ≡ cleaned f))
    ⊎ ((e : Error) × (s.failure ≡ some (u.wrap_err e)) × (s.file ≡ f))

module _ {W : Type 0} (u : ErrUtil) (d : DeviceClient W) where
  closed_write-IsSave :
      (f : FileBuffer) (h : ℕ) (r : Option Error × W) → IsSave u f (closed_write u d f h r)
  unfolding closed_write
  closed_write-IsSave f h (none, w) = inl (refl, refl)
  closed_write-IsSave f h (some e, w) = inr (e, refl, refl)

  after_write-IsSave :
      (f : FileBuffer) (h : ℕ) (r : Option Error × W) → IsSave u f (after_write u d f h r)
  unfolding after_write
  after_write-IsSave f h (none, w) = closed_write-IsSave f h (d.close_writer h w)
  after_write-IsSave f h (some e, w) = inr (e, refl, refl)

  opened_write-IsSave : (f : FileBuffer) (r : Result ℕ × W) → IsSave u f (opened_write u d f r)
  unfolding opened_write
  opened_write-IsSave f (ok h, w) = after_write-IsSave f h (write_to u d h (contents f.buffer) w)
  opened_write-IsSave f (err e, w) = inr (e, refl, refl)

  pub save_to_device-IsSave : (f : FileBuffer) (w : W) → IsSave u f (save_to_device u d f w)
  unfolding save_to_device
  save_to_device-IsSave f w = opened_write-IsSave f (d.open_write f.path f.perms w)

  -- No operation that may save loses unsaved bytes: after `Sync`, `Flush` and `SyncIfTooDirty` of a
  -- dirty buffer its contents are the same, and it is dirty exactly as before unless the operation
  -- saved it and reported no error.
  pub dirty_kept :
      (f : FileBuffer) (now : ℕ) (w : W)
      → is_dirty f ≡ true
      → IsSave u f (sync u d f w)
        × IsSave u f (flush u d f w)
        × ((sync_if_too_dirty u d f now w ≡ record { failure = none; file = f; world = w })
            ⊎ IsSave u f (sync_if_too_dirty u d f now w))
  unfolding sync flush sync_if_too_dirty
  dirty_kept f now w h = (
    rw h (save_to_device-IsSave f w),
    rw h (save_to_device-IsSave f w),
    elim (Bool-cases (DirtyTimestamp.has_been_dirty_for f.dirty f.dirty_timeout now)) [
      | inl e ↦ inr (rw e (save_to_device-IsSave f w))
      | inr e ↦ inl (rw e)
    ],
  )

  save-buffer : (f : FileBuffer) (s : Synced W) → IsSave u f s → s.file.buffer ≡ f.buffer
  save-buffer f s v = ground arith

  pub sync_if_too_dirty-kept :
      (f : FileBuffer) (now : ℕ) (w : W) → (sync_if_too_dirty u d f now w).file.buffer ≡ f.buffer
  unfolding sync_if_too_dirty
  sync_if_too_dirty-kept f now w =
      ground (arith, save-buffer f (save_to_device u d f w) (save_to_device-IsSave f w))

  pub sync_if_too_dirty_cases :
      (f : FileBuffer) (now : ℕ) (w : W)
      → (sync_if_too_dirty u d f now w ≡ record { failure = none; file = f; world = w })
        ⊎ (sync_if_too_dirty u d f now w ≡ save_to_device u d f w)
  unfolding sync_if_too_dirty
  sync_if_too_dirty_cases f now w =
      elim (Bool-cases (DirtyTimestamp.has_been_dirty_for f.dirty f.dirty_timeout now)) [
        | inl late ↦ inr (rw late)
        | inr early ↦ inl (rw early)
      ]

  pub flush_dirty :
      (f : FileBuffer) (w : W) → is_dirty f ≡ true → flush u d f w ≡ save_to_device u d f w
  unfolding flush
  flush_dirty f w h = rw h

  -- A stream that cannot be opened leaves the buffer as it was.
  pub load_from_device_unread :
      (f : FileBuffer) (w : W) (e : Error)
      → (d.open_read f.path w).0 ≡ err e
      → load_from_device u d f w
        ≡ record { failure = some (u.wrap_err e); file = f; world = (d.open_read f.path w).1 }
  unfolding load_from_device opened_read
  load_from_device_unread f w e h = rw h

  pub sync_dirty :
      (f : FileBuffer) (w : W) → is_dirty f ≡ true → sync u d f w ≡ save_to_device u d f w
  unfolding sync
  sync_dirty f w h = rw h

  pub sync_clean :
      (f : FileBuffer) (w : W) → is_dirty f ≡ false → sync u d f w ≡ load_from_device u d f w
  unfolding sync
  sync_clean f w h = rw h

  module _ (s : Store d) where
    write_to-pending :
        (h : ℕ) (p : Text) (bytes : List ℕ) (w : W)
        → s.pending w h ≡ some (p, [])
        → (write_to u d h bytes w).0 ≡ none
        → s.pending (write_to u d h bytes w).1 h ≡ some (p, bytes)
    unfolding write_to
    write_to-pending h p [] w open_h e = open_h
    write_to-pending h p (b ∷ bytes) w open_h e =
        s.write_pending h p [] (b ∷ bytes) w open_h (ground arith) (ground arith)

    closed_write-files :
        (f : FileBuffer) (h : ℕ) (r : Option Error × W)
        → (closed_write u d f h r).failure ≡ none
        → s.pending r.1 h ≡ none
        → (r.0 ≡ none) × (s.files (closed_write u d f h r).world ≡ s.files r.1)
    unfolding closed_write
    closed_write-files f h (none, w) e closed = (refl, s.close_again h w closed)
    closed_write-files f h (some x, w) e closed = absurd (cc)

    after_write-files :
        (f : FileBuffer) (h : ℕ) (r : Option Error × W) (xs : List ℕ)
        → (after_write u d f h r).failure ≡ none
        → (r.0 ≡ none → s.pending r.1 h ≡ some (f.path, xs))
        → s.files (after_write u d f h r).world f.path ≡ some xs
    unfolding after_write
    after_write-files f h (some x, w) xs e p = absurd (cc)
    after_write-files f h (none, w) xs e p =
        let (closed, same) = closed_write-files f h (d.close_writer h w) e (s.close_pending h w) in
        ap (λ (g : Text → Option (List ℕ)). g f.path) same
        ∙ s.close_files h f.path xs w (p refl) closed

    opened_write-files :
        (f : FileBuffer) (r : Result ℕ × W)
        → (opened_write u d f r).failure ≡ none
        → ((h : ℕ) → r.0 ≡ ok h → s.pending r.1 h ≡ some (f.path, []))
        → s.files (opened_write u d f r).world f.path ≡ some (contents f.buffer)
    unfolding opened_write
    opened_write-files f (err x, w) e p = absurd (cc)
    opened_write-files f (ok h, w) e p =
        after_write-files f h (write_to u d h (contents f.buffer) w) (contents f.buffer) e
          (write_to-pending h f.path (contents f.buffer) w (p h refl))

    -- A save that reports no error has stored the contents of the buffer in the file at its path.
    pub save_to_device-files :
        (f : FileBuffer) (w : W)
        → (save_to_device u d f w).failure ≡ none
        → s.files (save_to_device u d f w).world f.path ≡ some (contents f.buffer)
    unfolding save_to_device
    save_to_device-files f w e = opened_write-files f (d.open_write f.path f.perms w) e (λ h k.
        s.open_write_pending f.path f.perms h w (d.open_write f.path f.perms w).1 (ground arith))

    opened_read-files :
        (f : FileBuffer) (r : Result ℕ × W) (xs : List ℕ)
        → (opened_read u d f r).failure ≡ none
        → ((h : ℕ)
            → r.0 ≡ ok h
            → (d.read_all h r.1).0.failure ≡ none
            → (d.read_all h r.1).0.bytes ≡ xs)
        → contents (opened_read u d f r).file.buffer ≡ xs
    unfolding opened_read after_read
    opened_read-files f (err x, w) xs e p = absurd (cc)
    opened_read-files f (ok h, w) xs e p =
        contents-read_from (d.read_all h w).0.bytes (d.read_all h w).0.spare
        ∙ p h refl (ground arith)

    -- A load that reports no error fills the buffer with what the file holds.
    pub load_from_device-contents :
        (f : FileBuffer) (w : W) (xs : List ℕ)
        → s.files w f.path ≡ some xs
        → (load_from_device u d f w).failure ≡ none
        → contents (load_from_device u d f w).file.buffer ≡ xs
    unfolding load_from_device
    load_from_device-contents f w xs held e =
        opened_read-files f (d.open_read f.path w) xs e
          λ h k l. ground (arith, s.read_files f.path h w (d.open_read f.path w).1 (ground arith) l)

    -- What one buffer writes, another reads: if `Flush` of a dirty buffer reports no error, and in a
    -- later state in which the file is unchanged `Sync` of a clean buffer of the same path reports
    -- none, the second buffer has the contents of the first.
    pub sync-flush :
        (f g : FileBuffer) (w v : W)
        → is_dirty f ≡ true
        → is_dirty g ≡ false
        → g.path ≡ f.path
        → (flush u d f w).failure ≡ none
        → s.files v f.path ≡ s.files (flush u d f w).world f.path
        → (sync u d g v).failure ≡ none
        → contents (sync u d g v).file.buffer ≡ contents f.buffer
    sync-flush f g w v set unset same saved kept loaded = rw (sync_clean g v unset) (
        load_from_device-contents g v (contents f.buffer) held
          (rw (sync_clean g v unset) at loaded))
      where
        held : s.files v g.path ≡ some (contents f.buffer)
        held = rw same (
            kept
            ∙ rw (flush_dirty f w set)
                (save_to_device-files f w (rw (flush_dirty f w set) at saved)))
