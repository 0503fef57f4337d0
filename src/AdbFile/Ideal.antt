-- ===== src/AdbFile/Ideal.antt =====
-- adb_file.go and file_buffer.go: the files that are open on one buffer against an ideal file, which
-- is its bytes.
use adbfs.Base.{
  ℕ, ◌+◌, ◌-◌, ◌%◌, ◌^◌, ◌<◌, ◌≤◌, ◌≡◌, ◌⊎◌, refl, sym, ap, ap₂, ◌∙◌, subst, true, false, inl, inr,
  none, some, List, [], ◌∷◌, ◌++◌, length, replicate, pos, int64_pos, done, Returns, Returns-done,
  Returns-map, arith, Bool-cases, Text, Option,
}
use adbfs.Errors.{ErrUtil, IsErrUtil, to_errno, to_errno-IsWrapped}
use adbfs.Device.{DeviceClient}
use adbfs.Device.Store.{Store}
use adbfs.Device.Reads.{Reads}
use adbfs.Device.Failures.{FailsAsGoadb}
use adbfs.FileBuffer.Failures.{save_to_device-IsWrapped, load_from_device-IsWrapped}
use adbfs.FileBuffer.Untouched.{load_from_device-view}
use adbfs.FileOpenFlags.{can_read, can_write}
use adbfs.GrowableByteSlice.{contents}
use adbfs.GrowableByteSlice.Shape.{length-contents}
use adbfs.GrowableByteSlice.Reading.{pread}
use adbfs.GrowableByteSlice.Writing.{pwrite}
use adbfs.FileBuffer.{
  FileBuffer, Synced, is_dirty, load_from_device, save_to_device, sync_if_too_dirty,
}
use adbfs.FileBuffer
use adbfs.FileBuffer.Saving.{
  IsSave, save_to_device-IsSave, save_to_device-files, sync_dirty, sync_if_too_dirty_cases,
  sync_clean, load_from_device-contents,
}
use adbfs.FileBuffer.Editing.{IsSound, write_at-Edited, set_size-Edited}
use adbfs.AdbFile.{read, write, fsync, flush, truncate}
use adbfs.AdbFile.Data.{read-pread, flush_lem, flush_clean}

-- A call through one of the files, with its flags.
pub data FileStep : Type 0 where
  reads : ℕ → List ℕ → ℕ → FileStep
  writes : ℕ → List ℕ → ℕ → ℕ → ℕ → FileStep
  flushes : ℕ → FileStep
  truncates : ℕ → ℕ → ℕ → FileStep
  syncs : ℕ → FileStep

abbrev pub grown : ℕ → List ℕ → List ℕ
grown size xs = xs ++ replicate (size - length xs) 0

-- The calls that are described: those that the flags allow, at times that are not 0, to ends below 2 ^ 62,
-- and no truncation to less than there is.
abbrev pub AreFitting : List ℕ → List FileStep → Type 0
AreFitting xs [] = Unit
AreFitting xs (reads flags buf off ∷ steps) = (can_read flags ≡ true) × AreFitting xs steps
AreFitting xs (writes flags bytes off now later ∷ steps) =
    (can_write flags ≡ true)
    × (0 < now)
    × (off + length bytes < 2 ^ 62)
    × AreFitting (pwrite off bytes xs) steps
AreFitting xs (flushes flags ∷ steps) = (can_write flags ≡ true) × AreFitting xs steps
AreFitting xs (truncates flags size now ∷ steps) =
    (can_write flags ≡ true)
    × (0 < now)
    × (length xs ≤ size)
    × (size < 2 ^ 62)
    × AreFitting (grown size xs) steps
AreFitting xs (syncs flags ∷ steps) = AreFitting xs steps

module _ {W : Type 0} (u : ErrUtil) (d : DeviceClient W) (s : Store d) (keeps : Reads d s.files)
    (fails : FailsAsGoadb d) (path : Text) where
  -- The buffer, with the device, is the file of these bytes: a buffer that is not dirty holds what the
  -- device's file does.
  pub record IsFile (xs : List ℕ) (f : FileBuffer) (w : W) : Type 0 where
    pub sound : IsSound f
    pub held : contents f.buffer ≡ xs
    pub at_path : f.path ≡ path
    pub stored : is_dirty f ≡ false → s.files w path ≡ some xs

  -- What the calls answer, and leave on the device, against the ideal file: a read answers its bytes, a
  -- write and a truncation change them, and where a flush, a sync or a truncation reports success the
  -- device's file holds them. This ends at a sync with nothing to save, which reads the file again:
  -- where it reports success the buffer holds the ideal file's bytes.
  abbrev pub Refines : List ℕ → FileBuffer → W → List FileStep → Type 0
  Refines xs f w [] = IsFile xs f w
  Refines xs f w (reads flags buf off ∷ steps) =
      (read u d flags f buf (pos off)
        ≡ done (record { bytes = pread (length buf) off xs; status = 0 }))
      × Refines xs f w steps
  Refines xs f w (writes flags bytes off now later ∷ steps) =
      Returns (write u d flags f bytes (pos off) now later w)
        (λ r. (r.n ≡ length bytes % 2 ^ 32) × Refines (pwrite off bytes xs) r.file r.world steps)
  Refines xs f w (flushes flags ∷ steps) =
      ((flush u d flags f w).status ≡ 0 → s.files (flush u d flags f w).world path ≡ some xs)
      × Refines xs (flush u d flags f w).file (flush u d flags f w).world steps
  Refines xs f w (truncates flags size now ∷ steps) =
      Returns (truncate u d flags f size now w) (λ r.
        (r.status ≡ 0 → s.files r.world path ≡ some (grown size xs))
        × Refines (grown size xs) r.file r.world steps)
  Refines xs f w (syncs flags ∷ steps) =
      ((fsync u d flags f w).status ≡ 0 → s.files (fsync u d flags f w).world path ≡ some xs)
      × (((is_dirty f ≡ false)
            × ((fsync u d flags f w).status ≡ 0 → contents (fsync u d flags f w).file.buffer ≡ xs))
          ⊎ Refines xs (fsync u d flags f w).file (fsync u d flags f w).world steps)

  -- A save of a dirty buffer.
  after_save-IsFile :
      (xs : List ℕ) (f : FileBuffer) (v : Synced W)
      → IsSound f
      → contents f.buffer ≡ xs
      → f.path ≡ path
      → is_dirty f ≡ true
      → (v.failure ≡ none → s.files v.world f.path ≡ some (contents f.buffer))
      → IsSave u f v
      → IsFile xs v.file v.world
  after_save-IsFile xs f v sound held at dirty saved (inl (fine, e)) =
      subst (λ (g : FileBuffer). IsFile xs g v.world) (sym e)
        (record {
          sound = record { valid = sound.valid; clean = sound.clean };
          held = held;
          at_path = at;
          stored = λ _. ap (s.files v.world) (sym at) ∙ saved fine ∙ ap some held;
        })
  after_save-IsFile xs f v sound held at dirty saved (inr (x, fails, e)) =
      subst (λ (g : FileBuffer). IsFile xs g v.world) (sym e)
        (record { sound = sound; held = held; at_path = at; stored = λ no. absurd (cc) })

  save_to_device-IsFile :
      (xs : List ℕ) (f : FileBuffer) (w : W)
      → IsSound f
      → contents f.buffer ≡ xs
      → f.path ≡ path
      → is_dirty f ≡ true
      → IsFile xs (save_to_device u d f w).file (save_to_device u d f w).world
  save_to_device-IsFile xs f w sound held at dirty =
      after_save-IsFile xs f (save_to_device u d f w) sound held at dirty
        (save_to_device-files u d s f w) (save_to_device-IsSave u d f w)

  sync_if_too_dirty-IsFile :
      (xs : List ℕ) (f : FileBuffer) (now : ℕ) (w : W)
      → IsSound f
      → contents f.buffer ≡ xs
      → f.path ≡ path
      → is_dirty f ≡ true
      → IsFile xs (sync_if_too_dirty u d f now w).file (sync_if_too_dirty u d f now w).world
  sync_if_too_dirty-IsFile xs f now w sound held at dirty =
      elim (sync_if_too_dirty_cases u d f now w) [
        | inl kept ↦
            subst (λ (v : Synced W). IsFile xs v.file v.world) (sym kept)
              (record { sound = sound; held = held; at_path = at; stored = λ no. absurd (cc) })
        | inr saves ↦
            subst (λ (v : Synced W). IsFile xs v.file v.world) (sym saves)
              (save_to_device-IsFile xs f w sound held at dirty)
      ]

  write-IsFile :
      (xs : List ℕ) (f : FileBuffer) (w : W) (flags : ℕ) (bytes : List ℕ) (off now later : ℕ)
      → IsFile xs f w
      → can_write flags ≡ true
      → 0 < now
      → off + length bytes < 2 ^ 62
      → Returns
          (write u d flags f bytes (pos off) now later w)
          (λ r. (r.n ≡ length bytes % 2 ^ 32) × IsFile (pwrite off bytes xs) r.file r.world)
  unfolding write
  write-IsFile xs f w flags bytes off now later k allowed ticks fits =
      let (g, e, ed) = write_at-Edited f now k.sound ticks bytes off fits in
      rw (allowed, e)
        (
          refl,
          sync_if_too_dirty-IsFile (pwrite off bytes xs) g later w ed.sound
              (ed.held ∙ ap (pwrite off bytes) k.held) (ed.path ∙ k.at_path) ed.marked,
        )

  flush-IsFile :
      (law : IsErrUtil u) (xs : List ℕ) (f : FileBuffer) (w : W) (flags : ℕ)
      → IsFile xs f w
      → can_write flags ≡ true
      → let r = flush u d flags f w in
        (r.status ≡ 0 → s.files r.world path ≡ some xs) × IsFile xs r.file r.world
  flush-IsFile law xs f w flags k allowed = elim (Bool-cases (is_dirty f)) [
    | inl dirty ↦
        let v = save_to_device u d f w in
        rw (flush_lem u d flags f w allowed dirty) (
          λ e.
              ap (s.files v.world) (sym k.at_path)
              ∙ save_to_device-files u d s f w
                  (to_errno-IsWrapped u v.failure law (save_to_device-IsWrapped u d fails f w) e)
              ∙ ap some k.held,
          save_to_device-IsFile xs f w k.sound k.held k.at_path dirty,
        )
    | inr clean ↦ rw (flush_clean u d flags f w allowed clean) (λ e. k.stored clean, k)
  ]

  truncate-IsFile :
      (law : IsErrUtil u) (xs : List ℕ) (f : FileBuffer) (w : W) (flags size now : ℕ)
      → IsFile xs f w
      → can_write flags ≡ true
      → 0 < now
      → length xs ≤ size
      → size < 2 ^ 62
      → Returns (truncate u d flags f size now w) (λ r.
        (r.status ≡ 0 → s.files r.world path ≡ some (grown size xs))
        × IsFile (grown size xs) r.file r.world)
  unfolding truncate
  truncate-IsFile law xs f w flags size now k allowed ticks grows fits =
      let len : length xs ≡ f.buffer.len = ap length (sym k.held) ∙ length-contents k.sound.valid in
      let (g, e, ed) =
        Returns-done (FileBuffer.set_size f (pos size) now) _
          (set_size-Edited f now k.sound ticks size (omega (arith, len)) fits) in
      let v = save_to_device u d g w in
      let after : contents g.buffer ≡ grown size xs =
        ed.held ∙ ap₂ (λ (ys : List ℕ) (n : ℕ). ys ++ replicate (size - n) 0) k.held (sym len) in
      rw (allowed, int64_pos size (omega arith), e, sync_dirty u d g w ed.marked)
        (
          λ z.
              ap (s.files v.world) (sym (ed.path ∙ k.at_path))
              ∙ save_to_device-files u d s g w
                  (to_errno-IsWrapped u v.failure law (save_to_device-IsWrapped u d fails g w) z)
              ∙ ap some after,
          save_to_device-IsFile (grown size xs) g w ed.sound after (ed.path ∙ k.at_path) ed.marked,
        )

  load_from_device-reread :
      (law : IsErrUtil u) (xs : List ℕ) (f : FileBuffer) (w : W)
      → IsFile xs f w
      → is_dirty f ≡ false
      → let v = load_from_device u d f w in
        (s.files v.world path ≡ some xs) × (to_errno u v.failure ≡ 0 → contents v.file.buffer ≡ xs)
  load_from_device-reread law xs f w k clean = (
    ap (λ (g : Text → Option (List ℕ)). g path) (load_from_device-view u d s.files keeps f w)
        ∙ k.stored clean,
    λ fine.
        load_from_device-contents u d s f w xs (ap (s.files w) k.at_path ∙ k.stored clean)
          (to_errno-IsWrapped u _ law (load_from_device-IsWrapped u d fails f w) fine),
  )

  fsync-IsFile :
      (law : IsErrUtil u) (xs : List ℕ) (f : FileBuffer) (w : W) (flags : ℕ)
      → IsFile xs f w
      → let r = fsync u d flags f w in
        (r.status ≡ 0 → s.files r.world path ≡ some xs)
        × (((is_dirty f ≡ false) × (r.status ≡ 0 → contents r.file.buffer ≡ xs))
            ⊎ IsFile xs r.file r.world)
  unfolding fsync
  fsync-IsFile law xs f w flags k = elim (Bool-cases (is_dirty f)) [
    | inl dirty ↦
        let v = save_to_device u d f w in
        rw (sync_dirty u d f w dirty) (
          λ e.
              ap (s.files v.world) (sym k.at_path)
              ∙ save_to_device-files u d s f w
                  (to_errno-IsWrapped u v.failure law (save_to_device-IsWrapped u d fails f w) e)
              ∙ ap some k.held,
          inr (save_to_device-IsFile xs f w k.sound k.held k.at_path dirty),
        )
    | inr clean ↦
        let (unchanged, loaded) = load_from_device-reread law xs f w k clean in
        rw (sync_clean u d f w clean) (λ _. unchanged, inl (clean, loaded))
  ]

  -- On a device that meets the contract `Store`: any calls, in any order, through the files that are
  -- open on one buffer behave as those on an ideal file, whatever errors the device gives in between.
  -- None panics; a read succeeds with the bytes that the ideal file has there; and whenever a flush, a
  -- sync or a truncation reports success, the device's file has exactly the bytes of the ideal file.
  -- A sync that has nothing to save reads the file again, which has the bytes of the ideal file, and
  -- so has the buffer where it reports success; nothing is said of what comes after it. It starts from
  -- a sound buffer that is dirty or that holds what the device's file does. The calls are reads,
  -- writes that end below 2 ^ 62, flushes, syncs and truncations to no less than there is, and below
  -- 2 ^ 62, each through a file whose flags allow it. Reading changes no file of the device, and the
  -- device fails as goadb's client is documented to.
  pub run-Refines :
      IsErrUtil u
      → (steps : List FileStep) (xs : List ℕ) (f : FileBuffer) (w : W) → IsFile xs f w
      → AreFitting xs steps
      → Refines xs f w steps
  run-Refines law [] xs f w k h = k
  run-Refines law (reads flags buf off ∷ steps) xs f w k (allowed, rest) = (
    read-pread u d flags f buf off allowed k.sound.valid
        ∙ ap (λ (ys : List ℕ). done (record { bytes = pread (length buf) off ys; status = 0 }))
            k.held,
    run-Refines law steps xs f w k rest,
  )
  run-Refines law (writes flags bytes off now later ∷ steps) xs f w k (allowed, ticks, fits, rest) =
      Returns-map (write u d flags f bytes (pos off) now later w) _ _
        (λ r (n, still). (n, run-Refines law steps (pwrite off bytes xs) r.file r.world still rest))
        (write-IsFile xs f w flags bytes off now later k allowed ticks fits)
  run-Refines law (flushes flags ∷ steps) xs f w k (allowed, rest) =
      let (stored, still) = flush-IsFile law xs f w flags k allowed in
      (
        stored,
        run-Refines law steps xs (flush u d flags f w).file (flush u d flags f w).world still rest,
      )
  run-Refines law (truncates flags size now ∷ steps) xs f w k (allowed, ticks, grows, fits, rest) =
      Returns-map (truncate u d flags f size now w) _ _
        (λ r (stored, still).
          (stored, run-Refines law steps (grown size xs) r.file r.world still rest))
        (truncate-IsFile law xs f w flags size now k allowed ticks grows fits)
  run-Refines law (syncs flags ∷ steps) xs f w k rest =
      let (stored, still) = fsync-IsFile law xs f w flags k in
      (
        stored,
        elim still [
          | inl failed ↦ inl failed
          | inr k' ↦ inr (
              run-Refines law steps xs (fsync u d flags f w).file (fsync u d flags f w).world k'
                rest)
        ],
      )
