-- ===== src/OpenFiles/Schedule.antt =====
-- open_files.go and `Release` of adb_file.go under interleaving: the count of a buffer is taken down
-- in one step and its handler, if there is one to run, takes a later step.
use adbfs.Base.{ℕ, ◌+◌, ◌≡◌, if◌then◌else◌, ◌==◌, some, Text, ℤ, done}
use adbfs.Errors.{ErrUtil}
use adbfs.Device.{DeviceClient}
use adbfs.FileBuffer.{FileBuffer}
use adbfs.OpenFiles.{OpenFiles, new_open_files, store, is_zero, get_or_load, release, drop_count}
use adbfs.OpenFiles.Invariant.{Room}

-- The open files, how many handlers of each buffer are yet to run, and the device.
pub record Running (W : Type 0) : Type 0 where
  pub files : OpenFiles
  pub pending : ℕ → ℕ
  pub world : W

abbrev pub set_pending : (ℕ → ℕ) → ℕ → ℕ → ℕ → ℕ
set_pending pending i n j = if i == j then n else pending j

module _ {W : Type 0} (u : ErrUtil) (d : DeviceClient W) where
  abbrev pub opening : Running W → Text → ℕ → ℕ → ℕ → Running W
  opening s path flags perms now =
      let r = get_or_load u d s.files path flags perms now s.world in
      record s { files = r.files; world = r.world }

  pub data Step : Running W → Running W → Type 0 where
    -- `GetOrLoad`, where the count does not wrap around.
    opened :
        {s : Running W} (path : Text) (flags perms now : ℕ)
        → Room s.files path
        → Step s (opening s path flags perms now)
    -- Any operation on a buffer that is not about its count.
    used :
        {s : Running W} (i : ℕ) (f g : FileBuffer) (w : W)
        → s.files.buffers i ≡ some f
        → g.path ≡ f.path
        → g.ref_count ≡ f.ref_count
        → Step s (record s { files = store s.files i g; world = w })
    -- The count of `Release`.
    counted :
        {s : Running W} (i : ℕ) (o : OpenFiles) (n : ℤ)
        → drop_count s.files i ≡ done (o, n)
        → Step s (record s {
          files = o;
          pending = if is_zero n then set_pending s.pending i (s.pending i + 1) else s.pending;
        })
    -- The handler.
    handled :
        {s : Running W} (i k : ℕ)
        → s.pending i ≡ k + 1
        → Step s (record s { files = release s.files i; pending = set_pending s.pending i k })

  pub data Run : Running W → Running W → Type 0 where
    stop : {s : Running W} → Run s s
    next : {s t r : Running W} → Step s t → Run t r → Run s r

abbrev pub started : {W : Type 0} → ℕ → W → Running W
started timeout w = record { files = new_open_files timeout; pending = λ i. 0; world = w }
