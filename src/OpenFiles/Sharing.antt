-- ===== src/OpenFiles/Sharing.antt =====
-- open_files.go: the files that are open on one path at a time share one buffer.
use adbfs.Base.{ℕ, ◌≡◌, subst, arith, some, Text}
use adbfs.Errors.{Result, ok, err, ErrUtil}
use adbfs.Device.{DeviceClient}
use adbfs.OpenFiles.{OpenFiles, retain, get_or_load}
use adbfs.OpenFiles.Invariant.{IsValid, Room, Gives, Answers, get_or_load-Kept}

module _ {W : Type 0} (u : ErrUtil) (d : DeviceClient W) (path : Text) where
  pub get_or_load_old :
      (o : OpenFiles) (flags perms now i : ℕ) (w : W)
      → o.by_path path ≡ some i
      → get_or_load u d o path flags perms now w
        ≡ record { file = ok i; files = retain o i; world = w }
  unfolding get_or_load
  get_or_load_old o flags perms now i w at = rw (at, get_or_load)

  -- Once `GetOrLoad` has given a path a buffer, from valid open files, a further call for the path
  -- gives the same buffer, whatever its flags, permissions and time, makes no call of the device and
  -- counts one more file.
  get_or_load-twice :
      (o : OpenFiles) (flags perms now i : ℕ) (w : W)
      → IsValid o
      → Room o path
      → (get_or_load u d o path flags perms now w).file ≡ ok i
      → (flags' perms' now' : ℕ) (w' : W)
      → let o' = (get_or_load u d o path flags perms now w).files in
        get_or_load u d o' path flags' perms' now' w'
        ≡ record { file = ok i; files = retain o' i; world = w' }
  get_or_load-twice o flags perms now i w v room given flags' perms' now' w' =
      let kept = get_or_load-Kept u d o path flags perms now w v room in
      get_or_load_old (get_or_load u d o path flags perms now w).files flags' perms' now' i w'
        (reached _ _ given kept.1).1
    where
      reached :
          (files : OpenFiles) (r : Result ℕ)
          → r ≡ ok i
          → Answers o path files r
          → Gives files path i
      reached files (ok j) e a = subst (Gives files path) (ground arith) a
      reached files (err x) e a = absurd (cc)
