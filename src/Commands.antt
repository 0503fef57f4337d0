-- ===== src/Commands.antt =====
-- adb_filesystem.go, `mkdir`, `rename`, `rmdir` and `unlink`: commands that print nothing where they
-- succeed.
use adbfs.Base.{List, [], ◌∷◌, Text, codes, Option, none, some}
use adbfs.Errors.{Error, Result, ok, err, no_permission, errno, einval}
use adbfs.Device.{DeviceClient}

abbrev quiet : Error → Result Text → Option Error
quiet failure (err e) = some e
quiet failure (ok []) = none
quiet failure (ok (c ∷ s)) = some failure

module _ {W : Type 0} (d : DeviceClient W) where
  abbrev pub run_quiet : Text → List Text → Error → W → Option Error × W
  run_quiet cmd args failure w = let (r, w') = d.run_command cmd args w in (quiet failure r, w')

  unfoldable pub mkdir : Text → W → Option Error × W
  mkdir path w = run_quiet (codes "mkdir") (path ∷ []) no_permission w

  unfoldable pub rename : Text → Text → W → Option Error × W
  rename old_name new_name w = run_quiet (codes "mv") (old_name ∷ new_name ∷ []) no_permission w

  unfoldable pub rmdir : Text → W → Option Error × W
  rmdir name w = run_quiet (codes "rmdir") (name ∷ []) (errno einval) w

  unfoldable pub unlink : Text → W → Option Error × W
  unlink name w = run_quiet (codes "rm") (name ∷ []) no_permission w
