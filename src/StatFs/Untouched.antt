-- ===== src/StatFs/Untouched.antt =====
-- adb_filesystem.go, `StatFs`: it only reads.
use adbfs.Base.{◌≡◌, refl, ◌∙◌, Text, [], ◌∷◌, codes}
use adbfs.Errors.{ErrUtil, Result, ok, err}
use adbfs.Device.{DeviceClient, DirEntry}
use adbfs.Device.Reads.{Reads}
use adbfs.Links.{read_link_recursively}
use adbfs.Links.Untouched.{read_link_recursively-view}
use adbfs.StatFs.{after_command, after_resolving, stat_fs}

module _ {W A : Type 0} (u : ErrUtil) (d : DeviceClient W) (view : W → A)
    (reads : Reads d view) where
  after_command-view : (r : Result Text × W) → view (after_command u d r).1 ≡ view r.1
  after_command-view (err e, w) = refl
  after_command-view (ok output, w) = refl

  after_resolving-view :
      (r : Result (Text × DirEntry) × W) → view (after_resolving u d r).1 ≡ view r.1
  after_resolving-view (err e, w) = refl
  after_resolving-view (ok (name, entry), w) =
      after_command-view (d.run_command (codes "stat") (codes "-f" ∷ name ∷ []) w)
      ∙ reads.keep_stat_command (codes "-f" ∷ name ∷ []) w

  pub stat_fs-view : (name : Text) (w : W) → view (stat_fs u d name w).1 ≡ view w
  unfolding stat_fs
  stat_fs-view name w =
      after_resolving-view (read_link_recursively u d name w)
      ∙ read_link_recursively-view u d view reads name w
