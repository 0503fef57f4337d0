-- ===== src/AdbFileSystem/Mounted.antt =====
-- adb_filesystem.go, `NewAdbFileSystem`: the filesystem that it makes.
use adbfs.Base.{◌≡◌, refl, [], ◌∷◌, Text}
use adbfs.Errors.{ErrUtil, Result, ok, err}
use adbfs.Device.{DeviceClient, DirEntry}
use adbfs.Device.Reads.{Reads}
use adbfs.Links.{read_link_recursively}
use adbfs.Links.Untouched.{read_link_recursively-view}
use adbfs.OpenFiles.Clean.{AllClean, new_open_files-AllClean}
use adbfs.AdbFileSystem.{Config, AdbFileSystem, trim_slash, rooted, mounted, new_adb_file_system}

-- The filesystem is as it was configured, without open files, and nothing of the device has changed.
pub record Made {W A : Type 0} (view : W → A) (config : Config) (w w' : W) (fs : AdbFileSystem)
    : Type 0 where
  pub mountpoint : fs.config.mountpoint ≡ config.mountpoint
  pub read_only : fs.config.read_only ≡ config.read_only
  pub clean : AllClean fs.open_files
  pub unseen : view w' ≡ view w

module _ {W A : Type 0} (u : ErrUtil) (d : DeviceClient W) (view : W → A) (reads : Reads d view)
    (config : Config) (w : W) where
  abbrev pub Makes : Result AdbFileSystem × W → Type 0
  Makes (err e, w') = view w' ≡ view w
  Makes (ok fs, w') = Made view config w w' fs

  resolved-Makes :
      (r : Result (Text × DirEntry)) (w1 : W)
      → view w1 ≡ view w
      → Makes (mounted config.mountpoint config.read_only r, w1)
  resolved-Makes (err e) w1 same = same
  resolved-Makes (ok (t, e)) w1 same = record {
    mountpoint = refl;
    read_only = refl;
    clean = new_open_files-AllClean 0;
    unseen = same;
  }

  rooted-Makes : (root : Text) → Makes (rooted u d config root w)
  rooted-Makes [] = record {
    mountpoint = refl;
    read_only = refl;
    clean = new_open_files-AllClean 0;
    unseen = refl;
  }
  rooted-Makes (c ∷ s) =
      resolved-Makes (read_link_recursively u d (c ∷ s) w).0 (read_link_recursively u d (c ∷ s) w).1
        (read_link_recursively-view u d view reads (c ∷ s) w)

  pub new_adb_file_system-Makes : Makes (new_adb_file_system u d config w)
  unfolding new_adb_file_system
  new_adb_file_system-Makes = rooted-Makes (trim_slash config.device_root)
