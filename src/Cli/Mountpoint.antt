-- ===== src/Cli/Mountpoint.antt =====
-- internal/cli/mountpoint.go.
pub mod Names
use adbfs.Base.{
  ℕ, Bool, true, false, ◌&&◌, ◌||◌, if◌then◌else◌, leb, ◌==◌, List, [], ◌∷◌, ◌++◌, Text, Option,
  none, some,
}
use adbfs.Paths.{path_join}

-- `adb.DeviceInfo`.
pub record DeviceInfo : Type 0 where
  pub model : Text
  pub serial : Text

-- The bytes of `[-[:alnum:]]`.
abbrev pub is_kept : ℕ → Bool
is_kept c = c == 45 || leb 48 c && leb c 57 || leb 65 c && leb c 90 || leb 97 c && leb c 122

abbrev pub underscore : ℕ
underscore = 95

-- Each longest run of other bytes is replaced by one underscore. The test says whether the text
-- stands within such a run.
unfoldable pub replaced : Bool → Text → Text
replaced in_run [] = []
replaced in_run (c ∷ s) =
    let kept = replaced false s in
    let other = replaced true s in
    if is_kept c then c ∷ kept else if in_run then other else underscore ∷ other

abbrev pub build_dir_name_for_device : DeviceInfo → Text
build_dir_name_for_device d = replaced false (d.model ++ 45 ∷ d.serial)

-- The errors of package os: the value `os.ErrNotExist`, and one with an operation and a path.
pub data OsError : Type 0 where
  err_not_exist : OsError
  path_error : ℕ → OsError
  directory_exists : Text → OsError

-- What is used of the operating system, over its state: `os.Stat` and `os.Mkdir`.
pub record Os (W : Type 0) : Type 0 where
  pub stat_error : Text → W → Option OsError
  pub make_dir : Text → W → Option OsError × W

abbrev pub is_err_not_exist : Option OsError → Bool
is_err_not_exist (some err_not_exist) = true
is_err_not_exist e = false

module _ {W : Type 0} (os : Os W) where
  abbrev pub does_file_exist : Text → W → Bool
  does_file_exist path w = is_err_not_exist (os.stat_error path w)

  -- `NewMountpointForDevice`, whose device info has the serial number, too: the mountpoint, the error
  -- and the state after it.
  unfoldable pub new_mountpoint_for_device : DeviceInfo → Text → W → (Text × Option OsError) × W
  new_mountpoint_for_device d mount_root w =
      let mountpoint = path_join (mount_root ∷ build_dir_name_for_device d ∷ []) in
      if does_file_exist mountpoint w
      then ((mountpoint, some (directory_exists mountpoint)), w)
      else (let (e, w') = os.make_dir mountpoint w in ((mountpoint, e), w'))
