-- ===== src/Adbfs/StartUp.antt =====
-- cmd/adbfs/main.go, `main` up to its loop. What the operating system, adb, go-fuse and `startServer`
-- answer is an argument; an error of theirs ends the program by `Log.Fatal`.
pub mod Served
mod Tests
use adbfs.Base.{Bool, true, false, if◌then◌else◌, List, [], ◌∷◌, Text, codes, Option, none, some}
use adbfs.Errors.{ErrUtil, Result, ok, err}
use adbfs.Device.{DeviceClient}
use adbfs.Paths.{is_rooted, clean, path_join}
use adbfs.Cli.Flags.{AdbfsConfig}
use adbfs.Cli.MountRoot.{Stat, unreadable, no_directory, directory}
use adbfs.AdbFileSystem.{Config, AdbFileSystem, new_adb_file_system}
use adbfs.Adbfs.StartServer.{Started, ready, unknown_error, timed_out}

-- `os.Getwd` and `os.Stat`, whether `adb.NewServer` and `nodefs.MountRoot` succeed, and what
-- `startServer` returns.
pub record Surroundings : Type 0 where
  pub working_directory : Option Text
  pub stat : Text → Stat
  pub new_server : Bool
  pub mount_root : Text → Bool
  pub start_server : Started

-- Where the program ends.
pub data Fault : Type 0 where
  no_serial no_mountpoint no_absolute no_valid_mountpoint no_server no_file_system : Fault
  not_mounted not_started : Fault

pub data StartUp : Type 0 where
  fatal : Fault → StartUp
  -- The loop is reached, with the filesystem that is served and where.
  serving : Text → AdbFileSystem → StartUp

-- `filepath.Abs`.
abbrev pub abs : Option Text → Text → Option Text
abs working path =
    if is_rooted path
    then some (clean path)
    else elim working [ none ↦ none | some dir ↦ some (path_join (dir ∷ path ∷ [])) ]

abbrev pub is_directory : Stat → Bool
is_directory directory = true
is_directory no_directory = false
is_directory unreadable = false

-- `checkValidMountpoint`, where true is no error.
abbrev check_valid_mountpoint : Surroundings → Text → Bool
check_valid_mountpoint e path = is_directory (e.stat path)

-- The filesystem's part of `fs.Config` that `initializeFileSystem` fills.
abbrev pub file_system_config : AdbfsConfig → Text → Config
file_system_config config mountpoint = record {
  mountpoint = mountpoint;
  device_root = config.base.device_root;
  read_only = config.base.read_only;
}

abbrev after_start_server : Text → AdbFileSystem → Started → StartUp
after_start_server at fs ready = serving at fs
after_start_server at fs unknown_error = fatal not_started
after_start_server at fs timed_out = fatal not_started

module _ {W : Type 0} (u : ErrUtil) (d : DeviceClient W) (e : Surroundings)
    (config : AdbfsConfig) where
  abbrev after_file_system : Text → Result AdbFileSystem × W → StartUp × W
  after_file_system at (err x, w) = (fatal no_file_system, w)
  after_file_system at (ok fs, w) =
      (if e.mount_root at then after_start_server at fs e.start_server else fatal not_mounted, w)

  abbrev at_mountpoint : Option Text → W → StartUp × W
  at_mountpoint none w = (fatal no_absolute, w)
  at_mountpoint (some at) w =
      if check_valid_mountpoint e at
      then (if e.new_server
          then after_file_system at (new_adb_file_system u d (file_system_config config at) w)
          else (fatal no_server, w))
      else (fatal no_valid_mountpoint, w)

  abbrev given_mountpoint : Text → W → StartUp × W
  given_mountpoint [] w = (fatal no_mountpoint, w)
  given_mountpoint (c ∷ s) w = at_mountpoint (abs e.working_directory (c ∷ s)) w

  abbrev with_serial : Text → W → StartUp × W
  with_serial [] w = (fatal no_serial, w)
  with_serial (c ∷ s) w = given_mountpoint config.mountpoint w

  unfoldable pub start_up : W → StartUp × W
  start_up w = with_serial config.device_serial w
