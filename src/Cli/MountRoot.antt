-- ===== src/Cli/MountRoot.antt =====
-- internal/cli/paths.go and the paths of internal/cli/automount_config.go. A call that logs a fatal
-- error ends the program.
pub mod Directories
use adbfs.Base.{
  Bool, true, false, List, [], ◌∷◌, Text, codes, text_eq, if◌then◌else◌, Option, none, some,
}
use adbfs.Paths.{path_join}
use adbfs.Cli.Version.{Exit, check_executable_version_matches}

-- What `os.Stat` says of a path.
pub data Stat : Type 0 where
  unreadable no_directory directory : Stat

-- A value, or the end of the program.
pub data Fatal (A : Type 0) : Type 0 where
  value : A → Fatal A
  fatal : Fatal A

-- `home`, where none stands for an error, and `mountRootsByOS`.
abbrev pub home : Option Text → Text → Text
home none rel_path = []
home (some home_dir) rel_path = path_join (home_dir ∷ rel_path ∷ [])

abbrev pub mount_roots_by_os : Text → Text → List Text
mount_roots_by_os os home_mount_root =
    if text_eq os (codes "darwin")
    then home_mount_root ∷ codes "/Volumes" ∷ []
    else if text_eq os (codes "linux")
    then home_mount_root ∷ codes "/mnt" ∷ []
    else []

module _ (stat : Text → Stat) where
  abbrev or_next : Stat → Text → Fatal Text → Fatal Text
  or_next directory path rest = value path
  or_next no_directory path rest = rest
  or_next unreadable path rest = rest

  unfoldable pub first_existent_dir : List Text → Fatal Text
  first_existent_dir [] = fatal
  first_existent_dir (path ∷ paths) = or_next (stat path) path (first_existent_dir paths)

  -- `FindDefaultMountRoot`, by the operating system and the home directory of the user.
  unfoldable pub find_default_mount_root : Text → Option Text → Fatal Text
  find_default_mount_root os home_dir =
      first_existent_dir (mount_roots_by_os os (home home_dir (codes "/mnt")))

  abbrev checked_root : Text → Stat → Fatal Text
  checked_root root directory = value root
  checked_root root no_directory = fatal
  checked_root root unreadable = fatal

  abbrev root_given : Fatal Text → Fatal Text
  root_given fatal = fatal
  root_given (value []) = fatal
  root_given (value (c ∷ s)) = checked_root (c ∷ s) (stat (c ∷ s))

  -- `initializeMountRoot`, with the default roots of the operating system.
  unfoldable pub initialize_mount_root : List Text → Text → Fatal Text
  initialize_mount_root defaults [] = root_given (first_existent_dir defaults)
  initialize_mount_root defaults (c ∷ s) = root_given (value (c ∷ s))

-- `exec.LookPath`, and how a program ends that is asked for its version, with its output.
pub record Programs : Type 0 where
  pub look_path : Text → Option Text
  pub version_exit : Text → Exit
  pub version_output : Text → Text

abbrev pub adbfs_name : Text
adbfs_name = codes "adbfs"

abbrev expected_version : Bool → Text → Text
expected_version true version = []
expected_version false version = version

module _ (programs : Programs) (version : Text) where
  abbrev accepted : Text → Bool → Fatal Text
  accepted path true = value path
  accepted path false = fatal

  abbrev verified : Bool → Option Text → Fatal Text
  verified allow_any none = fatal
  verified allow_any (some path) = accepted path (
      check_executable_version_matches adbfs_name (expected_version allow_any version)
        (programs.version_exit path) (programs.version_output path))

  -- `initializeAdbfs`, by whether any version is allowed and by the path that was given.
  unfoldable pub initialize_adbfs : Bool → Text → Fatal Text
  initialize_adbfs allow_any [] = verified allow_any (programs.look_path adbfs_name)
  initialize_adbfs allow_any (c ∷ s) = verified allow_any (some (c ∷ s))

abbrev both : Fatal Text → Fatal Text → Fatal (Text × Text)
both fatal other = fatal
both (value a) fatal = fatal
both (value a) (value b) = value (a, b)

-- `InitializePaths`: the mount root and the program.
abbrev pub initialize_paths :
    (Text → Stat) → Programs → Text → List Text → Bool → Text → Text → Fatal (Text × Text)
initialize_paths stat programs version defaults allow_any mount_root path_to_adbfs =
    both (initialize_mount_root stat defaults mount_root)
      (initialize_adbfs programs version allow_any path_to_adbfs)
