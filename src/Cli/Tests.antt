-- ===== src/Cli/Tests.antt =====
-- Versions and directory names at concrete texts.
use adbfs.Base.{
  if◌then◌else◌, ◌≡◌, ◌⊎◌, refl, true, false, [], ◌∷◌, ◌++◌, Text, text_eq, codes, some, none,
}
use adbfs.Paths.Plain.{all_plain}
use adbfs.Cli.Mountpoint.{DeviceInfo, replaced, build_dir_name_for_device, path_error, Os}
use adbfs.Cli.Mountpoint.Names.{is_clean, build_dir_name_for_device-all_plain}
use adbfs.Cli.MountRoot.{
  Stat, directory, unreadable, Programs, first_existent_dir, initialize_mount_root,
  initialize_adbfs,
}
use adbfs.Cli.MountRoot.Directories.{Versioned, initialize_paths-Versioned}
use adbfs.Cli.Version.{span, match_line, lines, first_match, parse_version, exited}

abbrev warning : Text
warning = codes "warning: x"

abbrev output : Text
output = codes "adbfs v1.0.0" ++ 10 ∷ []

other_version : parse_version (codes "adbfs v1.0") ≡ none
unfolding span match_line lines first_match
other_version = refl

abbrev odd : DeviceInfo
odd = record { model = codes "../Nexus__5"; serial = codes "a:b" }

odd_name : build_dir_name_for_device odd ≡ codes "_Nexus_5-a_b"
unfolding replaced
odd_name = refl

build_dir_name_for_device-all_plain_example :
    (all_plain (build_dir_name_for_device odd ∷ []) ≡ true)
    × (is_clean (build_dir_name_for_device odd) ≡ true)
    × (replaced false (build_dir_name_for_device odd) ≡ build_dir_name_for_device odd)
build_dir_name_for_device-all_plain_example = build_dir_name_for_device-all_plain odd

-- Every name exists already.
abbrev full : Os Unit
full = record { stat_error = λ p w. none; make_dir = λ p w. (some (path_error 17), w) }

-- One directory, and a program that prints its version.
abbrev one_directory : Text → Stat
one_directory path = if text_eq path (codes "/mnt") then directory else unreadable

abbrev programs : Programs
programs = record {
  look_path = λ name. some (codes "/bin/adbfs");
  version_exit = λ path. exited 2;
  version_output = λ path. output;
}

initialize_paths-Versioned_example :
    (one_directory (codes "/mnt") ≡ directory)
    × ((◌≡◌ {A = Text} [] []) ⊎ (◌≡◌ {A = Text} [] (codes "/mnt")))
    × Versioned programs (codes "1.0.0") false (codes "/bin/adbfs")
unfolding span match_line lines first_match text_eq first_existent_dir initialize_mount_root
    initialize_adbfs
initialize_paths-Versioned_example =
    initialize_paths-Versioned one_directory programs (codes "1.0.0")
      (codes "/home/me/mnt" ∷ codes "/mnt" ∷ []) false [] [] (codes "/mnt") (codes "/bin/adbfs")
      refl
