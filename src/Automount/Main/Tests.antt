-- ===== src/Automount/Main/Tests.antt =====
-- cmd/adbfs-automount/main.go: a program that mounts a device and is interrupted.
use adbfs.Base.{◌≡◌, true, false, List, [], ◌∷◌, map, codes, none, some, pos}
use adbfs.Cli.Flags.{BaseConfig, AdbfsConfig}
use adbfs.Cli.Registry.{adbfs_flags, flag_value}
use adbfs.Cli.Registry.Arguments.{variables}
use adbfs.Cli.Registry.Scanner.{formats, libraries, scanner, scanner-ReadsFlags}
use adbfs.Cli.Handlers.{model_handler_var, path_handler_var, Running}
use adbfs.Cli.Handlers.Expansion.{Handler, plain, named, in_braces}
use adbfs.Automount.{Outcomes, new_mount_process, command_line, Received, came_online, interrupted}
use adbfs.Automount.Main.Launched.{command_line-variables}

abbrev base : BaseConfig
base = record {
  adb_port = pos 5038;
  connection_pool_size = pos 2;
  log_level = codes "info";
  verbose = false;
  cache_ttl = pos 300000000;
  serve_debug = false;
  device_root = codes "/sdcard";
  read_only = true;
  path_to_adb = [];
}

abbrev config : AdbfsConfig
config = record { base = base; device_serial = codes "s1"; mountpoint = codes "/mnt/my phone" }

command_line-variables_example :
    map
      (flag_value (scanner (command_line (new_mount_process formats (codes "adbfs") config))))
      (adbfs_flags formats libraries)
    ≡ variables formats (record config { base = record base { adb_port = pos 5037 } })
command_line-variables_example =
    command_line-variables formats libraries scanner scanner-ReadsFlags (codes "adbfs") base
      (codes "s1") (codes "/mnt/my phone")

abbrev events : List Received
events = came_online (codes "s1") ∷ interrupted ∷ []

abbrev say : List Handler
say = (plain (codes "say") ∷ [], (named model_handler_var ∷ []) ∷ []) ∷ []

abbrev remove : List Handler
remove = (plain (codes "rm") ∷ [], (in_braces path_handler_var ∷ plain (codes ".x") ∷ []) ∷ []) ∷ []

abbrev running : Running
running = λ c. ([], none)

abbrev fine : Outcomes
fine = record {
  model = some (codes "Nexus 5");
  new_mountpoint = some (codes "/mnt/my phone");
  starts = true;
}
