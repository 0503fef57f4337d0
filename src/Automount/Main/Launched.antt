-- ===== src/Automount/Main/Launched.antt =====
-- cmd/adbfs-automount/main.go, `mountDevice`: what the program that is started reads, and the
-- handlers that are run.
use adbfs.Base.{◌≡◌, List, map, Text}
use adbfs.Cli.Flags.{Formats, BaseConfig, AdbfsConfig}
use adbfs.Cli.Registry.{Libraries, adbfs_flags, Reader, ReadsFlags, flag_value}
use adbfs.Cli.Registry.Arguments.{variables, flag_value-drop-as_args}
use adbfs.Automount.{new_mount_process, command_line}

-- The program that is started for a device reads, from its command line, what `adbfs-automount` was
-- configured by, with the device and the mountpoint, for each of its flags but the port: for that it
-- takes the default, whatever port `adbfs-automount` was told to use.
pub command_line-variables :
    (formats : Formats) (libraries : Libraries) (read : Reader)
    → ReadsFlags read (adbfs_flags formats libraries)
    → (path : Text) (base : BaseConfig) (serial mountpoint : Text)
    → let config : AdbfsConfig = record {
      base = base;
      device_serial = serial;
      mountpoint = mountpoint;
    } in
      map
        (flag_value (read (command_line (new_mount_process formats path config))))
        (adbfs_flags formats libraries)
      ≡ variables formats (record config { base = record base { adb_port = libraries.adb_port } })
command_line-variables formats libraries read reads path base serial mountpoint =
    flag_value-drop-as_args formats libraries read reads
      (record { base = base; device_serial = serial; mountpoint = mountpoint })
