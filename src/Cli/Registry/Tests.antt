-- ===== src/Cli/Registry/Tests.antt =====
-- internal/cli: a configuration, printed and read.
use adbfs.Base.{◌≡◌, true, false, [], codes, pos, map}
use adbfs.Cli.Flags.{AdbfsConfig, as_args}
use adbfs.Cli.Registry.{adbfs_flags, flag_value}
use adbfs.Cli.Registry.Arguments.{variables, flag_value-as_args}
use adbfs.Cli.Registry.Scanner.{formats, libraries, scanner, scanner-ReadsFlags}

abbrev config : AdbfsConfig
config = record {
  base = record {
    adb_port = pos 5038;
    connection_pool_size = pos 2;
    log_level = codes "debug";
    verbose = false;
    cache_ttl = pos 300000000;
    serve_debug = true;
    device_root = codes "/sdcard/=x";
    read_only = false;
    path_to_adb = [];
  };
  device_serial = codes "s1";
  mountpoint = codes "/mnt/my phone";
}

flag_value-as_args_example :
    map (flag_value (scanner (as_args formats config))) (adbfs_flags formats libraries)
    ≡ variables formats config
flag_value-as_args_example = flag_value-as_args formats libraries scanner scanner-ReadsFlags config
