-- ===== src/Cli/Start/Tests.antt =====
-- internal/cli: loggers of configurations.
use adbfs.Base.{
  ◌≡◌, refl, true, false, Text, text_eq, codes, pos, Option, none, some, done, [], if◌then◌else◌,
}
use adbfs.Cli.Flags.{BaseConfig}
use adbfs.Cli.MountRoot.{value, fatal}
use adbfs.Cli.Start.{Level, create_logger, initialize}

abbrev levels : Text → Option Level
levels s = if text_eq s (codes "info") then some 4 else none

abbrev base : BaseConfig
base = record {
  adb_port = pos 5037;
  connection_pool_size = pos 2;
  log_level = codes "loud";
  verbose = false;
  cache_ttl = pos 300000000;
  serve_debug = true;
  device_root = codes "/sdcard";
  read_only = true;
  path_to_adb = [];
}

-- A level without meaning is not looked at in a verbose program.
verbose : create_logger levels (record base { verbose = true }) ≡ value 5
unfolding create_logger
verbose = refl

loud : create_logger levels base ≡ fatal
unfolding create_logger text_eq
loud = refl

info :
    initialize levels (codes "adbfs") (record base { log_level = codes "info" })
    ≡ done (value (record { level = 4; debug_server = true }))
unfolding initialize text_eq
info = refl
