-- ===== src/Cli/Flags.antt =====
-- internal/cli/base_config.go, internal/cli/adbfs_config.go and `formatFlag` of internal/cli/cli.go:
-- a configuration as arguments. What `%v` makes of a number and of a duration is a parameter.
use adbfs.Base.{Bool, true, false, List, [], ◌∷◌, ◌++◌, Text, codes, ℤ}

-- The values that are passed to `formatFlag`.
pub data FlagValue : Type 0 where
  of_bool : Bool → FlagValue
  of_int : ℤ → FlagValue
  of_string : Text → FlagValue
  of_duration : ℤ → FlagValue

pub record Formats : Type 0 where
  pub int_text : ℤ → Text
  pub duration_text : ℤ → Text

pub record BaseConfig : Type 0 where
  pub adb_port : ℤ
  pub connection_pool_size : ℤ
  pub log_level : Text
  pub verbose : Bool
  pub cache_ttl : ℤ
  pub serve_debug : Bool
  pub device_root : Text
  pub read_only : Bool
  pub path_to_adb : Text

pub record AdbfsConfig : Type 0 where
  pub base : BaseConfig
  pub device_serial : Text
  pub mountpoint : Text

module _ (formats : Formats) where
  abbrev pub format_flag : Text → FlagValue → Text
  format_flag name (of_bool true) = codes "--" ++ name
  format_flag name (of_bool false) = codes "--no-" ++ name
  format_flag name (of_int n) = codes "--" ++ name ++ codes "=" ++ formats.int_text n
  format_flag name (of_string s) = codes "--" ++ name ++ codes "=" ++ s
  format_flag name (of_duration n) = codes "--" ++ name ++ codes "=" ++ formats.duration_text n

  -- `BaseConfig.AsArgs`.
  abbrev pub base_args : BaseConfig → List Text
  base_args c =
      format_flag (codes "port") (of_int c.adb_port)
      ∷ format_flag (codes "pool") (of_int c.connection_pool_size)
      ∷ format_flag (codes "log") (of_string c.log_level)
      ∷ format_flag (codes "cachettl") (of_duration c.cache_ttl)
      ∷ format_flag (codes "debug") (of_bool c.serve_debug)
      ∷ format_flag (codes "verbose") (of_bool c.verbose)
      ∷ format_flag (codes "device-root") (of_string c.device_root)
      ∷ format_flag (codes "readonly") (of_bool c.read_only)
      ∷ format_flag (codes "adb") (of_string c.path_to_adb)
      ∷ []

  -- `AdbfsConfig.AsArgs`.
  abbrev pub as_args : AdbfsConfig → List Text
  as_args c =
      base_args c.base
      ++ format_flag (codes "device") (of_string c.device_serial)
        ∷ format_flag (codes "mountpoint") (of_string c.mountpoint)
        ∷ []
