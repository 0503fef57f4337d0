-- ===== src/Cli/Registry/Arguments.antt =====
-- internal/cli, `AsArgs`: what a program reads from the arguments that another one was configured by.
use adbfs.Base.{
  ◌≡◌, refl, ap, ◌∙◌, drop, Bool, true, false, if◌then◌else◌, List, [], ◌∷◌, map, Text, codes,
  text_eq, Option, none,
}
use mathlib.Core.Path.{fun_ext}
use adbfs.Cli.Flags.{
  Formats, AdbfsConfig, format_flag, as_args, of_bool, of_int, of_string, of_duration,
}
use adbfs.Cli.Registry.{
  Libraries, adbfs_flags, Reader, Sets, ReadsFlag, ReadsFlags, flag_value, or_later, bool_var,
}

abbrev pub bool_text : Bool → Text
bool_text true = codes "true"
bool_text false = codes "false"

-- The variables of the flags of adbfs, in the order in which they are registered.
abbrev pub variables : Formats → AdbfsConfig → List Text
variables formats c =
    formats.int_text c.base.adb_port
    ∷ formats.int_text c.base.connection_pool_size
    ∷ formats.duration_text c.base.cache_ttl
    ∷ bool_text c.base.serve_debug
    ∷ c.base.device_root
    ∷ bool_text c.base.read_only
    ∷ c.base.path_to_adb
    ∷ c.base.log_level
    ∷ bool_text c.base.verbose
    ∷ c.device_serial
    ∷ c.mountpoint
    ∷ []

-- An argument, with the flag that it sets and the value that it gives.
record Setting : Type 0 where
  argument : Text
  name : Text
  value : Text

last_setting : List Setting → Text → Option Text
last_setting [] n = none
last_setting (s ∷ ss) n =
    if text_eq n s.name then or_later (last_setting ss n) s.value else last_setting ss n

abbrev arguments : List Setting → List Text
arguments [] = []
arguments (s ∷ ss) = s.argument ∷ arguments ss

abbrev AllSet : Reader → List Setting → Type 0
AllSet read [] = Unit
AllSet read (s ∷ ss) = Sets read s.argument s.name s.value × AllSet read ss

read-last_setting :
    (read : Reader) (ss : List Setting)
    → ((n : Text) → read [] n ≡ none)
    → AllSet read ss
    → (n : Text) → read (arguments ss) n ≡ last_setting ss n
unfolding last_setting
read-last_setting read [] start h n = start n
read-last_setting read (s ∷ ss) start (h, hs) n =
    h (arguments ss) n ∙ rw (read-last_setting read ss start hs n) refl

module _ (formats : Formats) (libraries : Libraries) (read : Reader)
    (reads : ReadsFlags read (adbfs_flags formats libraries)) (c : AdbfsConfig) where
  bool_setting : Text → Bool → Setting
  bool_setting name b = record {
    argument = format_flag formats name (of_bool b);
    name = name;
    value = bool_text b;
  }

  bool-Sets :
      (name : Text) (b : Bool)
      → ReadsFlag read bool_var name
      → Sets read (format_flag formats name (of_bool b)) name (bool_text b)
  bool-Sets name true (h, k) = h
  bool-Sets name false (h, k) = k

  -- `AsArgs`, but for its first argument.
  abbrev other_settings : List Setting
  other_settings =
      record {
        argument = format_flag formats (codes "pool") (of_int c.base.connection_pool_size);
        name = codes "pool";
        value = formats.int_text c.base.connection_pool_size;
      }
      ∷ record {
        argument = format_flag formats (codes "log") (of_string c.base.log_level);
        name = codes "log";
        value = c.base.log_level;
      }
      ∷ record {
        argument = format_flag formats (codes "cachettl") (of_duration c.base.cache_ttl);
        name = codes "cachettl";
        value = formats.duration_text c.base.cache_ttl;
      }
      ∷ bool_setting (codes "debug") c.base.serve_debug
      ∷ bool_setting (codes "verbose") c.base.verbose
      ∷ record {
        argument = format_flag formats (codes "device-root") (of_string c.base.device_root);
        name = codes "device-root";
        value = c.base.device_root;
      }
      ∷ bool_setting (codes "readonly") c.base.read_only
      ∷ record {
        argument = format_flag formats (codes "adb") (of_string c.base.path_to_adb);
        name = codes "adb";
        value = c.base.path_to_adb;
      }
      ∷ record {
        argument = format_flag formats (codes "device") (of_string c.device_serial);
        name = codes "device";
        value = c.device_serial;
      }
      ∷ record {
        argument = format_flag formats (codes "mountpoint") (of_string c.mountpoint);
        name = codes "mountpoint";
        value = c.mountpoint;
      }
      ∷ []

  other_settings-AllSet : AllSet read other_settings
  unfolding bool_setting
  other_settings-AllSet =
      let (
        port,
        (
          pool,
          (
            ttl,
            (debug, (root, (read_only, (adb, (log, (verbose, (device, (mountpoint, start)))))))),
          ),
        ),
      ) =
        reads in
      (
        pool (formats.int_text c.base.connection_pool_size),
        (
          log c.base.log_level,
          (
            ttl (formats.duration_text c.base.cache_ttl),
            (
              bool-Sets (codes "debug") c.base.serve_debug debug,
              (
                bool-Sets (codes "verbose") c.base.verbose verbose,
                (
                  root c.base.device_root,
                  (
                    bool-Sets (codes "readonly") c.base.read_only read_only,
                    (
                      adb c.base.path_to_adb,
                      (device c.device_serial, (mountpoint c.mountpoint, tt)),
                    ),
                  ),
                ),
              ),
            ),
          ),
        ),
      )

  abbrev all_settings : List Setting
  all_settings =
      record {
        argument = format_flag formats (codes "port") (of_int c.base.adb_port);
        name = codes "port";
        value = formats.int_text c.base.adb_port;
      }
      ∷ other_settings

  start-none : (n : Text) → read [] n ≡ none
  start-none = reads.1.1.1.1.1.1.1.1.1.1.1

  read-eq-last_setting :
      (ss : List Setting) → AllSet read ss → read (arguments ss) ≡ last_setting ss
  read-eq-last_setting ss h = fun_ext (read-last_setting read ss start-none h)

  -- Whatever adbfs was configured by: from the arguments that its configuration is printed as, another
  -- adbfs reads the same value for each of its flags, so that none is left at its default.
  pub flag_value-as_args :
      map (flag_value (read (as_args formats c))) (adbfs_flags formats libraries)
      ≡ variables formats c
  unfolding last_setting bool_setting text_eq
  flag_value-as_args =
      ap (λ f. map (flag_value f) (adbfs_flags formats libraries))
        (read-eq-last_setting all_settings
          (reads.0 (formats.int_text c.base.adb_port), other_settings-AllSet))

  -- From all of them but the first, it reads the same values too, but for the port, which is left at its
  -- default.
  pub flag_value-drop-as_args :
      map (flag_value (read (drop 1 (as_args formats c)))) (adbfs_flags formats libraries)
      ≡ variables formats (record c { base = record c.base { adb_port = libraries.adb_port } })
  unfolding last_setting bool_setting text_eq
  flag_value-drop-as_args =
      ap (λ f. map (flag_value f) (adbfs_flags formats libraries))
        (read-eq-last_setting other_settings other_settings-AllSet)
