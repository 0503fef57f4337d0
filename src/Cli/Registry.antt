-- ===== src/Cli/Registry.antt =====
-- internal/cli: the flags that the programs register (registerBaseFlags of base_config.go,
-- adbfs_config.go and automount_config.go). The library that parses them is a parameter, of which
-- only the values are seen that it finds for a flag on a command line.
pub mod Arguments
pub mod Scanner
mod Tests
use adbfs.Base.{
  ◌≡◌, Bool, true, false, if◌then◌else◌, List, [], ◌∷◌, ◌++◌, map, Text, codes, text_eq, Option,
  none, some, ℤ, pos,
}
use adbfs.Cli.Flags.{Formats}

-- The type of the variable that a flag sets, and whether its value is checked.
pub data FlagKind : Type 0 where
  int_var duration_var bool_var string_var strings_var existing_dir_var existing_file_var : FlagKind
  enum_var : List Text → FlagKind

-- A flag, but for its help: its names, its default value, and whether it is required or hidden.
pub record Flag : Type 0 where
  pub name : Text
  pub kind : FlagKind
  pub short : Option Text
  pub default_value : Option Text
  pub required : Bool
  pub hidden : Bool

abbrev pub flag : Text → FlagKind → Flag
flag name kind = record {
  name = name;
  kind = kind;
  short = none;
  default_value = none;
  required = false;
  hidden = false;
}

-- The port of adb, and the names of the levels of the log and its default one, of libraries.
pub record Libraries : Type 0 where
  pub adb_port : ℤ
  pub log_levels : List Text
  pub info_level : Text

-- The constants of base_config.go; a duration is in nanoseconds.
abbrev pub default_pool_size : ℤ
default_pool_size = pos 2

abbrev pub default_cache_ttl : ℤ
default_cache_ttl = pos 300000000

module _ (formats : Formats) (libraries : Libraries) where
  -- `registerBaseFlags`.
  abbrev pub base_flags : List Flag
  base_flags =
      record (flag (codes "port") int_var) {
        default_value = some (formats.int_text libraries.adb_port);
      }
      ∷ record (flag (codes "pool") int_var) {
        default_value = some (formats.int_text default_pool_size);
      }
      ∷ record (flag (codes "cachettl") duration_var) {
        default_value = some (formats.duration_text default_cache_ttl);
      }
      ∷ flag (codes "debug") bool_var
      ∷ record (flag (codes "device-root") string_var) { default_value = some (codes "/sdcard") }
      ∷ record (flag (codes "readonly") bool_var) {
        short = some (codes "r");
        default_value = some (codes "true");
      }
      ∷ flag (codes "adb") string_var
      ∷ record (flag (codes "log") (enum_var libraries.log_levels)) {
        default_value = some libraries.info_level;
      }
      ∷ record (flag (codes "verbose") bool_var) { short = some (codes "v") }
      ∷ []

  -- `RegisterAdbfsFlags`.
  abbrev pub adbfs_flags : List Flag
  adbfs_flags =
      base_flags
      ++ record (flag (codes "device") string_var) { short = some (codes "s"); required = true }
        ∷ record (flag (codes "mountpoint") string_var) { required = true }
        ∷ []

  -- `RegisterAutomountFlags`.
  abbrev pub automount_flags : List Flag
  automount_flags =
      base_flags
      ++ record (flag (codes "root") existing_dir_var) { short = some (codes "r") }
        ∷ flag (codes "adbfs") existing_file_var
        ∷ record (flag (codes "disable-adbfs-verify") bool_var) { hidden = true }
        ∷ flag (codes "on-mount") strings_var
        ∷ flag (codes "on-unmount") strings_var
        ∷ []

-- What the library finds on a command line for the flag of a name: the text of its value, which is
-- true or false for a flag of a truth value.
abbrev pub Reader : Type 0
Reader = List Text → Text → Option Text

abbrev pub or_later : Option Text → Text → Option Text
or_later none value = some value
or_later (some later) value = some later

-- One argument more in front sets the flag of the name to the value, unless it is set again later.
abbrev pub Sets : Reader → Text → Text → Text → Type 0
Sets read argument name value =
    (args : List Text) (n : Text)
    → read (argument ∷ args) n
      ≡ (if text_eq n name then or_later (read args n) value else read args n)

-- What is documented of the library, for one flag that is registered: `--name=value`, and `--name` and
-- `--no-name` for a truth value.
abbrev pub ReadsFlag : Reader → FlagKind → Text → Type 0
ReadsFlag read bool_var name =
    Sets read (codes "--" ++ name) name (codes "true")
    × Sets read (codes "--no-" ++ name) name (codes "false")
ReadsFlag read int_var name =
    (value : Text) → Sets read (codes "--" ++ name ++ codes "=" ++ value) name value
ReadsFlag read duration_var name =
    (value : Text) → Sets read (codes "--" ++ name ++ codes "=" ++ value) name value
ReadsFlag read string_var name =
    (value : Text) → Sets read (codes "--" ++ name ++ codes "=" ++ value) name value
ReadsFlag read (enum_var options) name =
    (value : Text) → Sets read (codes "--" ++ name ++ codes "=" ++ value) name value
ReadsFlag read strings_var name = Unit
ReadsFlag read existing_dir_var name = Unit
ReadsFlag read existing_file_var name = Unit

abbrev pub ReadsFlags : Reader → List Flag → Type 0
ReadsFlags read [] = (n : Text) → read [] n ≡ none
ReadsFlags read (f ∷ fs) = ReadsFlag read f.kind f.name × ReadsFlags read fs

-- The value that a flag gets from a command line: a flag of a truth value that has no default is false,
-- and another one is empty.
abbrev unset : FlagKind → Text
unset bool_var = codes "false"
unset k = []

abbrev or_default : Flag → Option Text → Option Text → Text
or_default f (some value) d = value
or_default f none (some d) = d
or_default f none none = unset f.kind

abbrev pub flag_value : (Text → Option Text) → Flag → Text
flag_value found f = or_default f (found f.name) f.default_value
