-- ===== src/Cli/Registry/Scanner.antt =====
-- internal/cli: a reader of command lines that does what is documented of the library.
use adbfs.Base.{
  refl, if◌then◌else◌, ◌==◌, List, [], ◌∷◌, ◌++◌, Text, codes, text_eq, Option, none, some, pos,
}
use adbfs.Cli.Flags.{Formats}
use adbfs.Cli.Registry.{
  Libraries, Flag, FlagKind, bool_var, adbfs_flags, Reader, ReadsFlags, or_later,
}

strip : Text → Text → Option Text
strip [] s = some s
strip (c ∷ p) [] = none
strip (c ∷ p) (d ∷ s) = if c == d then strip p s else none

abbrev named : Text → Option Text → Option (Text × Text)
named name none = none
named name (some value) = some (name, value)

abbrev match_flag : FlagKind → Text → Text → Option (Text × Text)
match_flag bool_var name a =
    if text_eq a (codes "--" ++ name)
    then some (name, codes "true")
    else if text_eq a (codes "--no-" ++ name)
    then some (name, codes "false")
    else none
match_flag k name a = named name (strip (codes "--" ++ name ++ codes "=") a)

abbrev or_other : Option (Text × Text) → Option (Text × Text) → Option (Text × Text)
or_other none o = o
or_other (some x) o = some x

match_flags : List Flag → Text → Option (Text × Text)
match_flags [] a = none
match_flags (f ∷ fs) a = or_other (match_flag f.kind f.name a) (match_flags fs a)

abbrev pub formats : Formats
formats = record { int_text = λ n. codes "5038"; duration_text = λ n. codes "300ms" }

abbrev pub libraries : Libraries
libraries = record {
  adb_port = pos 5037;
  log_levels = codes "info" ∷ codes "debug" ∷ [];
  info_level = codes "info";
}

abbrev set_flag : Option (Text × Text) → Option Text → Text → Option Text
set_flag none later n = later
set_flag (some (name, value)) later n = if text_eq n name then or_later later value else later

pub scanner : Reader
scanner [] n = none
scanner (a ∷ args) n = set_flag (match_flags (adbfs_flags formats libraries) a) (scanner args n) n

pub scanner-ReadsFlags : ReadsFlags scanner (adbfs_flags formats libraries)
unfolding scanner match_flags strip text_eq
scanner-ReadsFlags = (
  λ v args n. refl,
  (
    λ v args n. refl,
    (
      λ v args n. refl,
      (
        (λ args n. refl, λ args n. refl),
        (
          λ v args n. refl,
          (
            (λ args n. refl, λ args n. refl),
            (
              λ v args n. refl,
              (
                λ v args n. refl,
                (
                  (λ args n. refl, λ args n. refl),
                  (λ v args n. refl, (λ v args n. refl, λ n. refl)),
                ),
              ),
            ),
          ),
        ),
      ),
    ),
  ),
)
