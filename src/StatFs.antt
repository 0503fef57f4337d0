-- ===== src/StatFs.antt =====
-- adb_filesystem.go: `StatFs` and `parseStatfs`.
pub mod Printed
pub mod Rounds
pub mod Layout
pub mod Failures
pub mod Untouched
mod Tests
use adbfs.Base.{
  ℕ, ◌-◌, ◌^◌, ◌%◌, Bool, true, false, if◌then◌else◌, List, [], ◌∷◌, ◌++◌, Text, text_eq, codes,
  Option, none, some, ℤ, pos, negsuc, Outcome, done, panic,
}
use adbfs.Errors.{Result, ok, err, ErrUtil}
use adbfs.Device.{DeviceClient, DirEntry}
use adbfs.Links.{read_link_recursively}
use adbfs.Attributes.{uint64}
use adbfs.Strings.{ends_with, trim_last, atoi, words, Scanned, scan}

-- The fields of `fuse.StatfsOut` that the code sets. The other ones stay 0.
pub record StatfsOut : Type 0 where
  pub blocks : ℕ
  pub bfree : ℕ
  pub bavail : ℕ
  pub files : ℕ
  pub ffree : ℕ
  pub bsize : ℕ
  pub name_len : ℕ

abbrev pub new_statfs_out : StatfsOut
new_statfs_out = record {
  blocks = 0;
  bfree = 0;
  bavail = 0;
  files = 0;
  ffree = 0;
  bsize = 0;
  name_len = 0;
}

-- The conversion of an `int` to an unsigned integer of 32 bits.
abbrev pub uint32 : ℤ → ℕ
uint32 (pos n) = n % 2 ^ 32
uint32 (negsuc n) = 2 ^ 32 - 1 - n % 2 ^ 32

abbrev pub colon : ℕ
colon = 58

-- The three of the switch's cases that look at the scope.
abbrev set_total : StatfsOut → Text → ℤ → StatfsOut
set_total stat scope n =
    if text_eq scope (codes "Blocks")
    then record stat { blocks = uint64 n }
    else if text_eq scope (codes "Inodes")
    then record stat { files = uint64 n }
    else stat

abbrev set_free : StatfsOut → Text → ℤ → StatfsOut
set_free stat scope n =
    if text_eq scope (codes "Blocks")
    then record stat { bfree = uint64 n }
    else if text_eq scope (codes "Inodes")
    then record stat { ffree = uint64 n }
    else stat

abbrev set_available : StatfsOut → Text → ℤ → StatfsOut
set_available stat scope n =
    if text_eq scope (codes "Blocks") then record stat { bavail = uint64 n } else stat

abbrev with_value : Option ℤ → (ℤ → StatfsOut) → Option StatfsOut
with_value none f = none
with_value (some n) f = some (f n)

-- The switch on the key, which fails where the value of a key that is known is no number.
unfoldable pub set_value : StatfsOut → Text → Text → Option ℤ → Option StatfsOut
set_value stat scope key v =
    if text_eq key (codes "Namelen")
    then with_value v (λ n. record stat { name_len = uint32 n })
    else if text_eq key (codes "Blocksize")
    then with_value v (λ n. record stat { bsize = uint32 n })
    else if text_eq key (codes "Total")
    then with_value v (set_total stat scope)
    else if text_eq key (codes "Free")
    then with_value v (set_free stat scope)
    else if text_eq key (codes "Available")
    then with_value v (set_available stat scope)
    else some stat

pub data StatfsError : Type 0 where
  no_output : StatfsError
  invalid_value : Text → StatfsError

-- What `parseStatfs` returns: the statistics, which may be nil, and the error, which may be, too.
abbrev pub Parsed : Type 0
Parsed = Option StatfsOut × Option StatfsError

-- The variables of the loop.
pub record Reading : Type 0 where
  pub scope : Text
  pub key : Text
  pub stat : StatfsOut

abbrev stored : (Reading → Parsed) → Reading → Text → Option StatfsOut → Parsed
stored again r key none = (none, some (invalid_value key))
stored again r key (some stat) = again (record r { key = []; stat = stat })

-- One round of the loop on a word, and then the rest of the loop.
unfoldable pub read_word : (Reading → Parsed) → Text → Reading → Parsed
read_word again word r =
    if ends_with r.key colon
    then (if ends_with word colon
        then again (record r { scope = trim_last r.key colon; key = word })
        else (let key = trim_last r.key colon in
            stored again r key (set_value r.stat r.scope key (atoi word))))
    else again (record r { key = r.key ++ word })

-- The loop. After it, where the scanner has stopped with an error, the code returns `err`, which is
-- its own result and not yet set.
unfoldable pub read_words : List Text → Bool → Reading → Parsed
read_words [] true r = (none, none)
read_words [] false r = (some r.stat, none)
read_words (w ∷ ws) too_long r = read_word (read_words ws too_long) w r

abbrev pub new_reading : Reading
new_reading = record { scope = []; key = []; stat = new_statfs_out }

unfoldable pub parse_statfs : Text → Parsed
parse_statfs [] = (none, some no_output)
parse_statfs (c ∷ s) =
    let scanned = scan (words (c ∷ s)) in read_words scanned.found scanned.too_long new_reading

-- The end of `StatFs`, which logs what it is about to return through the pointer.
abbrev pub reported : Parsed → Outcome (Option StatfsOut)
reported (stat, some e) = done none
reported (some stat, none) = done (some stat)
reported (none, none) = panic

module _ {W : Type 0} (u : ErrUtil) (d : DeviceClient W) where
  abbrev after_command : Result Text × W → Outcome (Option StatfsOut) × W
  after_command (err e, w) = (done none, w)
  after_command (ok output, w) = (reported (parse_statfs output), w)

  abbrev after_resolving : Result (Text × DirEntry) × W → Outcome (Option StatfsOut) × W
  after_resolving (err e, w) = (done none, w)
  after_resolving (ok (name, entry), w) =
      after_command (d.run_command (codes "stat") (codes "-f" ∷ name ∷ []) w)

  -- `StatFs` of a name on the device, where nil stands for an error.
  unfoldable pub stat_fs : Text → W → Outcome (Option StatfsOut) × W
  stat_fs name w = after_resolving (read_link_recursively u d name w)
