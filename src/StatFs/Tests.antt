-- ===== src/StatFs/Tests.antt =====
-- The output of the sample, and a device whose `stat` prints a long word.
use adbfs.Base.{
  if◌then◌else◌, ◌==◌, ◌||◌, ℕ, zero, suc, ◌≤◌, ◌≡◌, refl, ◌↔◌, true, false, [], ◌∷◌, Text, text_eq,
  codes, replicate, length-replicate, none, some, pos, arith, panic,
}
use adbfs.Errors.{ok}
use adbfs.Device.{DeviceClient, DirEntry}
use adbfs.Device.Ram.{Ram, ram, ram_errors}
use adbfs.Links.{read_link_recursively}
use adbfs.Links.Chains.{read_link_recursively_plain}
use adbfs.Strings.{words, first_word, digits_from, scan}
use adbfs.Strings.Fields.{
  no_space, blank, tab, newline, carriage_return, Gap, Layout, laid_out, words-end,
}
use adbfs.StatFs.{
  StatfsOut, parse_statfs, read_words, read_word, set_value, stat_fs, invalid_value, new_reading,
}
use adbfs.StatFs.Printed.{Output, printed}
use adbfs.StatFs.Layout.{parse_statfs-printed}
use adbfs.StatFs.Failures.{delivered, stat_fs-panic}

abbrev sample : Output
sample = record {
  name = codes "/sdcard/My";
  rest_of_name = codes "Pictures" ∷ [];
  id = codes "0";
  kind = codes "UNKNOWN";
  name_len = codes "255";
  block_size = codes "4096";
  total = codes "1269664";
  free = codes "1209578";
  available = codes "1205482";
  inodes = codes "327680";
  free_inodes = codes "326438";
}

abbrev sample_stat : StatfsOut
sample_stat = record {
  blocks = 1269664;
  bfree = 1209578;
  bavail = 1205482;
  files = 327680;
  ffree = 326438;
  bsize = 4096;
  name_len = 255;
}

abbrev sample_gaps : ℕ → Gap
sample_gaps i =
    if i == 2 || i == 11 || i == 18
    then record { first = newline; rest = blank ∷ [] }
    else if i == 8
    then record { first = carriage_return; rest = newline ∷ [] }
    else record { first = blank; rest = tab ∷ [] }

-- Its lines, indented as there.
abbrev sample_layout : Layout
sample_layout = record { start = blank ∷ blank ∷ []; gaps = sample_gaps; end = [] }

parse_statfs-printed_example :
    parse_statfs (laid_out sample_layout (printed sample)) ≡ (some sample_stat, none)
unfolding digits_from
parse_statfs-printed_example =
    parse_statfs-printed sample sample_stat 255 4096
      (record {
        texts = refl;
        says_name_len = record { value = refl; short = omega arith };
        says_bsize = record { value = refl; short = omega arith };
        says_blocks = record { value = refl; short = omega arith };
        says_bfree = record { value = refl; short = omega arith };
        says_bavail = record { value = refl; short = omega arith };
        says_files = record { value = refl; short = omega arith };
        says_ffree = record { value = refl; short = omega arith };
        name_len_32 = refl;
        bsize_32 = refl;
      })
      sample_layout

bad_number : parse_statfs (codes "Namelen: many") ≡ (none, some (invalid_value (codes "Namelen")))
unfolding parse_statfs words first_word scan read_words read_word set_value text_eq digits_from
bad_number = refl

abbrev target : Text
target = codes "/sdcard"

abbrev idle : Ram
idle = record { files = λ q. none; writing = none; reading = [] }

abbrev entry : DirEntry
entry = record { name = target; mode = 0; size = pos 0; modified_at = 1 }

abbrev printing : Text → DeviceClient Ram
printing output = record ram {
  stat = λ p w. (ok (record entry { name = p }), w);
  run_command = λ c args w. (ok output, w);
}

resolves :
    (output : Text)
    → read_link_recursively ram_errors (printing output) target idle ≡ (ok (target, entry), idle)
resolves output =
    read_link_recursively_plain ram_errors (printing output) target entry idle idle refl refl

stat_fs-panic_example :
    ((stat_fs ram_errors (printing (codes "Namelen: many")) target idle).0 ≡ panic) ↔ (
      ((delivered (codes "Namelen: many")).too_long ≡ true)
      × ((read_words (delivered (codes "Namelen: many")).found false new_reading).1 ≡ none))
stat_fs-panic_example =
    stat_fs-panic ram_errors (printing (codes "Namelen: many")) target target
      (codes "Namelen: many") entry idle idle idle (resolves (codes "Namelen: many")) refl

no_space-replicate : (n : ℕ) → no_space (replicate n 97) ≡ true
no_space-replicate zero = refl
no_space-replicate (suc n) = no_space-replicate n

long_delivered :
    (n : ℕ) → 65535 ≤ n → delivered (replicate (suc n) 97) ≡ record { found = []; too_long = true }
unfolding scan
long_delivered n h =
    rw (words-end (replicate (suc n) 97) (no_space-replicate n), length-replicate {A = ℕ} n 97)
      (ground (arith, h))

-- An output of one word of 65536 bytes or more.
long_panics :
    (n : ℕ)
    → 65535 ≤ n
    → (stat_fs ram_errors (printing (replicate (suc n) 97)) target idle).0 ≡ panic
unfolding read_words
long_panics n h =
    (stat_fs-panic ram_errors (printing (replicate (suc n) 97)) target target (replicate (suc n) 97)
        entry idle idle idle (resolves (replicate (suc n) 97)) refl).1
      (rw (long_delivered n h) (refl, refl))
