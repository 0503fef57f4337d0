-- ===== src/Device/Ram.antt =====
-- A device in memory, with one stream at a time to write and one to read: a value that meets the
-- contract of `Store`.
use adbfs.Base.{
  ℕ, ◌≡◌, refl, sym, ap, ◌∙◌, Bool, true, false, ◌==◌, if◌then◌else◌, Option, none, some, List, [],
  ◌∷◌, ◌++◌, length, Text, text_eq, text_eq_refl, arith,
}
use adbfs.Errors.{Error, Result, ok, err, foreign, ErrUtil, ErrCode, IsErrUtil}
use adbfs.Device.{DeviceClient, DirEntry}
use adbfs.Device.Store.{Store}
use adbfs.Device.Reads.{Reads}
use adbfs.Device.Failures.{IsForeign, FailsAsGoadb}

pub record Ram : Type 0 where
  pub files : Text → Option (List ℕ)
  pub writing : Option (Text × List ℕ)
  pub reading : List ℕ

abbrev put : (Text → Option (List ℕ)) → Text → List ℕ → Text → Option (List ℕ)
put files p xs q = if text_eq p q then some xs else files q

-- Errors in the manner of goadb: number 0 is that of a missing file.
abbrev pub missing : Error
missing = foreign 0

abbrev pub open_file : Ram → Option (List ℕ) → Result ℕ × Ram
open_file w none = (err missing, w)
open_file w (some xs) = (ok 0, record w { reading = xs })

abbrev append_to : List ℕ → Option (Text × List ℕ) → Option (Text × List ℕ)
append_to bytes none = none
append_to bytes (some (p, xs)) = some (p, xs ++ bytes)

abbrev close_file : Ram → Option (Text × List ℕ) → Ram
close_file w none = w
close_file w (some (p, xs)) = record w { files = put w.files p xs; writing = none }

abbrev stat_file : Text → Option (List ℕ) → Result DirEntry
stat_file p none = err missing
stat_file p (some xs) =
    ok (record { name = p; mode = 0o644; size = adbfs.Base.pos (length xs); modified_at = 1 })

abbrev pub ram : DeviceClient Ram
ram = record {
  open_read = λ p w. open_file w (w.files p);
  read_all = λ h w. (record { bytes = w.reading; spare = []; failure = none }, w);
  close_reader = λ h w. w;
  open_write = λ p perms w. (ok 0, record w { writing = some (p, []) });
  write = λ h bytes w. (
    record { n = length bytes; failure = none },
    record w { writing = append_to bytes w.writing },
  );
  close_writer = λ h w. (none, close_file w w.writing);
  stat = λ p w. (stat_file p (w.files p), w);
  list_dir_entries = λ p w. (ok [], w);
  run_command = λ c args w. (ok [], w);
}

open_write_pending :
    (p : Text) (perms h : ℕ) (w v : Ram)
    → ram.open_write p perms w ≡ (ok h, v)
    → v.writing ≡ some (p, [])
open_write_pending p perms h w v e = ground arith

write_pending :
    (p : Text) (xs bytes : List ℕ) (w : Ram)
    → w.writing ≡ some (p, xs)
    → append_to bytes w.writing ≡ some (p, xs ++ bytes)
write_pending p xs bytes w e = rw e

close_files :
    (p : Text) (xs : List ℕ) (w : Ram)
    → w.writing ≡ some (p, xs)
    → (close_file w w.writing).files p ≡ some xs
close_files p xs w e = rw (e, text_eq_refl p)

close_pending :
    (w : Ram) (o : Option (Text × List ℕ)) → w.writing ≡ o → (close_file w o).writing ≡ none
close_pending w none e = e
close_pending w (some (p, xs)) e = refl

close_again : (w : Ram) → w.writing ≡ none → (close_file w w.writing).files ≡ w.files
close_again w e = rw e

read_files :
    (o : Option (List ℕ)) (h : ℕ) (w v : Ram) → open_file w o ≡ (ok h, v) → o ≡ some v.reading
read_files none h w v e = ground arith
read_files (some xs) h w v e = ground arith

unfoldable pub ram_store : Store ram
unfolding open_write_pending write_pending close_files close_pending close_again read_files
ram_store = record {
  files = λ w. w.files;
  pending = λ w h. w.writing;
  open_write_pending = open_write_pending;
  write_pending = λ h p xs bytes w e _ _. write_pending p xs bytes w e;
  close_files = λ h p xs w e _. close_files p xs w e;
  close_pending = λ h w. close_pending w w.writing refl;
  close_again = λ h w e. close_again w e;
  read_files = λ p h w v e _. read_files (w.files p) h w v e;
}

open_keeps : (o : Option (List ℕ)) (w : Ram) → (open_file w o).1.files ≡ w.files
open_keeps none w = refl
open_keeps (some xs) w = refl

pub ram-Reads : Reads ram (λ w. w.files)
ram-Reads = record {
  keep_stat = λ p w. refl;
  keep_list_dir_entries = λ p w. refl;
  keep_open_read = λ p w. open_keeps (w.files p) w;
  keep_read_all = λ h w. refl;
  keep_close_reader = λ h w. refl;
  keep_readlink = λ args w. refl;
  keep_stat_command = λ args w. refl;
}

open_fails : (o : Option (List ℕ)) (w : Ram) (e : Error) → (open_file w o).0 ≡ err e → IsForeign e
open_fails none w e f = (0, ground arith)
open_fails (some xs) w e f = absurd (cc f)

pub ram-FailsAsGoadb : FailsAsGoadb ram
ram-FailsAsGoadb = record {
  open_read_fails = λ p w. open_fails (w.files p) w;
  read_all_fails = λ h w e f. absurd (cc f);
  open_write_fails = λ p perms w e f. absurd (cc f);
  write_fails = λ h bytes w e f. absurd (cc f);
  close_writer_fails = λ h w e f. absurd (cc f);
  writes_all = λ h bytes w f. refl;
}

-- The error package: the code of a missing file is that of number 0, wrapped or not.
abbrev has_code : Error → ErrCode → Bool
has_code (foreign n) ErrCode.file_no_exist = n == 0
has_code (foreign n) ErrCode.device_not_found = n == 1
has_code _ _ = false

abbrev wrapped : Error → Error
wrapped (foreign n) = foreign n
wrapped _ = foreign 2

abbrev error_of : ErrCode → Error
error_of ErrCode.file_no_exist = foreign 0
error_of ErrCode.device_not_found = foreign 1

abbrev pub ram_errors : ErrUtil
ram_errors = record { has_err_code = has_code; wrap_err = wrapped; errorf = error_of }

code_foreign : (e : Error) (c : ErrCode) → has_code e c ≡ true → (n : ℕ) × (e ≡ foreign n)
code_foreign (foreign n) c h = (n, refl)
code_foreign _ _ h = cc

errorf_code : (c : ErrCode) → has_code (error_of c) c ≡ true
errorf_code ErrCode.file_no_exist = refl
errorf_code ErrCode.device_not_found = refl

pub ram_errors-IsErrUtil : IsErrUtil ram_errors
ram_errors-IsErrUtil = record {
  code_foreign = code_foreign;
  wrap_foreign = λ n. (n, refl);
  wrap_code = λ n c. refl;
  errorf_code = errorf_code;
}
