-- ===== src/LoggingFile.antt =====
-- util.go: `newLoggingFile`, a file that logs every call, which is the default file under each
-- `AdbFile`. What `%#v` prints and what `fmt.Sprintf` makes of a text without arguments are
-- parameters, as are the arguments and the results of a call, which are only printed.
pub mod Calls
mod Tests
use adbfs.Base.{
  ℕ, Bool, false, if◌then◌else◌, ltb, List, [], ◌∷◌, ◌++◌, Text, codes, length, map, Option, none,
  some, ℤ, Outcome, done, panic, ◌>>=◌,
}
use adbfs.LogEntry.{LogEntry, start_operation, LogCall, status_call, result_call, log_calls}
use adbfs.LogEntry.Finish.{Named, file_started, Logged, finish_operation}
use adbfs.WrappingFile.{File, Callbacks, wrapping_file}

-- An argument or a result: bytes and a read result, of which only the size is logged, or another
-- value, as `%#v` prints it.
pub data LogArg : Type 0 where
  some_bytes : Text → LogArg
  read_result : ℕ → LogArg
  other_value : Text → LogArg

-- What `%d` makes of a number and `%#v` of a text, and `fmt.Sprintf` without arguments.
pub record Printing : Type 0 where
  pub number : ℕ → Text
  pub quoted : Text → Text
  pub sprintf : Text → Text

module _ (printing : Printing) where
  -- `summarizeForLog`, and `%#v` of what it leaves.
  abbrev pub summarize_for_log : LogArg → Text
  summarize_for_log (some_bytes s) =
      printing.quoted (codes "[]byte(" ++ printing.number (length s) ++ codes ")")
  summarize_for_log (read_result size) =
      printing.quoted (codes "fuse.ReadResult(" ++ printing.number size ++ codes ")")
  summarize_for_log (other_value s) = s

  abbrev listed : List LogArg → Text
  listed [] = []
  listed (a ∷ []) = summarize_for_log a
  listed (a ∷ b ∷ args) = summarize_for_log a ++ codes ", " ++ listed (b ∷ args)

  unfoldable pub format_args_list_for_log : List LogArg → Text
  format_args_list_for_log [] = []
  format_args_list_for_log (a ∷ args) = codes "[" ++ listed (a ∷ args) ++ codes "]"

-- What surrounds the calls: the process, the text of an errno, what each call is given and returns,
-- and the nanoseconds that have passed at the end of the n-th one.
pub record Around : Type 0 where
  pub pid : ℕ
  pub errno_text : ℕ → Text
  pub args : Text → List LogArg
  pub results : Text → Option ℕ → List LogArg
  pub elapsed : ℕ → ℤ

module _ (printing : Printing) (a : Around) (path : Text) where
  -- A call's entry: its method, and what was set at its start.
  pub record Entry : Type 0 where
    pub method : Text
    pub named : Named

  abbrev pub begin_entry : Text → Entry
  begin_entry method = record {
    method = method;
    named = file_started method path (format_args_list_for_log printing (a.args method));
  }

  -- The calls of its methods after the file's: `Status`, where there is one, and `Result`.
  abbrev result_text : Text → Option ℕ → Text
  result_text method status =
      printing.sprintf (format_args_list_for_log printing (a.results method status))

  abbrev pub entry_calls : Text → Option ℕ → List LogCall
  entry_calls method none = result_call (result_text method none) ∷ []
  entry_calls method (some n) = status_call n ∷ result_call (result_text method (some n)) ∷ []

  abbrev pub finished : Entry → List Logged → LogEntry → List Logged
  finished e l r = l ++ finish_operation e.named r false (a.elapsed (length l)) a.pid ∷ []

  abbrev pub end_entry : Entry → Option ℕ → Outcome (List Logged) → Outcome (List Logged)
  end_entry e status log = log >>= λ l.
      log_calls a.errno_text start_operation (entry_calls e.method status) >>= λ r.
      done (finished e l r)

  abbrev pub logging_callbacks : Callbacks (Outcome (List Logged)) Entry
  logging_callbacks = record {
    before_call = λ method l. (begin_entry method, l);
    after_call = λ e status l. end_entry e status l;
  }

  abbrev pub new_logging_file : {W : Type 0} → File W → File (Outcome (List Logged) × W)
  new_logging_file f = wrapping_file logging_callbacks f
