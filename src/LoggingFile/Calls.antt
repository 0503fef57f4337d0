-- ===== src/LoggingFile/Calls.antt =====
-- util.go, `newLoggingFile`: what is answered and logged.
use adbfs.Base.{ℕ, suc, false, ◌++◌, codes, ◌≡◌, List, [], ◌∷◌, Text, Option, none, some}
use adbfs.LogEntry.{LogEntry, start_operation, status_text}
use adbfs.LogEntry.Finish.{Logged, finish_operation}
use adbfs.LogEntry.Finish.Finished.{Tells}
use adbfs.WrappingFile.{FileCall, FileReply}
use adbfs.WrappingFile.Inner.{method, status_of}
use adbfs.LoggingFile.{Printing, Around, begin_entry, result_text, format_args_list_for_log}

module _ (printing : Printing) (a : Around) (path : Text) where
  -- The entry of one call at its end.
  abbrev pub status_words : Option ℕ → Text
  status_words none = []
  status_words (some n) = status_text a.errno_text n

  abbrev pub held : Text → Option ℕ → LogEntry
  held name status = record start_operation {
    outcome = result_text printing a path name status;
    status = status_words status;
  }

  -- The entry of the k-th call of the log, with what it answered: all that it logs and traces.
  pub record IsEntry (k : ℕ) (c : FileCall) (r : FileReply) (x : Logged) : Type 0 where
    pub tells :
        Tells x.trace_fields
          (a.elapsed k)
          a.pid
          (status_words (status_of r))
          path
          (format_args_list_for_log printing (a.args (method c)))
          (printing.sprintf
            (format_args_list_for_log printing (a.results (method c) (status_of r))))
          false
          false
    pub message : x.debug_message ≡ some (codes "File " ++ method c, x.trace_fields)
    pub no_error : x.error_message ≡ none
    pub no_trace_error : x.trace_error ≡ none

  -- One such entry for each call, in order.
  abbrev pub AreEntries : ℕ → List FileCall → List FileReply → List Logged → Type 0
  AreEntries k [] [] [] = Unit
  AreEntries k (c ∷ cs) (r ∷ rs) (x ∷ xs) = IsEntry k c r x × AreEntries (suc k) cs rs xs
  AreEntries k _ _ _ = ⊥

  entry : ℕ → FileCall → FileReply → Logged
  entry k c r =
      finish_operation (begin_entry printing a path (method c)).named
        (held (method c) (status_of r)) false (a.elapsed k) a.pid
