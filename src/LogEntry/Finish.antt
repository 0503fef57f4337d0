-- ===== src/LogEntry/Finish.antt =====
-- log_entry.go: what an entry logs and traces at the end of its operation. The fields' printing is
-- that of libraries and left out.
pub mod Finished
use adbfs.Base.{
  ℕ, zero, suc, ◌+◌, ◌/◌, Bool, true, false, if◌then◌else◌, ◌==◌, List, [], ◌∷◌, ◌++◌, Text, codes,
  Option, none, some, ℤ, pos, negsuc,
}
use adbfs.Errors.{Error}
use adbfs.LogEntry.{LogEntry}

-- What `StartOperation` and `StartFileOperation` set: the names and the arguments.
pub record Named : Type 0 where
  pub name : Text
  pub path : Text
  pub args : Text

abbrev pub started : Text → Text → Named
started name path = record { name = name; path = path; args = [] }

abbrev pub file_started : Text → Text → Text → Named
file_started name path args = record { name = codes "File " ++ name; path = path; args = args }

-- `calculateDurationMillis` of the nanoseconds that have passed, whose division drops the remainder.
abbrev millis : ℕ → ℤ
millis zero = pos 0
millis (suc n) = negsuc n

unfoldable pub calculate_duration_millis : ℤ → ℤ
calculate_duration_millis (pos n) = pos (n / 1000000)
calculate_duration_millis (negsuc n) = millis ((n + 1) / 1000000)

pub data Field : Type 0 where
  duration_ms : ℤ → Field
  status_field path_field args_field result_field : Text → Field
  pid_field : ℕ → Field
  cache_hit_field : Bool → Field

abbrev if_text : (Text → Field) → Text → List Field → List Field
if_text field [] rest = rest
if_text field (c ∷ s) rest = field (c ∷ s) ∷ rest

abbrev pub fields : Named → LogEntry → ℤ → ℕ → List Field
fields n r elapsed pid =
    duration_ms (calculate_duration_millis elapsed)
    ∷ status_field r.status
    ∷ pid_field pid
    ∷ if_text path_field n.path (
        if_text args_field n.args (
          if_text result_field r.outcome
            (if r.cache_used then cache_hit_field r.cache_hit ∷ [] else [])))

-- The name with the fields as a debug message, unless it is suppressed, the error as a message of its
-- own, and the trace: its text is the fields, and the error with a mark.
pub record Logged : Type 0 where
  pub debug_message : Option (Text × List Field)
  pub error_message : Option Error
  pub trace_fields : List Field
  pub trace_error : Option Error

unfoldable pub finish_operation : Named → LogEntry → Bool → ℤ → ℕ → Logged
finish_operation n r suppress elapsed pid = record {
  debug_message = if suppress then none else some (n.name, fields n r elapsed pid);
  error_message = r.failure;
  trace_fields = fields n r elapsed pid;
  trace_error = r.failure;
}
