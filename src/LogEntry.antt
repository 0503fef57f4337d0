-- ===== src/LogEntry.antt =====
-- log_entry.go: what an entry records of an operation, and `toErrnoLog` of errors.go. The printing at
-- the operation's end is left out. The text of an errno is a parameter.
pub mod Repeats
pub mod Finish
mod Tests
use adbfs.Base.{
  ℕ, Bool, true, false, ◌||◌, if◌then◌else◌, ◌==◌, List, [], ◌∷◌, Text, codes, Option, none, some,
  Outcome, done, panic, ◌>>=◌,
}
use adbfs.Errors.{Error, ErrUtil, to_errno, eio}

pub record LogEntry : Type 0 where
  pub failure : Option Error
  pub outcome : Text
  pub status : Text
  pub cache_used : Bool
  pub cache_hit : Bool

-- What `StartOperation` makes, but for the names and the time.
abbrev pub start_operation : LogEntry
start_operation = record {
  failure = none;
  outcome = [];
  status = [];
  cache_used = false;
  cache_hit = false;
}

abbrev pub is_text : Text → Bool
is_text [] = false
is_text (c ∷ s) = true

abbrev pub is_failure : Option Error → Bool
is_failure none = false
is_failure (some e) = true

-- The methods, by what they are called with.
pub data LogCall : Type 0 where
  error_call : Option Error → LogCall
  result_call : Text → LogCall
  status_call : ℕ → LogCall
  cache_used_call : Bool → LogCall

module _ (errno_text : ℕ → Text) where
  abbrev pub status_text : ℕ → Text
  status_text n = if n == 0 then codes "OK" else errno_text n

  unfoldable pub log_call : LogEntry → LogCall → Outcome LogEntry
  log_call r (error_call e) =
      if is_failure r.failure then panic else done (record r { failure = e })
  log_call r (result_call msg) =
      if is_text r.outcome then panic else done (record r { outcome = msg })
  log_call r (status_call n) =
      if is_text r.status then panic else done (record r { status = status_text n })
  log_call r (cache_used_call hit) =
      done (record r { cache_used = true; cache_hit = r.cache_hit || hit })

  -- The calls of one operation, one after another.
  unfoldable pub log_calls : LogEntry → List LogCall → Outcome LogEntry
  log_calls r [] = done r
  log_calls r (c ∷ cs) = log_call r c >>= λ r'. log_calls r' cs

-- `toErrnoLog`, as the calls that it makes: only an error without an errno of its own is logged.
abbrev pub to_errno_log : ErrUtil → Option Error → List LogCall
to_errno_log u e =
    if to_errno u e == eio
    then error_call e ∷ status_call (to_errno u e) ∷ []
    else status_call (to_errno u e) ∷ []
