-- ===== src/ProcessTracker/Schedule.antt =====
-- internal/cli/process_tracker.go: the steps of the goroutines that share a tracker. The functions
-- that are tracked are taken to return in the end, and not to panic.
use adbfs.Base.{◌≡◌, Bool, true, false, List, [], ◌∷◌, ◌++◌, Text, none, some, done}
use adbfs.ProcessTracker.{
  ProcessInfo, ProcessTracker, new_process_tracker, go_locked, cancel, sweep, cancel_all,
}

-- A process's goroutine: it runs its function, or it has called `cancelFunc` and is to sweep.
pub record Thread : Type 0 where
  pub process : ProcessInfo
  pub leaving : Bool

-- The tracker, the goroutines of its processes, the callers of `Go` that have passed its first check,
-- and whether a call of `Shutdown` has returned.
pub record System : Type 0 where
  pub tracker : ProcessTracker
  pub threads : List Thread
  pub entering : List Text
  pub returned : Bool

abbrev pub started : System
started = record { tracker = new_process_tracker; threads = []; entering = []; returned = false }

pub data Step : System → System → Type 0 where
  -- The first check of `Go`, passed.
  checked :
      {s : System} (key : Text)
      → s.tracker.shut ≡ false
      → Step s (record s { entering = key ∷ s.entering })
  -- The rest of `Go`: a new process, or the error that one is running.
  entered :
      {s : System} (before after : List Text) (key : Text) (t : ProcessTracker) (p : ProcessInfo)
      → s.entering ≡ before ++ key ∷ after
      → go_locked s.tracker key ≡ some (t, p)
      → Step s (record s {
        tracker = t;
        threads = record { process = p; leaving = false } ∷ s.threads;
        entering = before ++ after;
      })
  refused :
      {s : System} (before after : List Text) (key : Text)
      → s.entering ≡ before ++ key ∷ after
      → go_locked s.tracker key ≡ none
      → Step s (record s { entering = before ++ after })
  -- A process's function returns, and `cancelFunc` is called.
  finished :
      {s : System} (before after : List Thread) (p : ProcessInfo)
      → s.threads ≡ before ++ record { process = p; leaving = false } ∷ after
      → Step s (record s {
        tracker = cancel s.tracker p.context;
        threads = before ++ record { process = p; leaving = true } ∷ after;
      })
  -- It sweeps.
  swept_up :
      {s : System} (before after : List Thread) (p : ProcessInfo) (t : ProcessTracker)
      → s.threads ≡ before ++ record { process = p; leaving = true } ∷ after
      → sweep s.tracker p.key ≡ done t
      → Step s (record s { tracker = t; threads = before ++ after })
  -- `Shutdown` cancels the base context, and its wait ends.
  shut_down : {s : System} → Step s (record s { tracker = cancel_all s.tracker })
  waited :
      {s : System}
      → s.tracker.shut ≡ true
      → s.tracker.waiting ≡ 0
      → Step s (record s { returned = true })

pub data Run : System → System → Type 0 where
  stop : {s : System} → Run s s
  next : {r s t : System} → Step r s → Run s t → Run r t
