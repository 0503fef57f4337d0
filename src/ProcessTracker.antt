-- ===== src/ProcessTracker.antt =====
-- internal/cli/process_tracker.go. Each goroutine's steps are those between which others may run:
-- `Go` checks the base context before it takes the lock.
pub mod Schedule
pub mod Keys
pub mod Tracked
pub mod Shutdown
mod Tests
use adbfs.Base.{
  ℕ, zero, suc, ◌+◌, ◌≡◌, Bool, true, false, not, ◌||◌, if◌then◌else◌, ◌==◌, List, [], ◌∷◌, Text,
  text_eq, Option, none, some, Outcome, done, panic,
}

-- `ProcessInfo`: a context, by a number, with its entry's key.
pub record ProcessInfo : Type 0 where
  pub key : Text
  pub context : ℕ

-- `ProcessTracker`: whether the base context is cancelled, the processes by key, the counter of the
-- wait group, and the contexts made so far, with those that are cancelled by themselves.
pub record ProcessTracker : Type 0 where
  pub shut : Bool
  pub processes : List ProcessInfo
  pub waiting : ℕ
  pub next : ℕ
  pub cancelled : ℕ → Bool

abbrev pub new_process_tracker : ProcessTracker
new_process_tracker = record {
  shut = false;
  processes = [];
  waiting = 0;
  next = 0;
  cancelled = λ c. false;
}

-- The map of the processes.
abbrev pub lookup : Text → List ProcessInfo → Option ProcessInfo
lookup key [] = none
lookup key (p ∷ ps) = if text_eq p.key key then some p else lookup key ps

abbrev pub delete : Text → List ProcessInfo → List ProcessInfo
delete key [] = []
delete key (p ∷ ps) = if text_eq p.key key then ps else p ∷ delete key ps

-- `isContextAlreadyDone`: a context is done with its base.
abbrev pub is_context_already_done : ProcessTracker → ℕ → Bool
is_context_already_done t c = t.shut || t.cancelled c

abbrev entered : ProcessTracker → Text → Option ProcessInfo → Option (ProcessTracker × ProcessInfo)
entered t key (some p) = none
entered t key none =
    let p : ProcessInfo = record { key = key; context = t.next } in
    some (record t { processes = p ∷ t.processes; waiting = t.waiting + 1; next = suc t.next }, p)

-- The part of `Go` that holds the lock, where none is its error.
unfoldable pub go_locked : ProcessTracker → Text → Option (ProcessTracker × ProcessInfo)
go_locked t key = entered t key (lookup key t.processes)

-- The process's own `cancelFunc`.
abbrev pub cancel : ProcessTracker → ℕ → ProcessTracker
cancel t c = record t { cancelled = λ b. if b == c then true else t.cancelled b }

-- `processWaiter.Done`, which panics below 0.
abbrev wait_done : ProcessTracker → ℕ → Outcome ProcessTracker
wait_done t zero = panic
wait_done t (suc n) = done (record t { waiting = n })

abbrev swept : ProcessTracker → Text → Option ProcessInfo → Outcome ProcessTracker
swept t key none = done t
swept t key (some p) =
    if is_context_already_done t p.context
    then wait_done (record t { processes = delete key t.processes }) t.waiting
    else panic

unfoldable pub sweep : ProcessTracker → Text → Outcome ProcessTracker
sweep t key = swept t key (lookup key t.processes)

-- `Shutdown` before it waits.
abbrev pub cancel_all : ProcessTracker → ProcessTracker
cancel_all t = record t { shut = true }
