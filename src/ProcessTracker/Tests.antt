-- ===== src/ProcessTracker/Tests.antt =====
-- A tracker with one process, which is stopped.
use adbfs.Base.{◌≡◌, refl, true, false, none, [], ◌∷◌, text_eq, codes}
use adbfs.ProcessTracker.{
  ProcessInfo, ProcessTracker, new_process_tracker, go_locked, cancel, cancel_all, sweep,
}
use adbfs.ProcessTracker.Schedule.{
  System, started, Step, checked, entered, finished, shut_down, Run, stop, next,
}
use adbfs.ProcessTracker.Keys.{IsTracked, processes_of}
use adbfs.ProcessTracker.Tracked.{run-IsTracked}
use adbfs.ProcessTracker.Shutdown.{shut_down-waited, entered-waited}

abbrev phone : ProcessInfo
phone = record { key = codes "phone"; context = 0 }

abbrev with_phone : ProcessTracker
with_phone = record new_process_tracker { processes = phone ∷ []; waiting = 1; next = 1 }

abbrev one_leaving : System
one_leaving = record {
  tracker = cancel with_phone 0;
  threads = record { process = phone; leaving = true } ∷ [];
  entering = [];
  returned = false;
}

to_leaving : Run started one_leaving
unfolding go_locked
to_leaving = next (checked phone.key refl) (
    next (entered [] [] phone.key with_phone phone refl refl)
      (next (finished [] [] phone refl) stop))

run-IsTracked_example : IsTracked one_leaving
run-IsTracked_example = run-IsTracked one_leaving to_leaving

abbrev stopping : System
stopping = record {
  tracker = cancel_all new_process_tracker;
  threads = [];
  entering = phone.key ∷ [];
  returned = false;
}

shut_down-waited_example :
    (t : System) × Run stopping t
    × (t.threads ≡ [])
    × (t.entering ≡ [])
    × Step t (record t { returned = true })
shut_down-waited_example =
    shut_down-waited stopping (next (checked phone.key refl) (next shut_down stop)) refl

entered-waited_example :
    (s : System) × Run started s
    × (s.returned ≡ true)
    × (processes_of s.threads ≡ record { key = codes "phone"; context = 0 } ∷ [])
    × (s.tracker.waiting ≡ 1)
    × (adbfs.ProcessTracker.is_context_already_done s.tracker 0 ≡ true)
entered-waited_example = entered-waited (codes "phone")

-- A key that is taken.
taken : go_locked with_phone (codes "phone") ≡ none
unfolding go_locked text_eq
taken = refl
