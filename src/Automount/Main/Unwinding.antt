-- ===== src/Automount/Main/Unwinding.antt =====
-- cmd/adbfs-automount/main.go: what `mainWithExitCode` makes is given up in the reverse order.
use adbfs.Base.{
  ℕ, ◌≡◌, refl, Bool, true, false, List, [], ◌∷◌, ◌++◌, map, reverse, Text, Option, none, some,
}
use adbfs.Flow.{Loop, looping, left, returned}
use adbfs.Cli.MountRoot.{Fatal, value, fatal}
use adbfs.Automount.{Received, Serving, main_with_exit_code}
use adbfs.Automount.Main.{
  Deed, event_log_made, event_log_finished, watcher_made, watcher_shut_down, tracker_made,
  processes_shut_down, asked_for, Ending, fatal_error, exits, goes_on_looping, after_loop,
  after_paths, main,
}

-- What is held: the last one that was made comes first.
pub data Held : Type 0 where
  event_log watcher tracker : Held

abbrev give_up : Held → List Held → Option (List Held)
give_up h [] = none
give_up event_log (event_log ∷ hs) = some hs
give_up watcher (watcher ∷ hs) = some hs
give_up tracker (tracker ∷ hs) = some hs
give_up h (k ∷ hs) = none

abbrev while_tracked : List Held → Option (List Held)
while_tracked (tracker ∷ hs) = some (tracker ∷ hs)
while_tracked hs = none

-- What is held after a deed, if it may be done: only what was made last is given up, and devices are
-- asked for while there is a tracker.
abbrev pub after_deed : Deed → List Held → Option (List Held)
after_deed event_log_made hs = some (event_log ∷ hs)
after_deed watcher_made hs = some (watcher ∷ hs)
after_deed tracker_made hs = some (tracker ∷ hs)
after_deed event_log_finished hs = give_up event_log hs
after_deed watcher_shut_down hs = give_up watcher hs
after_deed processes_shut_down hs = give_up tracker hs
after_deed (asked_for serial) hs = while_tracked hs

abbrev pub after_deeds : List Deed → Option (List Held) → Option (List Held)
after_deeds ds none = none
after_deeds [] (some hs) = some hs
after_deeds (d ∷ ds) (some hs) = after_deeds ds (after_deed d hs)

after_asking :
    (serials : List Text) (hs : List Held) (rest : List Deed)
    → after_deeds (map asked_for serials ++ rest) (some (tracker ∷ hs))
      ≡ after_deeds rest (some (tracker ∷ hs))
after_asking [] hs rest = refl
after_asking (s ∷ ss) hs rest = after_asking ss hs rest

after_asking_alone :
    (serials : List Text) (hs : List Held)
    → after_deeds (map asked_for serials) (some (tracker ∷ hs)) ≡ some (tracker ∷ hs)
after_asking_alone [] hs = refl
after_asking_alone (s ∷ ss) hs = after_asking_alone ss hs

-- What an ending leaves.
abbrev pub Unwound : Ending → Type 0
Unwound (exits code deeds) = after_deeds deeds (some []) ≡ some []
Unwound (fatal_error deeds) = after_deeds deeds (some []) ≡ some (event_log ∷ [])
Unwound (goes_on_looping deeds) =
    after_deeds deeds (some []) ≡ some (tracker ∷ watcher ∷ event_log ∷ [])

after_loop-Unwound : (loop : Loop Serving ℕ) → Unwound (after_loop loop)
after_loop-Unwound (returned code s) =
    after_asking (reverse s.asked) (watcher ∷ event_log ∷ [])
      (processes_shut_down ∷ watcher_shut_down ∷ event_log_finished ∷ [])
after_loop-Unwound (looping s) = after_asking_alone (reverse s.asked) (watcher ∷ event_log ∷ [])
after_loop-Unwound (left s) = after_asking_alone (reverse s.asked) (watcher ∷ event_log ∷ [])

after_paths-Unwound :
    (paths : Fatal (Text × Text)) (server : Bool) (loop : Loop Serving ℕ)
    → Unwound (after_paths paths server loop)
after_paths-Unwound fatal server loop = refl
after_paths-Unwound (value paths) false loop = refl
after_paths-Unwound (value paths) true loop = after_loop-Unwound loop

-- However the program comes to its end: where it returns an exit code, what it has made has been given
-- up, each thing once, that which was made last first, so that the processes are shut down before the
-- watcher and after the last device was asked for; a fatal error over the paths leaves the event log
-- alone, and while the loop goes on all is held.
main-Unwound :
    (paths : Fatal (Text × Text)) (server : Bool) (n : ℕ) (received : List Received)
    → Unwound (main paths server n received)
unfolding main
main-Unwound paths server n received =
    after_paths-Unwound paths server (main_with_exit_code n received)
