-- ===== src/Automount/Main.antt =====
-- cmd/adbfs-automount/main.go: `mainWithExitCode` around its loop, with the calls that it defers, and
-- the handlers that `mountDevice` fires.
pub mod Unwinding
pub mod Launched
mod Tests
use adbfs.Base.{ℕ, Bool, true, false, List, [], ◌∷◌, ◌++◌, map, reverse, Text, Option, none, some}
use adbfs.Flow.{Loop, looping, left, returned}
use adbfs.Cli.MountRoot.{Fatal, value, fatal}
use adbfs.Cli.Handlers.{
  Values, path_handler_var, serial_handler_var, model_handler_var, Running, Executed, fire_handlers,
}
use adbfs.Automount.{
  Action, created, removed, launched, fired_on_mount, fired_on_unmount, waited, Received, Serving,
  main_with_exit_code,
}

-- What is made and given up, and the calls of `processes.Go`.
pub data Deed : Type 0 where
  event_log_made event_log_finished watcher_made watcher_shut_down : Deed
  tracker_made processes_shut_down : Deed
  asked_for : Text → Deed

-- The deeds so far, and those that are deferred, the last one first.
pub record MainFrame : Type 0 where
  pub deeds : List Deed
  pub deferred : List Deed

abbrev make : Deed → Deed → MainFrame → MainFrame
make deed later f = record { deeds = f.deeds ++ deed ∷ []; deferred = later ∷ f.deferred }

abbrev at_start : MainFrame
at_start = record { deeds = []; deferred = [] }

abbrev with_event_log : MainFrame
with_event_log = make event_log_made event_log_finished at_start

abbrev with_tracker : MainFrame
with_tracker =
    make tracker_made processes_shut_down (make watcher_made watcher_shut_down with_event_log)

-- How the program ends: by a fatal error, at which no deferred call is made, or with an exit code; or
-- it is still in its loop.
pub data Ending : Type 0 where
  fatal_error : List Deed → Ending
  exits : ℕ → List Deed → Ending
  goes_on_looping : List Deed → Ending

abbrev exit_from : ℕ → MainFrame → Ending
exit_from code f = exits code (f.deeds ++ f.deferred)

abbrev asking : Serving → MainFrame → MainFrame
asking s f = record f { deeds = f.deeds ++ map asked_for (reverse s.asked) }

-- Nothing breaks out of the loop.
abbrev after_loop : Loop Serving ℕ → Ending
after_loop (returned code s) = exit_from code (asking s with_tracker)
after_loop (looping s) = goes_on_looping (asking s with_tracker).deeds
after_loop (left s) = goes_on_looping (asking s with_tracker).deeds

abbrev after_paths : Fatal (Text × Text) → Bool → Loop Serving ℕ → Ending
after_paths fatal server loop = fatal_error with_event_log.deeds
after_paths (value paths) false loop = exit_from 1 with_event_log
after_paths (value paths) true loop = after_loop loop

-- The paths as they were initialized, whether `adb.NewServer` succeeds, and so many rounds of the loop.
unfoldable pub main : Fatal (Text × Text) → Bool → ℕ → List Received → Ending
main paths server n received = after_paths paths server (main_with_exit_code n received)

-- `handlerBinding` of `mountDevice`.
abbrev pub handler_binding : Text → Text → Text → Values
handler_binding mountpoint serial model =
    (path_handler_var, mountpoint) ∷ (serial_handler_var, serial) ∷ (model_handler_var, model) ∷ []

module _ (running : Running) (environ on_mount on_unmount : List Text) where
  -- The handlers that an action of `mountDevice` fires.
  abbrev fired : Action → List (Option Executed)
  fired (created path) = []
  fired (removed path) = []
  fired (launched cmd) = []
  fired waited = []
  fired (fired_on_mount mountpoint serial model) =
      fire_handlers running environ on_mount (handler_binding mountpoint serial model)
  fired (fired_on_unmount mountpoint serial model) =
      fire_handlers running environ on_unmount (handler_binding mountpoint serial model)

  abbrev pub all_fired : List Action → List (Option Executed)
  all_fired [] = []
  all_fired (a ∷ as_) = fired a ++ all_fired as_
