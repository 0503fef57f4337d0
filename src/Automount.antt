-- ===== src/Automount.antt =====
-- cmd/adbfs-automount/main.go: the program that mounts each device that comes online.
pub mod Mounting
pub mod Stopping
pub mod Looping
pub mod Main
mod Tests
use adbfs.Base.{
  ℕ, suc, Bool, true, false, ◌||◌, if◌then◌else◌, List, [], ◌∷◌, ◌++◌, Text, Option, none, some,
  drop,
}
use adbfs.Flow.{Flow, goes_on, returns, waits, in_select, Loop, for_loop}
use adbfs.Cli.Flags.{Formats, BaseConfig, AdbfsConfig, as_args}

-- `exec.Cmd`: the program, and its arguments, of which the first is its name.
pub record Cmd : Type 0 where
  pub path : Text
  pub args : List Text

abbrev pub new_mount_process : Formats → Text → AdbfsConfig → Cmd
new_mount_process formats path_to_adbfs config = record {
  path = path_to_adbfs;
  args = as_args formats config;
}

-- What the program that is started parses as its command line, `os.Args[1:]`.
abbrev pub command_line : Cmd → List Text
command_line cmd = drop 1 cmd.args

-- What `mountDevice` does to the outside.
pub data Action : Type 0 where
  created removed : Text → Action
  launched : Cmd → Action
  fired_on_mount fired_on_unmount : Text → Text → Text → Action
  waited : Action

-- The outcomes of what it calls: the device's model, the new mountpoint, and whether the program
-- starts. How the program ends only decides what is logged.
pub record Outcomes : Type 0 where
  pub model : Option Text
  pub new_mountpoint : Option Text
  pub starts : Bool

-- A function's actions so far, and those it has deferred, the last one first.
pub record Frame : Type 0 where
  pub acted : List Action
  pub deferred : List Action

abbrev pub act : Action → Frame → Frame
act a f = record f { acted = f.acted ++ a ∷ [] }

abbrev pub defer : Action → Frame → Frame
defer a f = record f { deferred = a ∷ f.deferred }

abbrev pub no_action : Frame
no_action = record { acted = []; deferred = [] }

-- Where a function returns.
abbrev pub leave : Frame → List Action
leave f = f.acted ++ f.deferred

module _ (formats : Formats) (path_to_adbfs : Text) (config : BaseConfig) (serial : Text) where
  abbrev after_start : Outcomes → Text → Text → Frame → List Action
  after_start o model mountpoint f =
      if o.starts
      then leave (
          act waited (
            defer (fired_on_unmount mountpoint serial model)
              (act (fired_on_mount mountpoint serial model) f)))
      else leave f

  abbrev launch : Text → Cmd
  launch mountpoint =
      new_mount_process formats path_to_adbfs
        (record { base = config; device_serial = serial; mountpoint = mountpoint })

  abbrev with_mountpoint : Outcomes → Text → Option Text → Frame → List Action
  with_mountpoint o model none f = leave f
  with_mountpoint o model (some mountpoint) f =
      after_start o model mountpoint (
        act (launched (launch mountpoint))
          (defer (removed mountpoint) (act (created mountpoint) f)))

  abbrev with_model : Outcomes → Option Text → Frame → List Action
  with_model o none f = leave f
  with_model o (some model) f = with_mountpoint o model o.new_mountpoint f

  unfoldable pub mount_device : Outcomes → List Action
  mount_device o = with_model o o.model no_action

-- What the program's loop receives: an event of the device watcher, the end of the watcher, and a
-- signal.
pub data Received : Type 0 where
  came_online went_offline unknown_event : Text → Received
  watcher_quit : Received
  interrupted killed other_signal : Received

-- What is to be received, and the devices that `mountDevice` was asked for.
pub record Serving : Type 0 where
  pub coming : List Received
  pub asked : List Text

abbrev one_received : Received → Serving → Flow Serving ℕ
one_received (came_online serial) s = goes_on (record s { asked = serial ∷ s.asked })
one_received (went_offline serial) s = goes_on s
one_received (unknown_event serial) s = goes_on s
one_received watcher_quit s = returns 1 s
one_received interrupted s = returns 0 s
one_received killed s = returns 0 s
one_received other_signal s = goes_on s

abbrev serve_one : List Received → Serving → Flow Serving ℕ
serve_one [] s = waits s
serve_one (r ∷ rs) s = one_received r (record s { coming = rs })

-- So many rounds of the loop of `mainWithExitCode`, which returns the exit code.
unfoldable pub main_with_exit_code : ℕ → List Received → Loop Serving ℕ
main_with_exit_code n received =
    for_loop (λ (s : Serving). in_select (serve_one s.coming s)) n
      (record { coming = received; asked = [] })
