-- ===== src/Automount/Stopping.antt =====
-- cmd/adbfs-automount/main.go, `mountDevice` while its program runs: the goroutine that kills the
-- program when it is told to stop, the program, and the wait for it, in any order.
pub mod Kept
pub mod Returned
mod Tests
use adbfs.Base.{Bool, true, false, if◌then◌else◌, List, [], ◌∷◌, Option, none, some}
use adbfs.Automount.{Action, created, removed, launched, fired_on_mount, fired_on_unmount, waited}

pub data Program : Type 0 where
  not_started running hit ended : Program

-- The goroutine that waits for `context.Done`.
pub data Killer : Type 0 where
  not_begun awaiting finished : Killer

-- Whether the context is done, the program, the goroutine, and what `mountDevice` has yet to do.
pub record Mount : Type 0 where
  pub stopped : Bool
  pub program : Program
  pub killer : Killer
  pub to_do : List Action

abbrev pub mount_begun : List Action → Mount
mount_begun actions = record {
  stopped = false;
  program = not_started;
  killer = not_begun;
  to_do = actions;
}

pub data Move : Type 0 where
  stop act kill die exit : Move

-- `cmd.Start`, and the goroutine that is started where it succeeds.
abbrev pub program_started : Bool → List Action → Mount → Mount
program_started starts rest m =
    if starts
    then record m { program = running; killer = awaiting; to_do = rest }
    else record m { to_do = rest }

-- `cmd.Wait` returns when the program has ended.
abbrev pub wait_returned : Program → List Action → Mount → Option Mount
wait_returned ended rest m = some (record m { to_do = rest })
wait_returned _ rest m = none

abbrev pub next_action : Bool → List Action → Mount → Option Mount
next_action starts [] m = none
next_action starts (waited ∷ rest) m = wait_returned m.program rest m
next_action starts (launched cmd ∷ rest) m = some (program_started starts rest m)
next_action starts (created path ∷ rest) m = some (record m { to_do = rest })
next_action starts (removed path ∷ rest) m = some (record m { to_do = rest })
next_action starts (fired_on_mount mountpoint serial model ∷ rest) m =
    some (record m { to_do = rest })
next_action starts (fired_on_unmount mountpoint serial model ∷ rest) m =
    some (record m { to_do = rest })

-- `cmd.Process.Kill`, whose error, where the program has ended, is not looked at.
abbrev killed_program : Program → Program
killed_program running = hit
killed_program p = p

abbrev pub killing : Bool → Killer → Mount → Option Mount
killing true awaiting m = some (record m { program = killed_program m.program; killer = finished })
killing _ _ m = none

abbrev pub dying : Program → Mount → Option Mount
dying hit m = some (record m { program = ended })
dying _ m = none

abbrev pub exiting : Program → Mount → Option Mount
exiting running m = some (record m { program = ended })
exiting _ m = none

-- One step of somebody, if there is one: the context is done, `mountDevice` goes on, the goroutine
-- kills the program, a program that was killed ends, or it ends by itself.
unfoldable pub move_on : Bool → Move → Mount → Option Mount
move_on starts stop m = if m.stopped then none else some (record m { stopped = true })
move_on starts act m = next_action starts m.to_do m
move_on starts kill m = killing m.stopped m.killer m
move_on starts die m = dying m.program m
move_on starts exit m = exiting m.program m

abbrev pub and_then : Option Mount → (Mount → Option Mount) → Option Mount
and_then none f = none
and_then (some m) f = f m

-- These steps, where each can be made.
pub moves_on : Bool → List Move → Mount → Option Mount
moves_on starts [] m = some m
moves_on starts (x ∷ moves) m = and_then (move_on starts x m) (λ t. moves_on starts moves t)
