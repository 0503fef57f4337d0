-- ===== src/Automount/Stopping/Kept.antt =====
-- cmd/adbfs-automount/main.go, `mountDevice` and the goroutine that kills its program: what holds
-- after any of their steps, and how many there are.
use adbfs.Base.{
  text_eq, ℕ, suc, ◌+◌, ◌≤◌, ◌≡◌, refl, subst, Bool, true, false, not, ◌&&◌, ◌||◌, if◌then◌else◌,
  List, [], ◌∷◌, length, Option, none, some, arith,
}
use adbfs.Automount.{Action, created, removed, launched, fired_on_mount, fired_on_unmount, waited}
use adbfs.Automount.Stopping.{
  Program, not_started, running, hit, ended, Killer, not_begun, awaiting, finished, Mount, Move,
  stop, act, kill, die, exit, next_action, killing, dying, exiting, and_then, move_on, moves_on,
}

-- Whether the program was started and has not ended.
abbrev pub is_alive : Program → Bool
is_alive running = true
is_alive hit = true
is_alive _ = false

abbrev is_started : Program → Bool
is_started not_started = false
is_started _ = true

abbrev is_waited : Action → Bool
is_waited waited = true
is_waited _ = false

abbrev is_launched : Action → Bool
is_launched (launched cmd) = true
is_launched _ = false

-- The rest of `mountDevice` after the wait: the handlers for the unmounting are fired, and then the
-- mountpoint that they were given is removed.
abbrev tidies_up : List Action → Bool
tidies_up (fired_on_unmount mountpoint serial model ∷ removed path ∷ []) = text_eq mountpoint path
tidies_up _ = false

-- The wait is to come, and right after it what tidies up.
abbrev pub waits_in : List Action → Bool
waits_in [] = false
waits_in (a ∷ actions) = is_waited a && tidies_up actions || waits_in actions

-- The program is waited for after it is started, and only if it is: given whether it has been.
abbrev is_ordered : Bool → Bool → List Action → Bool
is_ordered starts started [] = true
is_ordered starts started (launched cmd ∷ rest) =
    not started
    && (if starts
        then waits_in rest && is_ordered starts true rest
        else is_ordered starts false rest)
is_ordered starts started (a ∷ rest) =
    (not (is_waited a) || started) && is_ordered starts started rest

-- A program that runs has a goroutine that waits to kill it.
abbrev is_watched : Program → Killer → Bool
is_watched not_started not_begun = true
is_watched not_started _ = false
is_watched running awaiting = true
is_watched running _ = false
is_watched hit finished = true
is_watched hit _ = false
is_watched ended not_begun = false
is_watched ended _ = true

-- How many steps are left: a launch makes two more.
abbrev program_steps : Program → ℕ
program_steps running = 1
program_steps hit = 1
program_steps _ = 0

abbrev killer_steps : Killer → ℕ
killer_steps awaiting = 1
killer_steps _ = 0

abbrev action_steps : List Action → ℕ
action_steps [] = 0
action_steps (a ∷ rest) = (if is_launched a then 3 else 1) + action_steps rest

abbrev stop_steps : Bool → ℕ
stop_steps stopped = if stopped then 0 else 1

abbrev pub steps_left : Mount → ℕ
steps_left m =
    stop_steps m.stopped + program_steps m.program + killer_steps m.killer + action_steps m.to_do

pub record IsKept (starts : Bool) (m : Mount) : Type 0 where
  pub ordered : is_ordered starts (is_started m.program) m.to_do ≡ true
  pub watched : is_watched m.program m.killer ≡ true
  pub waits : not (is_alive m.program) || waits_in m.to_do ≡ true

abbrev IsNext : Bool → Mount → Option Mount → Type 0
IsNext starts m none = Unit
IsNext starts m (some t) = IsKept starts t × (1 + steps_left t ≤ steps_left m)

abbrev pub mount : Bool → Program → Killer → List Action → Mount
mount stopped p q l = record { stopped = stopped; program = p; killer = q; to_do = l }

stop-IsNext :
    (starts s : Bool) (p : Program) (q : Killer) (l : List Action)
    → IsKept starts (mount s p q l)
    → IsNext starts (mount s p q l) (move_on starts stop (mount s p q l))
unfolding move_on
stop-IsNext starts true p q l k = tt
stop-IsNext starts false p q l k =
    (record { ordered = k.ordered; watched = k.watched; waits = k.waits }, omega arith)

kill-IsNext :
    (starts s : Bool) (p : Program) (q : Killer) (l : List Action)
    → IsKept starts (mount s p q l)
    → IsNext starts (mount s p q l) (killing s q (mount s p q l))
kill-IsNext starts false p q l k = tt
kill-IsNext starts true p not_begun l k = tt
kill-IsNext starts true p finished l k = tt
kill-IsNext starts true not_started awaiting l k = absurd (cc k.watched)
kill-IsNext starts true hit awaiting l k = absurd (cc k.watched)
kill-IsNext starts true running awaiting l k =
    (record { ordered = k.ordered; watched = refl; waits = k.waits }, omega arith)
kill-IsNext starts true ended awaiting l k =
    (record { ordered = k.ordered; watched = refl; waits = refl }, omega arith)

die-IsNext :
    (starts s : Bool) (p : Program) (q : Killer) (l : List Action)
    → IsKept starts (mount s p q l)
    → IsNext starts (mount s p q l) (dying p (mount s p q l))
die-IsNext starts s not_started q l k = tt
die-IsNext starts s running q l k = tt
die-IsNext starts s ended q l k = tt
die-IsNext starts s hit finished l k =
    (record { ordered = k.ordered; watched = refl; waits = refl }, omega arith)
die-IsNext starts s hit not_begun l k = absurd (cc k.watched)
die-IsNext starts s hit awaiting l k = absurd (cc k.watched)

exit-IsNext :
    (starts s : Bool) (p : Program) (q : Killer) (l : List Action)
    → IsKept starts (mount s p q l)
    → IsNext starts (mount s p q l) (exiting p (mount s p q l))
exit-IsNext starts s not_started q l k = tt
exit-IsNext starts s hit q l k = tt
exit-IsNext starts s ended q l k = tt
exit-IsNext starts s running awaiting l k =
    (record { ordered = k.ordered; watched = refl; waits = refl }, omega arith)
exit-IsNext starts s running not_begun l k = absurd (cc k.watched)
exit-IsNext starts s running finished l k = absurd (cc k.watched)

act-IsNext :
    (starts s : Bool) (p : Program) (q : Killer) (l : List Action)
    → IsKept starts (mount s p q l)
    → IsNext starts (mount s p q l) (next_action starts l (mount s p q l))
act-IsNext starts s p q [] k = tt
act-IsNext starts s p q (created path ∷ l) k =
    (record { ordered = k.ordered; watched = k.watched; waits = k.waits }, omega arith)
act-IsNext starts s p q (removed path ∷ l) k =
    (record { ordered = k.ordered; watched = k.watched; waits = k.waits }, omega arith)
act-IsNext starts s p q (fired_on_mount a b c ∷ l) k =
    (record { ordered = k.ordered; watched = k.watched; waits = k.waits }, omega arith)
act-IsNext starts s p q (fired_on_unmount a b c ∷ l) k =
    (record { ordered = k.ordered; watched = k.watched; waits = k.waits }, omega arith)
act-IsNext starts s not_started q (waited ∷ l) k = tt
act-IsNext starts s running q (waited ∷ l) k = tt
act-IsNext starts s hit q (waited ∷ l) k = tt
act-IsNext starts s ended q (waited ∷ l) k =
    (record { ordered = k.ordered; watched = k.watched; waits = refl }, omega arith)
act-IsNext starts s running q (launched cmd ∷ l) k = absurd (cc k.ordered)
act-IsNext starts s hit q (launched cmd ∷ l) k = absurd (cc k.ordered)
act-IsNext starts s ended q (launched cmd ∷ l) k = absurd (cc k.ordered)
act-IsNext false s not_started q (launched cmd ∷ l) k =
    (record { ordered = k.ordered; watched = k.watched; waits = refl }, omega arith)
act-IsNext true s not_started not_begun (launched cmd ∷ l) k = (
  record { ordered = ground (arith, k.ordered); watched = refl; waits = ground (arith, k.ordered) },
  omega arith,
)
act-IsNext true s not_started awaiting (launched cmd ∷ l) k = absurd (cc k.watched)
act-IsNext true s not_started finished (launched cmd ∷ l) k = absurd (cc k.watched)

move_on-IsNext :
    (starts : Bool) (x : Move) (m : Mount) → IsKept starts m → IsNext starts m (move_on starts x m)
unfolding move_on
move_on-IsNext starts stop m k = stop-IsNext starts m.stopped m.program m.killer m.to_do k
move_on-IsNext starts act m k = act-IsNext starts m.stopped m.program m.killer m.to_do k
move_on-IsNext starts kill m k = kill-IsNext starts m.stopped m.program m.killer m.to_do k
move_on-IsNext starts die m k = die-IsNext starts m.stopped m.program m.killer m.to_do k
move_on-IsNext starts exit m k = exit-IsNext starts m.stopped m.program m.killer m.to_do k

next-IsKept :
    (starts : Bool) (moves : List Move) (m t : Mount) (o : Option Mount)
    → IsNext starts m o
    → ((u : Mount)
        → IsKept starts u
        → moves_on starts moves u ≡ some t
        → IsKept starts t × (length moves + steps_left t ≤ steps_left u))
    → and_then o (λ u. moves_on starts moves u) ≡ some t
    → IsKept starts t × (suc (length moves) + steps_left t ≤ steps_left m)
next-IsKept starts moves m t none tt after e = absurd (cc e)
next-IsKept starts moves m t (some u) (kept, fewer) after e =
    let (still, rest) = after u kept e in (still, omega (arith, fewer, rest))

pub moves_on-IsKept :
    (starts : Bool) (moves : List Move) (m t : Mount)
    → IsKept starts m
    → moves_on starts moves m ≡ some t
    → IsKept starts t × (length moves + steps_left t ≤ steps_left m)
unfolding moves_on
moves_on-IsKept starts [] m t k e =
    subst (λ (u : Mount). IsKept starts u × (length {A = Move} [] + steps_left u ≤ steps_left m))
      (ground (arith, e)) (k, omega arith)
moves_on-IsKept starts (x ∷ moves) m t k e =
    next-IsKept starts moves m t (move_on starts x m) (move_on-IsNext starts x m k)
      (λ u k'. moves_on-IsKept starts moves u t k') e
