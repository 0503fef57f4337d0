-- ===== src/Automount/Stopping/Returned.antt =====
-- cmd/adbfs-automount/main.go, `mountDevice`: it returns once it is told to stop.
use adbfs.Base.{
  text_eq_refl, ◌≤◌, ◌≡◌, ◌≢◌, ◌⊎◌, inl, inr, refl, Bool, true, false, List, [], ◌∷◌, length, Text,
  some, Option-cases, Bool-cases, arith,
}
use adbfs.Cli.Flags.{Formats, BaseConfig}
use adbfs.Automount.{
  Action, created, removed, launched, fired_on_mount, fired_on_unmount, waited, Outcomes,
  mount_device,
}
use adbfs.Automount.Stopping.{
  Program, not_started, running, hit, ended, Killer, not_begun, awaiting, finished, Mount, Move,
  act, kill, die, mount_begun, move_on, moves_on,
}
use adbfs.Automount.Stopping.Kept.{IsKept, is_alive, waits_in, mount, steps_left, moves_on-IsKept}

begun-IsKept :
    (formats : Formats) (path : Text) (config : BaseConfig) (serial : Text) (o : Outcomes)
    → IsKept o.starts (mount_begun (mount_device formats path config serial o))
      × (steps_left (mount_begun (mount_device formats path config serial o)) ≤ 9)
unfolding mount_device
begun-IsKept formats path config serial o = elim (Option-cases o.model) [
  | inl e ↦ rw e (record { ordered = refl; watched = refl; waits = refl }, omega arith)
  | inr (model, e) ↦ elim (Option-cases o.new_mountpoint) [
    | inl f ↦ rw (e, f) (record { ordered = refl; watched = refl; waits = refl }, omega arith)
    | inr (mountpoint, f) ↦ elim (Bool-cases o.starts) [
      | inl g ↦
          rw (e, f, g)
            (
              record { ordered = rw (text_eq_refl mountpoint) refl; watched = refl; waits = refl },
              omega arith,
            )
      | inr g ↦ rw (e, f, g) (record { ordered = refl; watched = refl; waits = refl }, omega arith)
    ]
  ]
]

-- The moves that are made in the end, if they can: all but a program's end by itself, and a stop.
abbrev pub is_due : Move → Bool
is_due act = true
is_due kill = true
is_due die = true
is_due _ = false

abbrev pub HasReturned : Mount → Type 0
HasReturned m = (m.to_do ≡ []) × (is_alive m.program ≡ false) × (m.killer ≢ awaiting)

abbrev pub CanMove : Bool → Mount → Type 0
CanMove starts m = (x : Move) × (t : Mount) × (is_due x ≡ true) × (move_on starts x m ≡ some t)

acts_without_program :
    (starts : Bool) (p : Program) (q : Killer) (l : List Action)
    → IsKept starts (mount true p q l)
    → is_alive p ≡ false
    → q ≢ awaiting
    → HasReturned (mount true p q l) ⊎ CanMove starts (mount true p q l)
unfolding move_on
acts_without_program starts p q [] k dead n = inl (refl, dead, n)
acts_without_program starts not_started q (waited ∷ l) k dead n = absurd (cc k.ordered)
acts_without_program starts running q (waited ∷ l) k dead n = absurd (cc dead)
acts_without_program starts hit q (waited ∷ l) k dead n = absurd (cc dead)
acts_without_program starts ended q (waited ∷ l) k dead n = inr (act, _, refl, refl)
acts_without_program starts p q (launched cmd ∷ l) k dead n = inr (act, _, refl, refl)
acts_without_program starts p q (created path ∷ l) k dead n = inr (act, _, refl, refl)
acts_without_program starts p q (removed path ∷ l) k dead n = inr (act, _, refl, refl)
acts_without_program starts p q (fired_on_mount a b c ∷ l) k dead n = inr (act, _, refl, refl)
acts_without_program starts p q (fired_on_unmount a b c ∷ l) k dead n = inr (act, _, refl, refl)

goes_on_stopped :
    (starts : Bool) (p : Program) (q : Killer) (l : List Action)
    → IsKept starts (mount true p q l)
    → HasReturned (mount true p q l) ⊎ CanMove starts (mount true p q l)
unfolding move_on
goes_on_stopped starts p awaiting l k = inr (kill, _, refl, refl)
goes_on_stopped starts hit q l k = inr (die, _, refl, refl)
goes_on_stopped starts running not_begun l k = absurd (cc k.watched)
goes_on_stopped starts running finished l k = absurd (cc k.watched)
goes_on_stopped starts not_started not_begun l k =
    acts_without_program starts not_started not_begun l k refl (λ e. cc)
goes_on_stopped starts not_started finished l k = absurd (cc k.watched)
goes_on_stopped starts ended not_begun l k = absurd (cc k.watched)
goes_on_stopped starts ended finished l k =
    acts_without_program starts ended finished l k refl (λ e. cc)

goes_on :
    (starts s : Bool) (p : Program) (q : Killer) (l : List Action)
    → IsKept starts (mount s p q l)
    → (s ≡ false) ⊎ (HasReturned (mount s p q l) ⊎ CanMove starts (mount s p q l))
goes_on starts false p q l k = inl refl
goes_on starts true p q l k = inr (goes_on_stopped starts p q l k)

-- However the steps of `mountDevice`, of its goroutine and of the program come, whatever its calls
-- answer, and whenever its context is done: there are at most nine steps; while the program has not
-- ended, the wait for it is still to come, and right after it the handlers for the unmounting and the
-- removal of the mountpoint that they are given; and once the context is done, either a step is due,
-- other than that the program ends by itself, or `mountDevice` has returned, the program is not
-- running and the goroutine has ended.
pub moves_on-HasReturned :
    (formats : Formats) (path : Text) (config : BaseConfig) (serial : Text) (o : Outcomes)
    (moves : List Move) (m : Mount)
    → moves_on o.starts moves (mount_begun (mount_device formats path config serial o)) ≡ some m
    → (length moves ≤ 9)
      × ((is_alive m.program ≡ false) ⊎ (waits_in m.to_do ≡ true))
      × ((m.stopped ≡ false) ⊎ (HasReturned m ⊎ CanMove o.starts m))
moves_on-HasReturned formats path config serial o moves m e =
    let (first, nine) = begun-IsKept formats path config serial o in
    let (k, few) = moves_on-IsKept o.starts moves _ m first e in
    (
      omega (arith, nine, few),
      elim (Bool-cases (is_alive m.program)) [
        | inl alive ↦ inr (ground (arith, k.waits))
        | inr dead ↦ inl dead
      ],
      goes_on o.starts m.stopped m.program m.killer m.to_do k,
    )
