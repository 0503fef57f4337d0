-- ===== src/Adbfs/Dying.antt =====
-- cmd/adbfs/main.go: a program whose server does not start in time.
use adbfs.Base.{◌≡◌, refl, Bool, true, not, ◌||◌, ◌∷◌, Option, done, arith}
use adbfs.Adbfs.{
  compare_and_swap, Shared, Phase, at_mounted, at_unmounted, at_server, at_mounted_check, at_swap,
  at_unmount, advance, died, Program, launched, Step, server_set, server_started, start_failed,
  main_left, main_advanced, disconnected, advanced, Run, stop, next,
}
use adbfs.Adbfs.Phases.{may_be, IsSound, all_about}
use adbfs.Adbfs.Advances.{all_may_be-append}
use adbfs.Adbfs.Unmounting.{step-IsSound, run-IsSound}

-- The second flag is only set where the first one is.
abbrev in_order : Shared → Bool
in_order h = h.mounted || not h.unmounted

advance-in_order :
    (h h' : Shared) (p : Phase) (o : Option Phase)
    → in_order h ≡ true
    → may_be h p ≡ true
    → advance h p ≡ done (h', o)
    → in_order h' ≡ true
unfolding advance compare_and_swap
advance-in_order h h' at_mounted o k m e = ground (arith, k, m, e)
advance-in_order h h' at_unmounted o k m e = ground (arith, k, m, e)
advance-in_order h h' at_server o k m e = ground (arith, k, m, e)
advance-in_order h h' at_mounted_check o k m e = ground (arith, k, m, e)
advance-in_order h h' at_swap o k m e = ground (arith, k, m, e)
advance-in_order h h' at_unmount o k m e = ground (arith, k, m, e)

step-in_order :
    {s t : Program} → IsSound s → in_order s.shared ≡ true → Step s t → in_order t.shared ≡ true
unfolding compare_and_swap
step-in_order k i (server_set e) = i
step-in_order {s} k i (server_started e) = ground (arith, rw e at k.main_phase, i)
step-in_order k i (start_failed e) = i
step-in_order k i (main_left e) = i
step-in_order {s} k i (main_advanced p h o e f) =
    let m = rw e at k.main_phase in advance-in_order s.shared h p o i (ground (arith, m)) f
step-in_order k i disconnected = i
step-in_order {s} k i (advanced before after p h o e f) =
    let own = rw e at k.other_phases in
    let all = all_may_be-append s.shared before (p ∷ after) in
    advance-in_order s.shared h p o i (ground (arith, all, own)) f

run-in_order :
    {s t : Program} → IsSound s → in_order s.shared ≡ true → Run s t → in_order t.shared ≡ true
run-in_order k i stop = i
run-in_order k i (next x r) = run-in_order (step-IsSound k x) (step-in_order k i x) r

-- Where the program ends as the server did not start, however its goroutines' steps came: the server
-- that `MountRoot` has set up was not unmounted, and no goroutine was about to.
pub died-unmounts :
    (s : Program)
    → Run launched s
    → s.main ≡ died
    → (s.shared.server ≡ true) × (s.shared.unmounts ≡ 0) × (all_about s.phases ≡ 0)
died-unmounts s r e =
    let k = run-IsSound s r in
    let m = rw e at k.main_phase in
    let i =
      run-in_order
        (record { has_server = refl; main_phase = refl; other_phases = refl; once = refl }) refl
        r in
    let o = rw e at k.once in (ground (arith, m), ground (arith, m, i, o), ground (arith, m, i, o))
