-- ===== src/Adbfs/Unmounting.antt =====
-- cmd/adbfs/main.go, `unmountServer` and `handleDeviceDisconnected`: how often the server is
-- unmounted.
use adbfs.Base.{
  ◌+◌, ◌≤◌, ◌≡◌, ◌⊎◌, refl, ap, true, false, List, [], ◌∷◌, ◌++◌, Option, none, some, done, arith,
  inl, inr,
}
use adbfs.Adbfs.{
  compare_and_swap, Shared, Phase, at_mounted, at_unmounted, at_server, at_mounted_check, at_swap,
  at_unmount, advance, leaving, gone, main_after, Program, launched, rest, Step, server_set,
  server_started, start_failed, main_left, main_advanced, disconnected, advanced, Run, stop, next,
}
use adbfs.Adbfs.Phases.{all_may_be, about, all_about, main_about, IsSound, advance-Advanced}
use adbfs.Adbfs.Advances.{
  advance-Advanced_at, all_may_be-grows, all_may_be-append, kept_mounted, replaced-all_may_be,
  replaced-all_about, has_server-kept, set_server-may_be, once_after, main_about_after,
  main_may_be-grows,
}

pub step-IsSound : {s t : Program} → IsSound s → Step s t → IsSound t
unfolding compare_and_swap
step-IsSound {s} k (server_set e) = record {
  has_server = ground arith;
  main_phase = ground (arith, rw e at k.main_phase);
  other_phases = set_server-may_be s.shared s.phases k.other_phases;
  once = rw e at k.once;
}
step-IsSound {s} k (server_started e) = record {
  has_server = ground (arith, rw e at k.main_phase);
  main_phase = ground (arith, rw e at k.main_phase);
  other_phases =
      all_may_be-grows s.shared
        (record s.shared { mounted = (compare_and_swap s.shared.mounted false true).1 }) s.phases
        (ground arith) (ground arith) k.other_phases;
  once = rw e at k.once;
}
step-IsSound {s} k (start_failed e) = record {
  has_server = k.has_server;
  main_phase = rw e at k.main_phase;
  other_phases = k.other_phases;
  once = rw e at k.once;
}
step-IsSound {s} k (main_left e) = record {
  has_server = k.has_server;
  main_phase = ground (arith, rw e at k.main_phase);
  other_phases = k.other_phases;
  once = rw e at k.once;
}
step-IsSound {s} k (main_advanced p h o e f) =
    let m = rw e at k.main_phase in
    let a = advance-Advanced_at s.shared h p o k.has_server (ground (arith, m)) f in
    record {
      has_server = has_server-kept s.shared h a.server a.mounted k.has_server;
      main_phase = ground (arith, m, a.main_phase);
      other_phases =
          all_may_be-grows s.shared h s.phases (kept_mounted s.shared h a.mounted) a.unmounted
            k.other_phases;
      once =
          once_after s.shared h p o (about p + all_about s.phases)
            (main_about (main_after o) + all_about s.phases) a (rw e at k.once)
            (omega (arith, main_about_after o));
    }
step-IsSound {s} k disconnected = record {
  has_server = k.has_server;
  main_phase = k.main_phase;
  other_phases = k.other_phases;
  once = omega (arith, k.once);
}
step-IsSound {s} k (advanced before after p h o e f) =
    let all = all_may_be-append s.shared before (p ∷ after) in
    let own = rw e at k.other_phases in
    let a = advance-Advanced_at s.shared h p o k.has_server (ground (arith, all, own)) f in
    record {
      has_server = has_server-kept s.shared h a.server a.mounted k.has_server;
      main_phase = main_may_be-grows s.shared h s.main a.server a.mounted a.unmounted k.main_phase;
      other_phases = replaced-all_may_be s.shared h before after p o a own;
      once =
          once_after s.shared h p o (main_about s.main + all_about (before ++ p ∷ after))
            (main_about s.main + all_about (before ++ rest o ++ after)) a (rw e at k.once)
            (omega (arith, replaced-all_about before after p o));
    }

run-IsSound_from : {s t : Program} → IsSound s → Run s t → IsSound t
run-IsSound_from k stop = k
run-IsSound_from k (next x r) = run-IsSound_from (step-IsSound k x) r

pub run-IsSound : (s : Program) → Run launched s → IsSound s
run-IsSound s r =
    run-IsSound_from
      (record { has_server = refl; main_phase = refl; other_phases = refl; once = refl }) r

-- However the goroutines' steps come: the next step of `main` in its deferred call, and of each
-- goroutine in `handleDeviceDisconnected`, does not panic, and the server has been unmounted at most
-- once.
pub advance-done :
    (s : Program) (p : Phase)
    → Run launched s
    → (s.main ≡ leaving p)
      ⊎ ((before : List Phase) × (after : List Phase) × (s.phases ≡ before ++ p ∷ after))
    → (s.shared.unmounts ≤ 1)
      × ((h : Shared) × (o : Option Phase) × (advance s.shared p ≡ done (h, o)))
advance-done s p r (inl e) =
    let k = run-IsSound s r in
    let m = rw e at k.main_phase in
    let (h, o, step, a) = advance-Advanced s.shared p k.has_server (ground (arith, m)) in
    (ground (arith, k.once), (h, o, step))
advance-done s p r (inr (before, after, e)) =
    let k = run-IsSound s r in
    let own = all_may_be-append s.shared before (p ∷ after) in
    let (h, o, step, a) =
      advance-Advanced s.shared p k.has_server
        (ground (arith, own, ap (all_may_be s.shared) e, k.other_phases)) in
    (ground (arith, k.once), (h, o, step))

-- When `main` has returned and no goroutine is in `handleDeviceDisconnected`, the server has been
-- unmounted, once.
main-unmounts :
    (s : Program) → Run launched s → s.main ≡ gone → s.phases ≡ [] → s.shared.unmounts ≡ 1
main-unmounts s r e f =
    let k = run-IsSound s r in ground (arith, rw e at k.main_phase, rw e at k.once, ap all_about f)

abbrev up : Shared
up = record { server = true; mounted = true; unmounted = false; unmounts = 0 }

abbrev down : Shared
down = record up { unmounted = true }

-- Steps exist after which `main` has returned, so that the program ends, and the server has not been
-- unmounted: a goroutine of `handleDeviceDisconnected` has swapped the flag and is yet to call
-- `Unmount`, for which `main` does not wait.
pub main_gone :
    (s : Program) × Run launched s
    × (s.main ≡ gone)
    × (s.shared.unmounts ≡ 0)
    × (s.phases ≡ at_unmount ∷ [])
unfolding advance compare_and_swap
main_gone = (
  record { main = gone; shared = down; phases = at_unmount ∷ [] },
  next (server_set refl) (
      next (server_started refl) (
        next disconnected (
          next (advanced [] [] at_mounted up (some at_unmounted) refl refl) (
            next (advanced [] [] at_unmounted up (some at_server) refl refl) (
              next (advanced [] [] at_server up (some at_mounted_check) refl refl) (
                next (advanced [] [] at_mounted_check up (some at_swap) refl refl) (
                  next (advanced [] [] at_swap down (some at_unmount) refl refl) (
                    next (main_left refl) (
                      next (main_advanced at_server down (some at_mounted_check) refl refl) (
                        next (main_advanced at_mounted_check down (some at_swap) refl refl)
                          (next (main_advanced at_swap down none refl refl) stop))))))))))),
  refl,
  refl,
  refl,
)
