-- ===== src/Adbfs/Phases.antt =====
-- cmd/adbfs/main.go: what holds where a goroutine is in `unmountServer` and in
-- `handleDeviceDisconnected`, and what one step of it does.
use adbfs.Base.{
  ℕ, ◌+◌, ◌≡◌, refl, ap, Bool, true, false, not, ◌&&◌, ◌||◌, if◌then◌else◌, List, [], ◌∷◌, Option,
  none, some, done, arith, Bool-cases, inl, inr,
}
use adbfs.Adbfs.{
  compare_and_swap, Shared, Phase, at_mounted, at_unmounted, at_server, at_mounted_check, at_swap,
  at_unmount, advance, swapped, Main, mounting, starting, serving, leaving, gone, died, main_after,
  Program, rest,
}

-- A goroutine has got to a phase only where it may be.
abbrev pub may_be : Shared → Phase → Bool
may_be h at_mounted = true
may_be h at_unmounted = h.mounted
may_be h at_server = h.mounted
may_be h at_mounted_check = h.mounted
may_be h at_swap = h.mounted
may_be h at_unmount = h.mounted && h.unmounted

abbrev pub all_may_be : Shared → List Phase → Bool
all_may_be h [] = true
all_may_be h (p ∷ ps) = may_be h p && all_may_be h ps

-- The phases of `unmountServer`.
abbrev in_unmount_server : Phase → Bool
in_unmount_server at_mounted = false
in_unmount_server at_unmounted = false
in_unmount_server p = true

abbrev pub main_may_be : Shared → Main → Bool
main_may_be h mounting = not h.mounted
main_may_be h starting = h.server && not h.mounted
main_may_be h serving = h.mounted
main_may_be h gone = h.mounted && h.unmounted
main_may_be h died = h.server && not h.mounted
main_may_be h (leaving p) = in_unmount_server p && may_be h p && h.mounted

-- The goroutines that are about to unmount the server.
abbrev pub about : Phase → ℕ
about at_unmount = 1
about p = 0

abbrev pub all_about : List Phase → ℕ
all_about [] = 0
all_about (p ∷ ps) = about p + all_about ps

abbrev pub main_about : Main → ℕ
main_about (leaving p) = about p
main_about m = 0

pub record IsSound (s : Program) : Type 0 where
  pub has_server : not s.shared.mounted || s.shared.server ≡ true
  pub main_phase : main_may_be s.shared s.main ≡ true
  pub other_phases : all_may_be s.shared s.phases ≡ true
  pub once :
      s.shared.unmounts + (main_about s.main + all_about s.phases)
      ≡ (if s.shared.unmounted then 1 else 0)

-- What one step of a goroutine does to what they share.
pub record Advanced (h : Shared) (p : Phase) (h' : Shared) (o : Option Phase) : Type 0 where
  pub server : h'.server ≡ h.server
  pub mounted : h'.mounted ≡ h.mounted
  pub unmounted : not h.unmounted || h'.unmounted ≡ true
  pub phase : all_may_be h' (rest o) ≡ true
  pub main_phase : not (main_may_be h (leaving p)) || main_may_be h' (main_after o) ≡ true
  pub once :
      h'.unmounts + all_about (rest o) + (if h.unmounted then 1 else 0)
      ≡ h.unmounts + about p + (if h'.unmounted then 1 else 0)

server_set_lem :
    (h : Shared) → not h.mounted || h.server ≡ true → h.mounted ≡ true → h.server ≡ true
server_set_lem h e m = ground (arith, e, m)

-- A step that only reads.
stay :
    (h : Shared) (p q : Phase)
    → may_be h q ≡ true
    → about p ≡ 0
    → about q ≡ 0
    → not (in_unmount_server p) || in_unmount_server q ≡ true
    → Advanced h p h (some q)
stay h p q m e f g = record {
  server = refl;
  mounted = refl;
  unmounted = ground arith;
  phase = ground (arith, m);
  main_phase = ground (arith, m, g);
  once = omega (arith, e, f);
}

leave :
    (h : Shared) (p : Phase)
    → about p ≡ 0
    → not (in_unmount_server p) || h.unmounted ≡ true
    → Advanced h p h none
leave h p e f = record {
  server = refl;
  mounted = refl;
  unmounted = ground arith;
  phase = refl;
  main_phase = ground (arith, f);
  once = omega (arith, e);
}

compare_and_swap_kept : (b : Bool) → b ≡ true → compare_and_swap b false true ≡ (false, b)
unfolding compare_and_swap
compare_and_swap_kept true h = refl
compare_and_swap_kept false h = absurd (cc)

advance-swap : (h : Shared) → h.unmounted ≡ true → advance h at_swap ≡ done (h, none)
unfolding advance
advance-swap h over = ap (λ x. done (swapped h x)) (compare_and_swap_kept h.unmounted over)

pub advance-Advanced :
    (h : Shared) (p : Phase)
    → not h.mounted || h.server ≡ true
    → may_be h p ≡ true
    → (h' : Shared) × (o : Option Phase) × (advance h p ≡ done (h', o)) × Advanced h p h' o
unfolding advance compare_and_swap
advance-Advanced h at_mounted e m = elim (Bool-cases h.mounted) [
  | inl up ↦ (
    _,
    some at_unmounted,
    rw up refl,
    stay h at_mounted at_unmounted (ground (arith, up)) refl refl refl,
  )
  | inr down ↦ (_, none, rw down refl, leave h at_mounted refl refl)
]
advance-Advanced h at_unmounted e m = elim (Bool-cases h.unmounted) [
  | inl over ↦ (_, none, rw over refl, leave h at_unmounted refl refl)
  | inr there ↦ (
    _,
    some at_server,
    rw there refl,
    stay h at_unmounted at_server (ground (arith, m)) refl refl refl,
  )
]
advance-Advanced h at_server e m = (
  _,
  some at_mounted_check,
  rw (server_set_lem h e m) refl,
  stay h at_server at_mounted_check (ground (arith, m)) refl refl refl,
)
advance-Advanced h at_mounted_check e m =
    (_, some at_swap, rw m refl, stay h at_mounted_check at_swap (ground (arith, m)) refl refl refl)
advance-Advanced h at_swap e m = elim (Bool-cases h.unmounted) [
  | inl over ↦ (h, none, advance-swap h over, leave h at_swap refl over)
  | inr there ↦ (
    record h { unmounted = true },
    some at_unmount,
    rw there refl,
    record {
      server = refl;
      mounted = refl;
      unmounted = ground arith;
      phase = ground (arith, m);
      main_phase = ground (arith, m);
      once = ground (arith, there);
    },
  )
]
advance-Advanced h at_unmount e m = (
  _,
  none,
  refl,
  record {
    server = refl;
    mounted = refl;
    unmounted = ground arith;
    phase = refl;
    main_phase = ground (arith, m);
    once = omega arith;
  },
)
