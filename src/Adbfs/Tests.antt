-- ===== src/Adbfs/Tests.antt =====
-- A device that goes offline, and a program that is mounted.
use adbfs.Base.{
  ◌≤◌, ◌≡◌, refl, true, false, List, [], ◌∷◌, Text, text_eq, codes, inr, Option, done, arith,
}
use adbfs.Flow.{looping}
use adbfs.Adbfs.Dying.{died-unmounts}
use adbfs.Adbfs.Phases.{all_about}
use adbfs.Adbfs.{
  Shared, Phase, at_mounted, advance, gone, Program, launched, disconnected, stop, next, Run, died,
  server_set, start_failed, watch_for_device_disconnected, DeviceStateChangedEvent,
}
use adbfs.Adbfs.Unmounting.{advance-done}
use adbfs.Adbfs.Watching.{watch_for_device_disconnected_lem}

abbrev phone : Text
phone = codes "phone"

abbrev events : List DeviceStateChangedEvent
events =
    record { serial = phone; went_offline = false }
    ∷ record { serial = phone; went_offline = true }
    ∷ record { serial = codes "tablet"; went_offline = true }
    ∷ []

watch_for_device_disconnected_lem_example :
    watch_for_device_disconnected phone 100 events ≡ looping (record { events = []; calls = 1 })
unfolding text_eq
watch_for_device_disconnected_lem_example =
    watch_for_device_disconnected_lem phone 100 events (omega arith)

abbrev early : Program
early = record launched { phases = at_mounted ∷ [] }

advance-done_example :
    (early.shared.unmounts ≤ 1)
    × ((h : Shared) × (o : Option Phase) × (advance early.shared at_mounted ≡ done (h, o)))
advance-done_example = advance-done early at_mounted (next disconnected stop) (inr ([], [], refl))

abbrev at_end : Program
at_end = record {
  main = gone;
  shared = record { server = true; mounted = true; unmounted = true; unmounts = 1 };
  phases = [];
}

abbrev up : Shared
up = record { server = true; mounted = true; unmounted = false; unmounts = 0 }

abbrev ran : (s : Program) × Run launched s × (s.main ≡ died)
ran = (
  record launched { main = died; shared = record launched.shared { server = true } },
  next (server_set refl) (next (start_failed refl) stop),
  refl,
)

died-unmounts_example :
    (ran.0.shared.server ≡ true) × (ran.0.shared.unmounts ≡ 0) × (all_about ran.0.phases ≡ 0)
died-unmounts_example = died-unmounts ran.0 ran.1 ran.2
