-- ===== src/Automount/Stopping/Tests.antt =====
-- cmd/adbfs-automount/main.go: a program that runs until `mountDevice` is told to stop.
use adbfs.Base.{◌≤◌, ◌≡◌, ◌⊎◌, refl, true, false, List, [], ◌∷◌, length, codes, some, pos}
use adbfs.Cli.Flags.{Formats, BaseConfig}
use adbfs.Automount.{removed, Outcomes, mount_device}
use adbfs.Automount.Stopping.{
  ended, finished, Mount, Move, stop, act, kill, die, mount_begun, move_on, moves_on,
}
use adbfs.Automount.Stopping.Kept.{is_alive, waits_in}
use adbfs.Automount.Stopping.Returned.{HasReturned, CanMove, moves_on-HasReturned}

abbrev formats : Formats
formats = record { int_text = λ n. codes "5037"; duration_text = λ n. codes "300ms" }

abbrev base : BaseConfig
base = record {
  adb_port = pos 5037;
  connection_pool_size = pos 2;
  log_level = codes "info";
  verbose = false;
  cache_ttl = pos 300000000;
  serve_debug = false;
  device_root = codes "/sdcard";
  read_only = false;
  path_to_adb = [];
}

abbrev fine : Outcomes
fine = record {
  model = some (codes "Pixel");
  new_mountpoint = some (codes "/mnt/p1");
  starts = true;
}

abbrev moves : List Move
moves = act ∷ act ∷ stop ∷ act ∷ kill ∷ die ∷ act ∷ act ∷ []

-- All but the removal.
abbrev unmounted : Mount
unmounted = record {
  stopped = true;
  program = ended;
  killer = finished;
  to_do = removed (codes "/mnt/p1") ∷ [];
}

moved :
    moves_on true moves (mount_begun (mount_device formats (codes "adbfs") base (codes "p1") fine))
    ≡ some unmounted
unfolding moves_on move_on mount_device
moved = refl

moves_on-HasReturned_example :
    (length moves ≤ 9)
    × ((is_alive unmounted.program ≡ false) ⊎ (waits_in unmounted.to_do ≡ true))
    × ((unmounted.stopped ≡ false) ⊎ (HasReturned unmounted ⊎ CanMove true unmounted))
moves_on-HasReturned_example =
    moves_on-HasReturned formats (codes "adbfs") base (codes "p1") fine moves unmounted moved
