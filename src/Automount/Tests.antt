-- ===== src/Automount/Tests.antt =====
-- A device that is mounted, and a loop that is interrupted.
use adbfs.Base.{◌≡◌, refl, true, false, [], ◌∷◌, codes, some, pos, arith}
use adbfs.Flow.{returned}
use adbfs.Cli.Flags.{Formats, BaseConfig, AdbfsConfig}
use adbfs.Automount.{
  created, removed, launched, fired_on_mount, fired_on_unmount, waited, Outcomes, mount_device,
  new_mount_process, came_online, went_offline, interrupted, main_with_exit_code,
}
use adbfs.Automount.Mounting.{mount_device_lem}
use adbfs.Automount.Looping.{main_with_exit_code-returned}

abbrev formats : Formats
formats = record { int_text = λ n. codes "5037"; duration_text = λ n. codes "300ms" }

abbrev base : BaseConfig
base = record {
  adb_port = pos 5037;
  connection_pool_size = pos 2;
  log_level = codes "info";
  verbose = false;
  cache_ttl = pos 300000000;
  serve_debug = false;
  device_root = codes "/sdcard";
  read_only = true;
  path_to_adb = [];
}

abbrev phone : AdbfsConfig
phone = record { base = base; device_serial = codes "p1"; mountpoint = codes "/mnt/p1" }

abbrev fine : Outcomes
fine = record {
  model = some (codes "Pixel");
  new_mountpoint = some (codes "/mnt/p1");
  starts = true;
}

mount_device_lem_example :
    mount_device formats (codes "adbfs") base (codes "p1") fine
    ≡ created (codes "/mnt/p1")
      ∷ launched (new_mount_process formats (codes "adbfs") phone)
      ∷ fired_on_mount (codes "/mnt/p1") (codes "p1") (codes "Pixel")
      ∷ waited
      ∷ fired_on_unmount (codes "/mnt/p1") (codes "p1") (codes "Pixel")
      ∷ removed (codes "/mnt/p1")
      ∷ []
mount_device_lem_example =
    mount_device_lem formats (codes "adbfs") base (codes "p1") (codes "Pixel") (codes "/mnt/p1")
      fine refl refl

main_with_exit_code-returned_example :
    main_with_exit_code 5 (
      came_online (codes "p1")
      ∷ went_offline (codes "p1")
      ∷ interrupted
      ∷ came_online (codes "p2")
      ∷ [])
    ≡ returned 0 (record { coming = came_online (codes "p2") ∷ []; asked = codes "p1" ∷ [] })
main_with_exit_code-returned_example =
    main_with_exit_code-returned 5 (came_online (codes "p1") ∷ went_offline (codes "p1") ∷ [])
      (came_online (codes "p2") ∷ []) interrupted 0 refl refl (omega arith)
