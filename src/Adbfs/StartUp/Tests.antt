-- ===== src/Adbfs/StartUp/Tests.antt =====
-- cmd/adbfs/main.go: the program started for a device in memory.
use adbfs.Base.{
  ℕ, ◌≡◌, refl, true, false, if◌then◌else◌, List, [], ◌∷◌, Text, text_eq, codes, Option, none, some,
  pos,
}
use adbfs.Device.Ram.{Ram, ram, open_file, ram_errors}
use adbfs.Device.Reads.{Reads}
use adbfs.FileOpenFlags.{o_rdonly}
use adbfs.OpenFiles.{new_open_files}
use adbfs.Paths.{clean, clean_segments, clean_segment, split, join_segments, path_join}
use adbfs.Cli.Flags.{AdbfsConfig}
use adbfs.Cli.MountRoot.{directory, no_directory}
use adbfs.AdbFileSystem.{AdbFileSystem, open_file_at, unlink_name, new_adb_file_system}
use adbfs.AdbFileSystem.Session.{Event, on_name, on_file, stat_fs_of, write_op, serve_events}
use adbfs.Adbfs.StartServer.{ready}
use adbfs.Adbfs.StartUp.{Surroundings, serving, start_up}
use adbfs.Adbfs.StartUp.Served.{start_up-unwritten}

abbrev disk : Ram
disk = record {
  files = λ q. if text_eq q (codes "/a") then some (codes "hi") else none;
  writing = none;
  reading = [];
}

abbrev mnt : Text
mnt = codes "/mnt/x"

abbrev surroundings : Surroundings
surroundings = record {
  working_directory = some (codes "/mnt");
  stat = λ q. if text_eq q (codes "/mnt/x") then directory else no_directory;
  new_server = true;
  mount_root = λ q. true;
  start_server = ready;
}

abbrev config : AdbfsConfig
config = record {
  base = record {
    adb_port = pos 5037;
    connection_pool_size = pos 2;
    log_level = codes "info";
    verbose = false;
    cache_ttl = pos 300000000;
    serve_debug = false;
    device_root = codes "/";
    read_only = true;
    path_to_adb = [];
  };
  device_serial = codes "phone";
  mountpoint = codes "x";
}

abbrev served : AdbFileSystem
served = record {
  config = record { mountpoint = mnt; device_root = []; read_only = true };
  open_files = new_open_files 0;
}

open_files : (o : Option (List ℕ)) (w : Ram) → (open_file w o).1.files ≡ w.files
open_files none w = refl
open_files (some xs) w = refl

ram-Reads : Reads ram (λ w. w.files)
ram-Reads = record {
  keep_stat = λ p w. refl;
  keep_list_dir_entries = λ p w. refl;
  keep_open_read = λ p w. open_files (w.files p) w;
  keep_read_all = λ h w. refl;
  keep_close_reader = λ h w. refl;
  keep_readlink = λ args w. refl;
  keep_stat_command = λ args w. refl;
}

started : start_up ram_errors ram surroundings config disk ≡ (serving mnt served, disk)
unfolding start_up new_adb_file_system clean clean_segments clean_segment split join_segments
    path_join text_eq
started = refl

abbrev events : List Event
events =
    on_name (open_file_at (codes "a") o_rdonly 5)
    ∷ on_file 0 (write_op (codes "x") (pos 0) 6 7)
    ∷ stat_fs_of (codes "a")
    ∷ on_name (unlink_name (codes "a"))
    ∷ []

start_up-unwritten_example :
    let (t, panicked) =
      serve_events ram_errors ram (record { fs = served; handles = []; world = disk }) events in
    t.world.files ≡ disk.files
start_up-unwritten_example =
    start_up-unwritten ram_errors ram (λ w. w.files) ram-Reads surroundings config disk mnt served
      disk events refl started
