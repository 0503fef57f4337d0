-- ===== src/AdbFileSystem/Tests.antt =====
-- Calls at a device in memory.
use adbfs.Base.{
  ◌≡◌, refl, true, some, none, if◌then◌else◌, List, [], ◌∷◌, Text, text_eq, codes, pos,
}
use adbfs.Errors.{eperm}
use adbfs.Device.Ram.{Ram, ram, ram_errors, ram_errors-IsErrUtil}
use adbfs.FileOpenFlags.{o_rdonly, o_wronly}
use adbfs.OpenFiles.{new_open_files}
use adbfs.AdbFileSystem.{
  AdbFileSystem, Call, get_attr_of, make_dir, create_file_at, open_file_at, unlink_name, nothing,
  serve,
}
use adbfs.AdbFileSystem.Answers.{serve_refused}
use adbfs.AdbFileSystem.Session.{
  Session, Event, on_name, on_file, read_op, write_op, get_attr_op, fsync_op, release_op,
}

abbrev path : Text
path = codes "/a"

abbrev disk : Ram
disk = record {
  files = λ q. if text_eq path q then some (codes "hi") else none;
  writing = none;
  reading = [];
}

abbrev read_only_mount : AdbFileSystem
read_only_mount = record {
  config = record { mountpoint = codes "/mnt"; device_root = []; read_only = true };
  open_files = new_open_files 0;
}

abbrev calls : List Call
calls =
    make_dir (codes "d")
    ∷ open_file_at (codes "a") o_rdonly 5
    ∷ create_file_at (codes "b") o_wronly 0o644 6
    ∷ unlink_name (codes "a")
    ∷ get_attr_of (codes "a")
    ∷ []

abbrev read_only_session : Session Ram
read_only_session = record { fs = read_only_mount; handles = []; world = disk }

abbrev events : List Event
events =
    on_name (open_file_at (codes "a") o_rdonly 5)
    ∷ on_file 0 (read_op (0 ∷ 0 ∷ []) (pos 0))
    ∷ on_file 0 (write_op (codes "x") (pos 0) 6 7)
    ∷ on_file 0 get_attr_op
    ∷ on_file 0 fsync_op
    ∷ on_file 0 release_op
    ∷ []

serve_refused_example :
    serve ram_errors ram read_only_mount (create_file_at (codes "b") o_rdonly 0o644 6) disk
    ≡ record { status = eperm; value = nothing; fs = read_only_mount; world = disk }
serve_refused_example =
    serve_refused ram_errors ram read_only_mount (create_file_at (codes "b") o_rdonly 0o644 6) disk
      ram_errors-IsErrUtil refl refl
