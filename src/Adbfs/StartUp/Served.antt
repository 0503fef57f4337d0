-- ===== src/Adbfs/StartUp/Served.antt =====
-- cmd/adbfs/main.go, `main` up to its loop: what is served, and where.
use adbfs.Base.{
  ◌≡◌, refl, sym, ap, ◌∙◌, subst, Bool, true, false, if◌then◌else◌, List, [], ◌∷◌, Text, Option,
  none, some, Bool-cases, inl, inr,
}
use adbfs.Errors.{ErrUtil, Result, ok, err}
use adbfs.Device.{DeviceClient}
use adbfs.Device.Reads.{Reads}
use adbfs.OpenFiles.Clean.{AllClean}
use adbfs.Cli.Flags.{AdbfsConfig}
use adbfs.AdbFileSystem.{AdbFileSystem, new_adb_file_system}
use adbfs.AdbFileSystem.Mounted.{Makes, new_adb_file_system-Makes}
use adbfs.AdbFileSystem.Session.{Session, Event, serve_events}
use adbfs.AdbFileSystem.Unwritten.{serve_events-IsReadOnly}
use adbfs.Adbfs.StartServer.{Started, ready, unknown_error, timed_out}
use adbfs.Adbfs.StartUp.{
  Surroundings, StartUp, fatal, no_server, no_valid_mountpoint, serving, abs, is_directory,
  file_system_config, after_start_server, after_file_system, at_mountpoint, given_mountpoint,
  with_serial, start_up,
}

abbrev pub is_ready : Started → Bool
is_ready ready = true
is_ready unknown_error = false
is_ready timed_out = false

abbrev pub is_given : Text → Bool
is_given [] = false
is_given (c ∷ s) = true

-- What holds of the program where it gets to serve the filesystem.
pub record IsServed {W A : Type 0} (view : W → A) (e : Surroundings) (config : AdbfsConfig)
    (w w' : W) (at : Text) (fs : AdbFileSystem) : Type 0 where
  pub serial : is_given config.device_serial ≡ true
  pub absolute : abs e.working_directory config.mountpoint ≡ some at
  pub valid : is_directory (e.stat at) ≡ true
  pub started : is_ready e.start_server ≡ true
  pub mountpoint : fs.config.mountpoint ≡ at
  pub read_only : fs.config.read_only ≡ config.base.read_only
  pub clean : AllClean fs.open_files
  pub unseen : view w' ≡ view w

module _ {W A : Type 0} (u : ErrUtil) (d : DeviceClient W) (view : W → A) (reads : Reads d view)
    (e : Surroundings) (config : AdbfsConfig) (w : W) where
  abbrev Starts : StartUp × W → Type 0
  Starts (fatal x, w') = view w' ≡ view w
  Starts (serving at fs, w') = IsServed view e config w w' at fs

  if-Starts :
      (b : Bool) (x y : StartUp × W)
      → (b ≡ true → Starts x)
      → Starts y
      → Starts (if b then x else y)
  if-Starts true x y f g = f refl
  if-Starts false x y f g = g

  module _ (serial : is_given config.device_serial ≡ true) (at : Text)
      (absolute : abs e.working_directory config.mountpoint ≡ some at)
      (valid : is_directory (e.stat at) ≡ true) where
    after_start_server-Starts :
        (fs : AdbFileSystem) (w' : W) (s : Started)
        → s ≡ e.start_server
        → Makes u d view reads (file_system_config config at) w (ok fs, w')
        → Starts (after_start_server at fs s, w')
    after_start_server-Starts fs w' ready same m = record {
      serial = serial;
      absolute = absolute;
      valid = valid;
      started = rw (sym same) refl;
      mountpoint = m.mountpoint;
      read_only = m.read_only;
      clean = m.clean;
      unseen = m.unseen;
    }
    after_start_server-Starts fs w' unknown_error same m = m.unseen
    after_start_server-Starts fs w' timed_out same m = m.unseen

    after_file_system-Starts :
        (r : Result AdbFileSystem × W)
        → Makes u d view reads (file_system_config config at) w r
        → Starts (after_file_system u d e config at r)
    after_file_system-Starts (err x, w') m = m
    after_file_system-Starts (ok fs, w') m = elim (Bool-cases (e.mount_root at)) [
      | inl mounts ↦ rw mounts (after_start_server-Starts fs w' e.start_server refl m)
      | inr fails ↦ rw fails m.unseen
    ]

  at_mountpoint-Starts :
      (serial : is_given config.device_serial ≡ true) (o : Option Text)
      → abs e.working_directory config.mountpoint ≡ o
      → Starts (at_mountpoint u d e config o w)
  at_mountpoint-Starts serial none same = refl
  at_mountpoint-Starts serial (some at) same =
      if-Starts (is_directory (e.stat at)) _ (fatal no_valid_mountpoint, w)
        (λ valid.
          if-Starts e.new_server _ (fatal no_server, w)
            (λ _.
              after_file_system-Starts serial at same valid
                (new_adb_file_system u d (file_system_config config at) w)
                (new_adb_file_system-Makes u d view reads (file_system_config config at) w))
            refl)
        refl

  given_mountpoint-Starts :
      (serial : is_given config.device_serial ≡ true) (m : Text)
      → config.mountpoint ≡ m
      → Starts (given_mountpoint u d e config m w)
  given_mountpoint-Starts serial [] same = refl
  given_mountpoint-Starts serial (c ∷ s) same =
      at_mountpoint-Starts serial (abs e.working_directory (c ∷ s))
        (ap (abs e.working_directory) same)

  with_serial-Starts : (s : Text) → config.device_serial ≡ s → Starts (with_serial u d e config s w)
  with_serial-Starts [] same = refl
  with_serial-Starts (c ∷ s) same = given_mountpoint-Starts (rw same refl) config.mountpoint refl

  start_up-Starts : Starts (start_up u d e config w)
  unfolding start_up
  start_up-Starts = with_serial-Starts config.device_serial refl

  -- Where `main` gets to its loop: a serial number was given, the mountpoint's absolute path is a
  -- directory, `startServer` was successful, and what is served is told this path, is read-only
  -- exactly if that was asked for, and has no open file; and up to there nothing that is seen of the
  -- device has changed.
  start_up-IsServed :
      (at : Text) (fs : AdbFileSystem) (w' : W)
      → start_up u d e config w ≡ (serving at fs, w')
      → IsServed view e config w w' at fs
  start_up-IsServed at fs w' s = subst Starts s start_up-Starts

  -- A program that was told to mount read-only and that gets to its loop: no calls of the kernel on
  -- names, `StatFs` included, and on the files that they open, change what was seen of the device
  -- before the program started, whether they come to their end or one of them panics.
  pub start_up-unwritten :
      (at : Text) (fs : AdbFileSystem) (w' : W) (es : List Event)
      → config.base.read_only ≡ true
      → start_up u d e config w ≡ (serving at fs, w')
      → let (t, panicked) = serve_events u d (record { fs = fs; handles = []; world = w' }) es in
        view t.world ≡ view w
  start_up-unwritten at fs w' es asked s =
      let k = start_up-IsServed at fs w' s in
      let began : Session W = record { fs = fs; handles = []; world = w' } in
      let (kept, seen) =
        serve_events-IsReadOnly u d view reads began es
          (record { read_only = k.read_only ∙ asked; clean = k.clean; unwritable = refl }) in
      seen ∙ k.unseen
