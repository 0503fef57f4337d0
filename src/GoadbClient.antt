-- ===== src/GoadbClient.antt =====
-- device_client.go, `goadbDeviceClient`: goadb's client, with a handler that is called when an
-- operation reports that the device is gone.
use adbfs.Base.{ℕ, if◌then◌else◌, List, Text, Option, none, some}
use adbfs.Errors.{Error, Result, ok, err, ErrUtil, device_not_found}
use adbfs.Device.{DeviceClient, DirEntry, ReadAll, WriteResult}

-- goadb's `adb.DeviceClient`; a listing is a stream of entries.
pub record AdbClient (W : Type 0) : Type 0 where
  pub open_read : Text → W → Result ℕ × W
  pub read_all : ℕ → W → ReadAll × W
  pub close_reader : ℕ → W → W
  pub open_write : Text → ℕ → W → Result ℕ × W
  pub write : ℕ → List ℕ → W → WriteResult × W
  pub close_writer : ℕ → W → Option Error × W
  pub stat : Text → W → Result DirEntry × W
  pub list_dir_entries : Text → W → Result ℕ × W
  pub read_entries : ℕ → W → Result (List DirEntry) × W
  pub run_command : Text → List Text → W → Result Text × W

module _ {W : Type 0} (u : ErrUtil) (d : AdbClient W) (handler : Option (W → W)) where
  abbrev pub handle_device_not_found : W → W
  handle_device_not_found w = elim handler [ none ↦ w | some f ↦ f w ]

  -- The test of an operation's error, and what follows it.
  abbrev pub after_error : Error → W → W
  after_error e w = if u.has_err_code e device_not_found then handle_device_not_found w else w

  abbrev pub checked : {A : Type 0} → Result A × W → Result A × W
  checked (ok a, w) = (ok a, w)
  checked (err e, w) = (err e, after_error e w)

  abbrev open_read : Text → W → Result ℕ × W
  open_read path w = checked (d.open_read path w)

  -- This one passes goadb's answer on as it is.
  abbrev open_write : Text → ℕ → W → Result ℕ × W
  open_write path mode w = d.open_write path mode w

  abbrev stat : Text → W → Result DirEntry × W
  stat path w = checked (d.stat path w)

  abbrev entries_of : Result ℕ × W → Result (List DirEntry) × W
  entries_of (err e, w) = (err e, w)
  entries_of (ok h, w) = d.read_entries h w

  abbrev list_dir_entries : Text → W → Result (List DirEntry) × W
  list_dir_entries path w = entries_of (checked (d.list_dir_entries path w))

  -- The client; reading, closing and `RunCommand` are goadb's own.
  pub goadb_device_client : DeviceClient W
  goadb_device_client = record {
    open_read = open_read;
    read_all = d.read_all;
    close_reader = d.close_reader;
    open_write = open_write;
    write = d.write;
    close_writer = d.close_writer;
    stat = stat;
    list_dir_entries = list_dir_entries;
    run_command = d.run_command;
  }
