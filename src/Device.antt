-- ===== src/Device.antt =====
-- device_client.go: the interface `DeviceClient`, over whatever state the device and its connections
-- are in. The handles of streams are numbers. A log entry is passed along by the source and read by
-- no implementation's result, so it is left out; so is the modification time, always that of closing.
pub mod Store
pub mod Failures
pub mod Reads
pub mod Ram
use adbfs.Base.{ℕ, ℤ, Bool, Text, List, Option}
use adbfs.Errors.{Error, Result}

-- `adb.DirEntry`: the fields that the program reads.
pub record DirEntry : Type 0 where
  pub name : Text
  pub mode : ℕ
  pub size : ℤ
  pub modified_at : ℕ

-- What `ioutil.ReadAll` makes of a stream: the bytes, the rest of the array that they stand in, and
-- the error that ended the stream early.
pub record ReadAll : Type 0 where
  pub bytes : List ℕ
  pub spare : List ℕ
  pub failure : Option Error

pub record WriteResult : Type 0 where
  pub n : ℕ
  pub failure : Option Error

pub record DeviceClient (W : Type 0) : Type 0 where
  pub open_read : Text → W → Result ℕ × W
  pub read_all : ℕ → W → ReadAll × W
  pub close_reader : ℕ → W → W
  pub open_write : Text → ℕ → W → Result ℕ × W
  pub write : ℕ → List ℕ → W → WriteResult × W
  pub close_writer : ℕ → W → Option Error × W
  pub stat : Text → W → Result DirEntry × W
  pub list_dir_entries : Text → W → Result (List DirEntry) × W
  pub run_command : Text → List Text → W → Result Text × W
