-- ===== src/Lib.antt =====
-- adbfs is a FUSE filesystem over an Android device, reached through adb. The kernel's calls reach
-- `AdbFileSystem` (adb_filesystem.go) and, for an open file, `AdbFile` (adb_file.go). Both talk to
-- the device through the interface `DeviceClient` (device_client.go), which caching_device_client.go
-- wraps with a cache of directory listings. All open files of one path share one `FileBuffer`
-- (file_buffer.go), which `OpenFiles` (open_files.go) hands out and counts; it holds the whole file
-- in a `GrowableByteSlice` (internal/util/growable_byte_slice.go) and remembers since when it is
-- dirty (internal/util/dirty_timestamp.go).
--
-- Files of this development:
--   Base               the shared names, lists, bits, signed integers, text and panics
--   GrowableByteSlice  internal/util/growable_byte_slice.go: a slice is its array and the length in
--                      use, so that the bytes past the length, which a reslice shows again, exist
--   DirtyTimestamp     internal/util/dirty_timestamp.go
--   FileOpenFlags      file_open_flags.go, with the flag values of Linux
--   Errors             errors.go, and the error package of goadb as a parameter
--   Device             device_client.go: the interface as a record of functions over a state of the
--                      device; Device/Store and Device/Reads are what the program relies on,
--                      Device/Ram is a device in memory
--   FileBuffer         file_buffer.go
--   AdbFile            adb_file.go: the operations of one open file
--   OpenFiles          open_files.go: buffers shared through pointers, and OpenFiles/Schedule the
--                      steps of open files in any order
--   Paths              convertClientPathToDevicePath of adb_filesystem.go, path.Join and path.Clean
--   Links              readLink and readLinkRecursively of adb_filesystem.go
--   Attributes         util.go, and getAttr of adb_filesystem.go
--   Commands           mkdir, rename, rmdir and unlink of adb_filesystem.go
--   CachingClient      caching_device_client.go and dir_entry_cache.go, over a cache library; what comes
--                      out is a `DeviceClient` again
--   GoadbClient        the client of device_client.go over that of goadb
--   AdbFileSystem      the calls of adb_filesystem.go on names, one step each; AdbFileSystem/Session has
--                      them and the calls on open files in any order
--   Strings            what is used of Go's packages strings, strconv and bufio, on bytes
--   StatFs             StatFs and parseStatfs of adb_filesystem.go
--   ClientPool         the channel of device clients of adb_filesystem.go, as steps of calls
--   Clock              internal/util/clock.go, the clock of the tests
--   LogEntry           log_entry.go: what an entry records and logs, and when its methods panic
--   ErrorReadResult    error_read_result.go
--   LoggingFile        newLoggingFile of util.go, over a wrapping file and log entries
--   WrappingFile       wrapping_file.go, around any file and any callbacks
--   ProcessTracker     internal/cli/process_tracker.go: ProcessTracker/Schedule has the steps of its
--                      goroutines
--   Flow               Go's for and select, with what a break in them leaves
--   Adbfs              cmd/adbfs/main.go and internal/util/atomic_bool.go: the goroutines that unmount
--                      the server, and the loop that watches for the device; Adbfs/StartUp is main up
--                      to its loop, and Adbfs/StartServer has the steps of startServer
--   Automount          cmd/adbfs-automount/main.go: its loop and the mounting of one device;
--                      Automount/Main is what surrounds them, and Automount/Stopping the program
--                      that runs, with the goroutine that kills it
--   Cli                internal/cli: the configuration as arguments (base_config.go, adbfs_config.go,
--                      formatFlag), version.go, mountpoint.go and the automounter's paths (paths.go,
--                      automount_config.go); Cli/Registry has the flags, Cli/Start the set-up of both
--                      programs, and Cli/Handlers is handlers.go
--
-- Operations that hold a mutex are one step: a function from the old state to the new one. The
-- reading of the clock, the device and its errors are arguments. A panic is the value `panic`; it is
-- recovered from nowhere, so it carries no state. Integers that the source computes with 64 or 32
-- bits wrap around (`int64`, `int32`); file sizes and offsets are hypotheses where a theorem needs
-- them in range. Loops have a known number of rounds, as the bytes of a slice or the 65 links that
-- readLinkRecursively may read, and recurse on it. White space is that of ASCII.
--
-- The loops of the programs, which have no bound, run for a number of rounds that is an argument; what
-- is proved of them holds for every number that is large enough, and a loop that is still running
-- after it is the value `looping`. Goroutines are step relations, where a step is what lies between
-- two points at which another may run; `Run` is any sequence of steps.
--
-- goadb's `WrapErrf` wraps errors of goadb's only and panics at another one. That panic is not
-- modelled: nothing is assumed of what `wrap_err` makes of such an error. A theorem for which that
-- matters asks that the device fails with goadb's errors (`FailsAsGoadb`); any other one is meant
-- for a device that does. readLinkRecursively also wraps errors of its own, which are not goadb's.
--
-- Not modelled: the printing of log entries and the message texts of errors; the failure of memory
-- allocation, but not the panic of `make` at a capacity that has wrapped around; the texts of the
-- help, the format of the log and the debug server, which are calls of libraries;
-- internal/cli/eventlog.go, which passes each message on to two of them; goadb, go-fuse, kingpin,
-- logrus and the cache library, which stand behind parameters.
pub mod Base
pub mod GrowableByteSlice
pub mod FileOpenFlags
pub mod Errors
pub mod Device
pub mod DirtyTimestamp
pub mod Clock
pub mod FileBuffer
pub mod AdbFile
pub mod OpenFiles
pub mod Paths
pub mod Links
pub mod Attributes
pub mod Commands
pub mod AdbFileSystem
pub mod CachingClient
pub mod GoadbClient
pub mod Strings
pub mod StatFs
pub mod ClientPool
pub mod ProcessTracker
pub mod Flow
pub mod Adbfs
pub mod Cli
pub mod Automount
pub mod LogEntry
pub mod LoggingFile
pub mod WrappingFile
pub mod ErrorReadResult
