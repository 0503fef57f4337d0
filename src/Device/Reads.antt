-- ===== src/Device/Reads.antt =====
-- What the program relies on of the calls of `DeviceClient` (device_client.go) that only read, for
-- whatever is seen of the device: they do not change it.
use adbfs.Base.{ℕ, ◌≡◌, List, Text, codes}
use adbfs.Device.{DeviceClient}

pub record Reads {W A : Type 0} (d : DeviceClient W) (view : W → A) : Type 0 where
  pub keep_stat : (p : Text) (w : W) → view (d.stat p w).1 ≡ view w
  pub keep_list_dir_entries : (p : Text) (w : W) → view (d.list_dir_entries p w).1 ≡ view w
  pub keep_open_read : (p : Text) (w : W) → view (d.open_read p w).1 ≡ view w
  pub keep_read_all : (h : ℕ) (w : W) → view (d.read_all h w).1 ≡ view w
  pub keep_close_reader : (h : ℕ) (w : W) → view (d.close_reader h w) ≡ view w
  pub keep_readlink :
      (args : List Text) (w : W) → view (d.run_command (codes "readlink") args w).1 ≡ view w
  pub keep_stat_command :
      (args : List Text) (w : W) → view (d.run_command (codes "stat") args w).1 ≡ view w
