-- ===== src/Device/Store.antt =====
-- What the program relies on of a device behind `DeviceClient` (device_client.go): files as lists of
-- bytes, a write that takes effect when its stream is closed, and a read of what is stored.
use adbfs.Base.{ℕ, ◌≡◌, Option, none, some, List, [], ◌++◌, length, Text}
use adbfs.Errors.{ok}
use adbfs.Device.{DeviceClient}

pub record Store {W : Type 0} (d : DeviceClient W) : Type 0 where
  -- The bytes of the file at a path, and the path and the bytes of a stream that is open to write.
  pub files : W → Text → Option (List ℕ)
  pub pending : W → ℕ → Option (Text × List ℕ)
  pub open_write_pending :
      (p : Text) (perms h : ℕ) (w v : W)
      → d.open_write p perms w ≡ (ok h, v)
      → pending v h ≡ some (p, [])
  pub write_pending :
      (h : ℕ) (p : Text) (xs bytes : List ℕ) (w : W)
      → pending w h ≡ some (p, xs)
      → (d.write h bytes w).0.failure ≡ none
      → (d.write h bytes w).0.n ≡ length bytes
      → pending (d.write h bytes w).1 h ≡ some (p, xs ++ bytes)
  pub close_files :
      (h : ℕ) (p : Text) (xs : List ℕ) (w : W)
      → pending w h ≡ some (p, xs)
      → (d.close_writer h w).0 ≡ none
      → files (d.close_writer h w).1 p ≡ some xs
  pub close_pending : (h : ℕ) (w : W) → pending (d.close_writer h w).1 h ≡ none
  pub close_again : (h : ℕ) (w : W) → pending w h ≡ none → files (d.close_writer h w).1 ≡ files w
  pub read_files :
      (p : Text) (h : ℕ) (w v : W)
      → d.open_read p w ≡ (ok h, v)
      → (d.read_all h v).0.failure ≡ none
      → files w p ≡ some (d.read_all h v).0.bytes
