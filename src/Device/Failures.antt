-- ===== src/Device/Failures.antt =====
-- What goadb documents of the failures of its client: its errors are its own, and a write that reports
-- none has written everything, as io.Writer asks for.
use adbfs.Base.{ℕ, ◌≡◌, List, length, none, some, Text}
use adbfs.Errors.{Error, foreign, err}
use adbfs.Device.{DeviceClient}

abbrev pub IsForeign : Error → Type 0
IsForeign e = (n : ℕ) × (e ≡ foreign n)

pub record FailsAsGoadb {W : Type 0} (d : DeviceClient W) : Type 0 where
  pub open_read_fails : (p : Text) (w : W) (e : Error) → (d.open_read p w).0 ≡ err e → IsForeign e
  pub read_all_fails :
      (h : ℕ) (w : W) (e : Error) → (d.read_all h w).0.failure ≡ some e → IsForeign e
  pub open_write_fails :
      (p : Text) (perms : ℕ) (w : W) (e : Error) → (d.open_write p perms w).0 ≡ err e → IsForeign e
  pub write_fails :
      (h : ℕ) (bytes : List ℕ) (w : W) (e : Error)
      → (d.write h bytes w).0.failure ≡ some e
      → IsForeign e
  pub close_writer_fails :
      (h : ℕ) (w : W) (e : Error) → (d.close_writer h w).0 ≡ some e → IsForeign e
  pub writes_all :
      (h : ℕ) (bytes : List ℕ) (w : W)
      → (d.write h bytes w).0.failure ≡ none
      → (d.write h bytes w).0.n ≡ length bytes
