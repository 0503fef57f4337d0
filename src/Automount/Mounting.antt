-- ===== src/Automount/Mounting.antt =====
-- cmd/adbfs-automount/main.go, `mountDevice` and `NewMountProcess`.
use adbfs.Base.{◌≡◌, refl, if◌then◌else◌, [], ◌∷◌, ◌++◌, Text, some, ℤ, Bool-cases, inl, inr}
use adbfs.Cli.Flags.{Formats, BaseConfig, AdbfsConfig}
use adbfs.Automount.{
  created, removed, launched, fired_on_mount, fired_on_unmount, waited, Outcomes, mount_device,
  new_mount_process, command_line,
}

abbrev pub with_port : AdbfsConfig → ℤ → AdbfsConfig
with_port c port = record c { base = record c.base { adb_port = port } }

-- The port that adbfs-automount was told to use does not reach the programs that it starts: their
-- command lines are the same for any port, since the first argument, which is the port's, stands
-- where the program's name belongs.
command_line-with_port :
    (formats : Formats) (path : Text) (config : AdbfsConfig) (port : ℤ)
    → command_line (new_mount_process formats path (with_port config port))
      ≡ command_line (new_mount_process formats path config)
command_line-with_port formats path config port = refl

module _ (formats : Formats) (path : Text) (config : BaseConfig)
    (serial model mountpoint : Text) where
  -- Where the device's model is found and the mountpoint is made: the mountpoint is removed at the
  -- end, whether the program started or not; the handlers of both kinds are fired exactly if it
  -- started, those for the unmounting after the wait for the program and before the mountpoint is
  -- removed.
  pub mount_device_lem :
      (o : Outcomes)
      → o.model ≡ some model
      → o.new_mountpoint ≡ some mountpoint
      → mount_device formats path config serial o
        ≡ (created mountpoint
            ∷ launched (
                new_mount_process formats path
                  (record { base = config; device_serial = serial; mountpoint = mountpoint }))
            ∷ (if o.starts
                then fired_on_mount mountpoint serial model
                  ∷ waited
                  ∷ fired_on_unmount mountpoint serial model
                  ∷ []
                else []))
          ++ removed mountpoint ∷ []
  unfolding mount_device
  mount_device_lem o e f = elim (Bool-cases o.starts) [
    | inl starts ↦ rw (e, f, starts) refl
    | inr fails ↦ rw (e, f, fails) refl
  ]
