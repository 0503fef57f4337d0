-- ===== src/Attributes/Modes.antt =====
-- util.go, `osFileModeToFuseFileMode`: which type and permissions come out.
use adbfs.Base.{
  ℕ, zero, suc, ◌+◌, ◌≡◌, ◌<◌, ◌⊎◌, inl, inr, Bool, true, ◌&&◌, ◌==◌, ==_iff, arith, refl, ◌∙◌,
}
use adbfs.Links.{mode_symlink}
use adbfs.Attributes.{
  os_file_mode_to_fuse_file_mode, mode_dir, mode_named_pipe, mode_socket, mode_device, s_ifreg,
  s_ifdir, s_iflnk, s_ififo,
}

all_below : ℕ → (ℕ → Bool) → Bool
all_below zero p = true
all_below (suc n) p = p n && all_below n p

all_below_lem : (n i : ℕ) (p : ℕ → Bool) → all_below n p ≡ true → i < n → p i ≡ true
unfolding all_below
all_below_lem zero i p h k = absurd (omega arith)
all_below_lem (suc n) i p h k = elim (last_or n i k) [
  | inl e ↦ rw e (ground (arith, h))
  | inr below ↦ all_below_lem n i p (ground (arith, h)) below
]
  where
    last_or : (n i : ℕ) → i < suc n → (i ≡ n) ⊎ (i < n)
    last_or n i h = ground arith

converts : ℕ → ℕ → ℕ → Bool
converts os fuse p = os_file_mode_to_fuse_file_mode (os + p) == fuse + p

converts_all : ℕ → ℕ → Bool
converts_all os fuse = all_below 512 (converts os fuse)

converts_lem :
    (os fuse p : ℕ)
    → converts_all os fuse ≡ true
    → p < 512
    → os_file_mode_to_fuse_file_mode (os + p) ≡ fuse + p
unfolding converts_all converts
converts_lem os fuse p h k = (==_iff _ _).0 (all_below_lem 512 p (converts os fuse) h k)

zero_add : (n : ℕ) → 0 + n ≡ n
zero_add n = omega arith

-- An entry with permissions below 0o1000 keeps them; a regular file, a directory, a symbolic link and
-- a named pipe get the type bits of FUSE, and sockets and devices none.
pub os_file_mode_to_fuse_file_mode_lem :
    (p : ℕ)
    → p < 0o1000
    → (os_file_mode_to_fuse_file_mode p ≡ s_ifreg + p)
      × (os_file_mode_to_fuse_file_mode (mode_dir + p) ≡ s_ifdir + p)
      × (os_file_mode_to_fuse_file_mode (mode_symlink + p) ≡ s_iflnk + p)
      × (os_file_mode_to_fuse_file_mode (mode_named_pipe + p) ≡ s_ififo + p)
      × (os_file_mode_to_fuse_file_mode (mode_socket + p) ≡ p)
      × (os_file_mode_to_fuse_file_mode (mode_device + p) ≡ p)
unfolding converts_all all_below converts os_file_mode_to_fuse_file_mode
os_file_mode_to_fuse_file_mode_lem p h = (
  rw (zero_add p) at (converts_lem 0 s_ifreg p refl h),
  converts_lem mode_dir s_ifdir p refl h,
  converts_lem mode_symlink s_iflnk p refl h,
  converts_lem mode_named_pipe s_ififo p refl h,
  converts_lem mode_socket 0 p refl h ∙ zero_add p,
  converts_lem mode_device 0 p refl h ∙ zero_add p,
)
