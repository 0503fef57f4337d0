-- ===== src/Links/Untouched.antt =====
-- adb_filesystem.go: following links only reads the device.
use adbfs.Base.{ℕ, zero, suc, ◌+◌, ◌≡◌, refl, ◌∙◌, [], ◌∷◌, Text, Bool-cases, inl, inr}
use adbfs.Errors.{Result, ok, err, ErrUtil}
use adbfs.Device.{DeviceClient, DirEntry}
use adbfs.Device.Reads.{Reads}
use adbfs.Links.{
  is_symlink, read_link, after_stat, after_link, follow, started, read_link_recursively,
  max_link_resolve_depth,
}

module _ {W A : Type 0} (u : ErrUtil) (d : DeviceClient W) (view : W → A)
    (reads : Reads d view) where
  pub read_link-view : (path : Text) (w : W) → view (read_link u d path w).1 ≡ view w
  unfolding read_link
  read_link-view path w = reads.keep_readlink (path ∷ []) w

  after_link-view :
      (again : Text → DirEntry → W → Result (Text × DirEntry) × W) (r : Result Text × W)
      → ((path : Text) (e : DirEntry) (w : W) → view (again path e w).1 ≡ view w)
      → view (after_link u d again r).1 ≡ view r.1
  unfolding after_link after_stat
  after_link-view again (err e, w) kept = refl
  after_link-view again (ok mid, w) kept = after_stat-view (d.stat mid w) ∙ reads.keep_stat mid w
    where
      after_stat-view : (r : Result DirEntry × W) → view (after_stat u d again mid r).1 ≡ view r.1
      after_stat-view (err e, w') = refl
      after_stat-view (ok e, w') = kept mid e w'

  follow-view :
      (left : ℕ) (path : Text) (e : DirEntry) (w : W) → view (follow u d left path e w).1 ≡ view w
  unfolding follow
  follow-view zero path e w = elim (Bool-cases (is_symlink e)) [
    | inl s ↦ rw s refl
    | inr s ↦ rw s refl
  ]
  follow-view (suc left) path e w = elim (Bool-cases (is_symlink e)) [
    | inl s ↦ rw s (
        after_link-view (follow u d left) (read_link u d path w) (follow-view left)
        ∙ read_link-view path w)
    | inr s ↦ rw s refl
  ]

  started-view : (path : Text) (r : Result DirEntry × W) → view (started u d path r).1 ≡ view r.1
  unfolding started
  started-view path (err e, w) = refl
  started-view path (ok e, w) = follow-view (max_link_resolve_depth + 1) path e w

  pub read_link_recursively-view :
      (path : Text) (w : W) → view (read_link_recursively u d path w).1 ≡ view w
  unfolding read_link_recursively
  read_link_recursively-view path w = started-view path (d.stat path w) ∙ reads.keep_stat path w
