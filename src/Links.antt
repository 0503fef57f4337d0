-- ===== src/Links.antt =====
-- Symbolic links of adb_filesystem.go: `readLink` and `readLinkRecursively`.
pub mod Chains
pub mod Untouched
mod Tests
use adbfs.Base.{
  ℕ, zero, suc, ◌+◌, Bool, true, false, if◌then◌else◌, ◌==◌, List, [], ◌∷◌, Text, text_eq, codes,
  bit_and, take, length, ◌-◌,
}
use adbfs.Errors.{Error, Result, ok, err, ErrUtil, link_too_deep, not_a_link, no_permission}
use adbfs.Device.{DeviceClient, DirEntry}

abbrev pub max_link_resolve_depth : ℕ
max_link_resolve_depth = 64

-- `os.ModeSymlink`.
abbrev pub mode_symlink : ℕ
mode_symlink = 0x8000000

abbrev pub is_symlink : DirEntry → Bool
is_symlink e = bit_and e.mode mode_symlink == mode_symlink

abbrev pub readlink_invalid_argument : Text
readlink_invalid_argument = codes "readlink: Invalid argument"

abbrev pub readlink_permission_denied : Text
readlink_permission_denied = codes "readlink: Permission denied"

-- `strings.TrimSuffix(s, "\r\n")`.
unfoldable pub trim_line_end : Text → Text
trim_line_end [] = []
trim_line_end (c ∷ s) =
    let rest = trim_line_end s in if text_eq (c ∷ s) (13 ∷ 10 ∷ []) then [] else c ∷ rest

abbrev link_target : Text → Result Text
link_target t =
    if text_eq t readlink_invalid_argument
    then err not_a_link
    else if text_eq t readlink_permission_denied
    then err no_permission
    else ok t

abbrev link_result : Result Text → Result Text
link_result (err e) = err e
link_result (ok s) = link_target (trim_line_end s)

module _ {W : Type 0} (u : ErrUtil) (d : DeviceClient W) where
  unfoldable pub read_link : Text → W → Result Text × W
  read_link path w =
      let (r, w') = d.run_command (codes "readlink") (path ∷ []) w in (link_result r, w')

  -- The rest of the loop's body, before the next round.
  after_stat :
      (Text → DirEntry → W → Result (Text × DirEntry) × W)
      → Text
      → Result DirEntry × W
      → Result (Text × DirEntry) × W
  after_stat again target (err e, w) = (err (u.wrap_err e), w)
  after_stat again target (ok entry, w) = again target entry w

  after_link :
      (Text → DirEntry → W → Result (Text × DirEntry) × W)
      → Result Text × W
      → Result (Text × DirEntry) × W
  unfolding after_stat
  after_link again (err e, w) = (err (u.wrap_err e), w)
  after_link again (ok target, w) = after_stat again target (d.stat target w)

  -- The loop, where so many more links may be read until `currentDepth` is past the limit.
  pub follow : ℕ → Text → DirEntry → W → Result (Text × DirEntry) × W
  unfolding after_link
  follow zero path entry w =
      if is_symlink entry then (err link_too_deep, w) else (ok (path, entry), w)
  follow (suc left) path entry w =
      if is_symlink entry
      then after_link (follow left) (read_link path w)
      else (ok (path, entry), w)

  started : Text → Result DirEntry × W → Result (Text × DirEntry) × W
  started path (err e, w) = (err e, w)
  started path (ok entry, w) = follow (max_link_resolve_depth + 1) path entry w

  pub read_link_recursively : Text → W → Result (Text × DirEntry) × W
  unfolding started
  read_link_recursively path w = started path (d.stat path w)
