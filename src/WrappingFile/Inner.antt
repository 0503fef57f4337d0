-- ===== src/WrappingFile/Inner.antt =====
-- wrapping_file.go: a wrapped file answers as the file in it.
use adbfs.Base.{ℕ, ◌≡◌, refl, List, [], ◌∷◌, Text, codes, Option, none, some}
use adbfs.WrappingFile.{
  File, Callbacks, wrapping_file, FileCall, set_inode_of, flush_of, release_of, get_attr_of,
  read_of, write_of, fsync_of, truncate_of, chown_of, chmod_of, utimens_of, allocate_of, FileReply,
  nothing, code, bytes_read, count_written, attributes, call_file, call_all,
}

-- A call's method and the status of its reply.
abbrev pub method : FileCall → Text
method set_inode_of = codes "SetInode"
method release_of = codes "Release"
method flush_of = codes "Flush"
method get_attr_of = codes "GetAttr"
method (read_of n off) = codes "Read"
method (write_of s off) = codes "Write"
method (fsync_of flags) = codes "Fsync"
method (truncate_of size) = codes "Truncate"
method (chown_of uid gid) = codes "Chown"
method (chmod_of perms) = codes "Chmod"
method (utimens_of a m) = codes "Utimens"
method (allocate_of off size mode) = codes "Allocate"

abbrev pub status_of : FileReply → Option ℕ
status_of nothing = none
status_of (code n) = some n
status_of (bytes_read s n) = some n
status_of (count_written k n) = some n
status_of (attributes a n) = some n

module _ {W L C : Type 0} (callbacks : Callbacks L C) (f : File W) where
  -- What the callbacks make of their state from the calls and the replies of the file.
  abbrev pub called_back : List FileCall → List FileReply → L → L
  called_back [] rs l = l
  called_back (c ∷ cs) [] l = l
  called_back (c ∷ cs) (r ∷ rs) l =
      let (x, l1) = callbacks.before_call (method c) l in
      called_back cs rs (callbacks.after_call x (status_of r) l1)

  call_file-wrapping_file :
      (c : FileCall) (l : L) (w : W)
      → call_file (wrapping_file callbacks f) c (l, w) ≡ (
          let (r, w1) = call_file f c w in
          let (x, l1) = callbacks.before_call (method c) l in
          (r, (callbacks.after_call x (status_of r) l1, w1)))
  unfolding call_file
  call_file-wrapping_file set_inode_of l w = refl
  call_file-wrapping_file release_of l w = refl
  call_file-wrapping_file flush_of l w = refl
  call_file-wrapping_file get_attr_of l w = refl
  call_file-wrapping_file (read_of n off) l w = refl
  call_file-wrapping_file (write_of s off) l w = refl
  call_file-wrapping_file (fsync_of flags) l w = refl
  call_file-wrapping_file (truncate_of size) l w = refl
  call_file-wrapping_file (chown_of uid gid) l w = refl
  call_file-wrapping_file (chmod_of perms) l w = refl
  call_file-wrapping_file (utimens_of a m) l w = refl
  call_file-wrapping_file (allocate_of off size mode) l w = refl

  -- Any calls of a wrapped file answer as they would on the file in it, and leave that in the same
  -- state. The callbacks are called before and after each of them, in order, with its method and
  -- the status that it answered with.
  pub call_all-wrapping_file :
      (cs : List FileCall) (l : L) (w : W)
      → call_all (wrapping_file callbacks f) cs (l, w)
        ≡ (let (rs, w') = call_all f cs w in (rs, (called_back cs rs l, w')))
  unfolding call_all
  call_all-wrapping_file [] l w = refl
  call_all-wrapping_file (c ∷ cs) l w =
      let (r, w1) = call_file f c w in
      let (x, l1) = callbacks.before_call (method c) l in
      let rest = call_all-wrapping_file cs (callbacks.after_call x (status_of r) l1) w1 in
      rw (call_file-wrapping_file c l w, rest) refl
