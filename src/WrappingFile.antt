-- ===== src/WrappingFile.antt =====
-- wrapping_file.go: a file that calls back before and after every call of another file. What the
-- callbacks are given of the arguments and the results is for printing and left out.
pub mod Inner
mod Tests
use adbfs.Base.{ℕ, List, [], ◌∷◌, Text, codes, ℤ, Option, none, some}
use adbfs.Attributes.{Attr}

-- `nodefs.File`, over the state that its methods work on. A status and what is returned, or written
-- to an argument, beside it.
pub record File (W : Type 0) : Type 0 where
  pub set_inode : W → W
  pub read : ℕ → ℤ → W → (Text × ℕ) × W
  pub write : Text → ℤ → W → (ℕ × ℕ) × W
  pub flush : W → ℕ × W
  pub release : W → W
  pub fsync : ℤ → W → ℕ × W
  pub truncate : ℕ → W → ℕ × W
  pub get_attr : W → (Attr × ℕ) × W
  pub chown : ℕ → ℕ → W → ℕ × W
  pub chmod : ℕ → W → ℕ × W
  pub utimens : Option ℕ → Option ℕ → W → ℕ × W
  pub allocate : ℕ → ℕ → ℕ → W → ℕ × W

-- `BeforeCall` and `AfterCall`, over a state of their own: the first gets the method's name and
-- returns what the second is given again, with the status where there is one. The source passes a
-- pointer to it, through which the program's own callback does not write.
pub record Callbacks (L C : Type 0) : Type 0 where
  pub before_call : Text → L → C × L
  pub after_call : C → Option ℕ → L → L

module _ {W L C : Type 0} (callbacks : Callbacks L C) where
  abbrev around : Text → (W → ℕ × W) → L × W → ℕ × (L × W)
  around method call (l, w) =
      let (c, l1) = callbacks.before_call method l in
      let (code, w1) = call w in (code, (callbacks.after_call c (some code) l1, w1))

  abbrev around_value : {A : Type 0} → Text → (W → (A × ℕ) × W) → L × W → (A × ℕ) × (L × W)
  around_value method call (l, w) =
      let (c, l1) = callbacks.before_call method l in
      let ((a, code), w1) = call w in ((a, code), (callbacks.after_call c (some code) l1, w1))

  abbrev around_nothing : Text → (W → W) → L × W → L × W
  around_nothing method call (l, w) =
      let (c, l1) = callbacks.before_call method l in
      let w1 = call w in (callbacks.after_call c none l1, w1)

  -- `WrappingFile` around a file.
  abbrev pub wrapping_file : File W → File (L × W)
  wrapping_file f = record {
    set_inode = λ s. around_nothing (codes "SetInode") f.set_inode s;
    read = λ n off s. around_value (codes "Read") (f.read n off) s;
    write = λ bytes off s. around_value (codes "Write") (f.write bytes off) s;
    flush = λ s. around (codes "Flush") f.flush s;
    release = λ s. around_nothing (codes "Release") f.release s;
    fsync = λ flags s. around (codes "Fsync") (f.fsync flags) s;
    truncate = λ size s. around (codes "Truncate") (f.truncate size) s;
    get_attr = λ s. around_value (codes "GetAttr") f.get_attr s;
    chown = λ uid gid s. around (codes "Chown") (f.chown uid gid) s;
    chmod = λ perms s. around (codes "Chmod") (f.chmod perms) s;
    utimens = λ atime mtime s. around (codes "Utimens") (f.utimens atime mtime) s;
    allocate = λ off size mode s. around (codes "Allocate") (f.allocate off size mode) s;
  }

-- A call of a file, with its arguments.
pub data FileCall : Type 0 where
  set_inode_of flush_of release_of get_attr_of : FileCall
  read_of : ℕ → ℤ → FileCall
  write_of : Text → ℤ → FileCall
  fsync_of : ℤ → FileCall
  truncate_of : ℕ → FileCall
  chown_of : ℕ → ℕ → FileCall
  chmod_of : ℕ → FileCall
  utimens_of : Option ℕ → Option ℕ → FileCall
  allocate_of : ℕ → ℕ → ℕ → FileCall

-- What a call answers.
pub data FileReply : Type 0 where
  nothing : FileReply
  code : ℕ → FileReply
  bytes_read : Text → ℕ → FileReply
  count_written : ℕ → ℕ → FileReply
  attributes : Attr → ℕ → FileReply

module _ {W : Type 0} (f : File W) where
  unfoldable pub call_file : FileCall → W → FileReply × W
  call_file set_inode_of w = (nothing, f.set_inode w)
  call_file release_of w = (nothing, f.release w)
  call_file flush_of w = let (n, w1) = f.flush w in (code n, w1)
  call_file get_attr_of w = let ((a, n), w1) = f.get_attr w in (attributes a n, w1)
  call_file (read_of n off) w = let ((s, m), w1) = f.read n off w in (bytes_read s m, w1)
  call_file (write_of s off) w = let ((k, m), w1) = f.write s off w in (count_written k m, w1)
  call_file (fsync_of flags) w = let (n, w1) = f.fsync flags w in (code n, w1)
  call_file (truncate_of size) w = let (n, w1) = f.truncate size w in (code n, w1)
  call_file (chown_of uid gid) w = let (n, w1) = f.chown uid gid w in (code n, w1)
  call_file (chmod_of perms) w = let (n, w1) = f.chmod perms w in (code n, w1)
  call_file (utimens_of a m) w = let (n, w1) = f.utimens a m w in (code n, w1)
  call_file (allocate_of off size mode) w = let (n, w1) = f.allocate off size mode w in (code n, w1)

  -- Calls one after another, with their replies.
  unfoldable pub call_all : List FileCall → W → List FileReply × W
  call_all [] w = ([], w)
  call_all (c ∷ cs) w = let (r, w1) = call_file c w in let (rs, w2) = call_all cs w1 in (r ∷ rs, w2)
