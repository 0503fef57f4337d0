-- ===== src/WrappingFile/Tests.antt =====
-- A file that counts its calls, wrapped by callbacks that keep a log.
use adbfs.Base.{ℕ, suc, ◌≡◌, refl, List, [], ◌∷◌, Text, codes, pos, Option, none, some}
use adbfs.WrappingFile.{
  File, Callbacks, wrapping_file, FileCall, flush_of, write_of, release_of, nothing, code,
  count_written, call_file, call_all,
}

abbrev counting : File ℕ
counting = record {
  set_inode = λ w. suc w;
  read = λ n off w. (([], 0), suc w);
  write = λ s off w. ((0, 1), suc w);
  flush = λ w. (0, suc w);
  release = λ w. suc w;
  fsync = λ flags w. (0, suc w);
  truncate = λ size w. (0, suc w);
  get_attr = λ w. ((record { mode = 0; size = 0; mtime = 0 }, 0), suc w);
  chown = λ uid gid w. (38, suc w);
  chmod = λ perms w. (38, suc w);
  utimens = λ a m w. (38, suc w);
  allocate = λ off size mode w. (38, suc w);
}

-- The methods, each with the status of its reply, the last call first.
abbrev logging : Callbacks (List (Text × Option ℕ)) Text
logging = record {
  before_call = λ method l. (method, l);
  after_call = λ method status l. (method, status) ∷ l;
}

abbrev calls : List FileCall
calls = write_of (codes "x") (pos 0) ∷ flush_of ∷ release_of ∷ []

logged : call_all (wrapping_file logging counting) calls ([], 0) ≡ (
  count_written 0 1 ∷ code 0 ∷ nothing ∷ [],
  ((codes "Release", none) ∷ (codes "Flush", some 0) ∷ (codes "Write", some 1) ∷ [], 3),
)
unfolding call_all call_file
logged = refl
