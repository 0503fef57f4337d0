-- ===== src/LoggingFile/Tests.antt =====
-- util.go: calls of a file that answers nothing but ENOSYS, logged.
use adbfs.Base.{ℕ, ◌≡◌, refl, List, [], ◌∷◌, ◌++◌, codes, pos}
use adbfs.WrappingFile.{File, FileCall, flush_of, release_of, chmod_of}
use adbfs.LoggingFile.{
  Printing, Around, some_bytes, other_value, read_result, format_args_list_for_log,
}

abbrev printing : Printing
printing = record {
  number = λ n. codes "3";
  quoted = λ s. codes "\"" ++ s ++ codes "\"";
  sprintf = λ s. s;
}

abbrev surroundings : Around
surroundings = record {
  pid = 7;
  errno_text = λ n. codes "function not implemented";
  args = λ method. [];
  results = λ method status. [];
  elapsed = λ n. pos 1500000;
}

abbrev unsupported : File ℕ
unsupported = record {
  set_inode = λ w. w;
  read = λ n off w. (([], 38), w);
  write = λ s off w. ((0, 38), w);
  flush = λ w. (0, w);
  release = λ w. w;
  fsync = λ flags w. (38, w);
  truncate = λ size w. (38, w);
  get_attr = λ w. ((record { mode = 0; size = 0; mtime = 0 }, 38), w);
  chown = λ uid gid w. (38, w);
  chmod = λ perms w. (38, w);
  utimens = λ a m w. (38, w);
  allocate = λ off size mode w. (38, w);
}

abbrev calls : List FileCall
calls = chmod_of 0o644 ∷ flush_of ∷ release_of ∷ []

-- Bytes and read results are told by their sizes.
formatted :
    format_args_list_for_log printing
      (some_bytes (codes "abc") ∷ other_value (codes "1") ∷ read_result 3 ∷ [])
    ≡ codes "[\"[]byte(3)\", 1, \"fuse.ReadResult(3)\"]"
unfolding format_args_list_for_log
formatted = refl
