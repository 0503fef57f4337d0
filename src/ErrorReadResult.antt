-- ===== src/ErrorReadResult.antt =====
-- error_read_result.go: the result of a read that failed, and `readError`.
mod Tests
use adbfs.Base.{ℕ, List, [], Text, Option}
use adbfs.Errors.{ErrUtil, Error, to_errno}
use adbfs.LogEntry.{LogCall, to_errno_log}

-- `fuse.ReadResult`: what `Bytes` returns, with a status, and the size.
pub record ReadResult : Type 0 where
  pub bytes : Text
  pub status : ℕ
  pub size : ℕ

abbrev pub error_read_result : ℕ → ReadResult
error_read_result status = record { bytes = []; status = status; size = 0 }

-- The result, the status that is returned beside it, and the calls on the log's entry.
pub record Failed : Type 0 where
  pub result_read : ReadResult
  pub code : ℕ
  pub calls : List LogCall

unfoldable pub read_error : ErrUtil → Option Error → Failed
read_error u e = record {
  result_read = error_read_result (to_errno u e);
  code = to_errno u e;
  calls = to_errno_log u e;
}
