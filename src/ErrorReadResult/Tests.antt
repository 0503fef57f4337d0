-- ===== src/ErrorReadResult/Tests.antt =====
-- error_read_result.go: a refused read.
use adbfs.Base.{◌≡◌, refl, [], ◌∷◌, some}
use adbfs.Errors.{not_permitted, eperm, to_errno}
use adbfs.Device.Ram.{ram_errors}
use adbfs.LogEntry.{status_call}
use adbfs.ErrorReadResult.{error_read_result, read_error}

refused :
    read_error ram_errors (some not_permitted)
    ≡ record { result_read = error_read_result eperm; code = eperm; calls = status_call eperm ∷ [] }
unfolding read_error to_errno
refused = refl
