-- ===== src/LogEntry/Tests.antt =====
-- Entries of concrete operations.
use adbfs.Base.{◌≡◌, ◌↔◌, refl, true, false, pos, List, [], ◌∷◌, codes, none, some, panic, done}
use adbfs.Errors.{not_permitted}
use adbfs.LogEntry.{
  start_operation, LogCall, LogEntry, error_call, result_call, status_call, cache_used_call,
  log_call, log_calls,
}
use adbfs.LogEntry.Finish.{
  Named, started, fields, finish_operation, duration_ms, status_field, pid_field, path_field,
  result_field, cache_hit_field, calculate_duration_millis,
}
use adbfs.LogEntry.Finish.Finished.{Tells, finish_operation-given}
use adbfs.LogEntry.Repeats.{some_repeat, start_operation-some_repeat}

abbrev twice : List LogCall
twice = result_call [] ∷ result_call (codes "read 3 bytes") ∷ status_call 0 ∷ status_call 1 ∷ []

start_operation-some_repeat_example :
    (log_calls (λ n. codes "errno") start_operation twice ≡ panic) ↔ (some_repeat [] twice ≡ true)
start_operation-some_repeat_example =
    start_operation-some_repeat (λ n. codes "errno") (λ n. refl) twice

-- A nil error may be followed by another error.
nil_error :
    log_calls
      (λ n. codes "errno")
      start_operation
      (error_call none ∷ error_call (some not_permitted) ∷ [])
    ≡ done (record start_operation { failure = some not_permitted })
unfolding log_calls log_call
nil_error = refl

-- A read that the cache could answer.
abbrev cached : List LogCall
cached =
    cache_used_call false
    ∷ cache_used_call true
    ∷ result_call (codes "3 entries")
    ∷ status_call 0
    ∷ []

abbrev ended : LogEntry
ended = record {
  failure = none;
  outcome = codes "3 entries";
  status = codes "OK";
  cache_used = true;
  cache_hit = true;
}

ended_lem : log_calls (λ n. codes "errno") start_operation cached ≡ done ended
unfolding log_calls log_call
ended_lem = refl

abbrev opening : Named
opening = started (codes "OpenDir") (codes "/sdcard")

finish_operation-given_example :
    let l = finish_operation opening ended true (pos 1500000) 7 in
    Tells l.trace_fields
      (pos 1500000)
      7
      (codes "OK")
      (codes "/sdcard")
      []
      (codes "3 entries")
      true
      true
    × (l.debug_message ≡ none)
    × (l.error_message ≡ none)
    × (l.trace_error ≡ none)
finish_operation-given_example =
    finish_operation-given (λ n. codes "errno") opening cached ended true (pos 1500000) 7 ended_lem

-- One and a half milliseconds are logged as one.
fields_lem :
    fields opening ended (pos 1500000) 7
    ≡ duration_ms (pos 1)
      ∷ status_field (codes "OK")
      ∷ pid_field 7
      ∷ path_field (codes "/sdcard")
      ∷ result_field (codes "3 entries")
      ∷ cache_hit_field true
      ∷ []
unfolding calculate_duration_millis
fields_lem = refl
