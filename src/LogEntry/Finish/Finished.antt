-- ===== src/LogEntry/Finish/Finished.antt =====
-- log_entry.go: what an entry holds after the calls of an operation, which its end logs.
use adbfs.Base.{
  arith, false, ◌++◌, ℕ, ◌≡◌, refl, Bool, true, ◌||◌, if◌then◌else◌, List, [], ◌∷◌, Text, Option,
  none, some, done, ℤ, Bool-cases, inl, inr,
}
use adbfs.Errors.{Error}
use adbfs.LogEntry.{
  LogEntry, start_operation, is_text, is_failure, LogCall, error_call, result_call, status_call,
  cache_used_call, status_text, log_call, log_calls,
}
use adbfs.LogEntry.Finish.{
  if_text, Field, duration_ms, status_field, path_field, args_field, result_field, pid_field,
  cache_hit_field, calculate_duration_millis, Named, fields, finish_operation,
}

-- What the calls gave: the last error, result and status, and whether the cache was used and hit.
abbrev pub last_error : Option Error → List LogCall → Option Error
last_error e [] = e
last_error e (error_call f ∷ cs) = last_error f cs
last_error e (c ∷ cs) = last_error e cs

abbrev pub last_result : Text → List LogCall → Text
last_result s [] = s
last_result s (result_call msg ∷ cs) = last_result msg cs
last_result s (c ∷ cs) = last_result s cs

abbrev pub last_status : (ℕ → Text) → Text → List LogCall → Text
last_status errno_text s [] = s
last_status errno_text s (status_call n ∷ cs) = last_status errno_text (status_text errno_text n) cs
last_status errno_text s (c ∷ cs) = last_status errno_text s cs

abbrev pub any_use : Bool → List LogCall → Bool
any_use used [] = used
any_use used (cache_used_call hit ∷ cs) = any_use true cs
any_use used (c ∷ cs) = any_use used cs

abbrev pub any_hit : Bool → List LogCall → Bool
any_hit was_hit [] = was_hit
any_hit was_hit (cache_used_call hit ∷ cs) = any_hit (was_hit || hit) cs
any_hit was_hit (c ∷ cs) = any_hit was_hit cs

-- The values of a kind that some fields have, in order.
abbrev gather : {A : Type 0} → (Field → List A) → List Field → List A
gather values [] = []
gather values (x ∷ xs) = values x ++ gather values xs

abbrev duration_of : Field → List ℤ
duration_of (duration_ms n) = n ∷ []
duration_of _ = []

abbrev pid_of : Field → List ℕ
pid_of (pid_field n) = n ∷ []
pid_of _ = []

abbrev status_in : Field → List Text
status_in (status_field s) = s ∷ []
status_in _ = []

abbrev path_of : Field → List Text
path_of (path_field s) = s ∷ []
path_of _ = []

abbrev args_of : Field → List Text
args_of (args_field s) = s ∷ []
args_of _ = []

abbrev result_of : Field → List Text
result_of (result_field s) = s ∷ []
result_of _ = []

abbrev cache_hit_of : Field → List Bool
cache_hit_of (cache_hit_field b) = b ∷ []
cache_hit_of _ = []

abbrev unless_empty : Text → List Text
unless_empty s = if is_text s then s ∷ [] else []

-- Fields that tell this, each once: an empty path, arguments or result have no field, and whether the
-- cache was hit has one if it was used.
pub record Tells (fs : List Field) (elapsed : ℤ) (pid : ℕ) (status path args result : Text)
    (cache_used cache_hit : Bool) : Type 0 where
  pub durations : gather duration_of fs ≡ calculate_duration_millis elapsed ∷ []
  pub pids : gather pid_of fs ≡ pid ∷ []
  pub statuses : gather status_in fs ≡ status ∷ []
  pub paths : gather path_of fs ≡ unless_empty path
  pub arguments : gather args_of fs ≡ unless_empty args
  pub results : gather result_of fs ≡ unless_empty result
  pub cache_hits : gather cache_hit_of fs ≡ (if cache_used then cache_hit ∷ [] else [])

gather-if_text :
    {A : Type 0} (values : Field → List A) (field : Text → Field) (s : Text) (rest : List Field)
    → gather values (if_text field s rest)
      ≡ (if is_text s then values (field s) ++ gather values rest else gather values rest)
gather-if_text values field [] rest = refl
gather-if_text values field (c ∷ s) rest = refl

gather-optional :
    {A : Type 0} (values : Field → List A) (path args result : Text) (rest : List Field)
    → let with_result = if_text result_field result rest in
      let with_args = if_text args_field args with_result in
      (gather values (if_text path_field path with_args) ≡ (
        if is_text path
        then values (path_field path) ++ gather values with_args
        else gather values with_args))
      × (gather values with_args ≡ (
          if is_text args
          then values (args_field args) ++ gather values with_result
          else gather values with_result))
      × (gather values with_result ≡ (
          if is_text result
          then values (result_field result) ++ gather values rest
          else gather values rest))
gather-optional values path args result rest = (
  gather-if_text values path_field path _,
  gather-if_text values args_field args _,
  gather-if_text values result_field result rest,
)

pub fields-Tells :
    (n : Named) (r : LogEntry) (elapsed : ℤ) (pid : ℕ)
    → Tells
        (fields n r elapsed pid)
        elapsed
        pid
        r.status
        n.path
        n.args
        r.outcome
        r.cache_used
        r.cache_hit
fields-Tells n r elapsed pid = told n.path n.args r.outcome r.cache_used
  where
    told :
        (path args result : Text) (used : Bool)
        → Tells
            (fields
              (record { name = n.name; path = path; args = args })
              (record r { outcome = result; cache_used = used })
              elapsed
              pid)
            elapsed
            pid
            r.status
            path
            args
            result
            used
            r.cache_hit
    told path args result used =
        let rest : List Field = if used then cache_hit_field r.cache_hit ∷ [] else [] in
        record {
          durations = ground (arith, gather-optional duration_of path args result rest);
          pids = ground (arith, gather-optional pid_of path args result rest);
          statuses = ground (arith, gather-optional status_in path args result rest);
          paths = ground (arith, gather-optional path_of path args result rest);
          arguments = ground (arith, gather-optional args_of path args result rest);
          results = ground (arith, gather-optional result_of path args result rest);
          cache_hits = ground (arith, gather-optional cache_hit_of path args result rest);
        }

module _ (errno_text : ℕ → Text) where
  abbrev given : LogEntry → List LogCall → LogEntry
  given r cs = record {
    failure = last_error r.failure cs;
    outcome = last_result r.outcome cs;
    status = last_status errno_text r.status cs;
    cache_used = any_use r.cache_used cs;
    cache_hit = any_hit r.cache_hit cs;
  }

  log_calls-given :
      (cs : List LogCall) (r r' : LogEntry) → log_calls errno_text r cs ≡ done r' → r' ≡ given r cs
  unfolding log_calls log_call
  log_calls-given [] r r' h = cc
  log_calls-given (error_call e ∷ cs) r r' h = elim (Bool-cases (is_failure r.failure)) [
    | inl set ↦ absurd (let no = rw set at h in cc)
    | inr free ↦ log_calls-given cs (record r { failure = e }) r' (simp free at h)
  ]
  log_calls-given (result_call msg ∷ cs) r r' h = elim (Bool-cases (is_text r.outcome)) [
    | inl set ↦ absurd (let no = rw set at h in cc)
    | inr free ↦ log_calls-given cs (record r { outcome = msg }) r' (simp free at h)
  ]
  log_calls-given (status_call n ∷ cs) r r' h = elim (Bool-cases (is_text r.status)) [
    | inl set ↦ absurd (let no = rw set at h in cc)
    | inr free ↦
        log_calls-given cs (record r { status = status_text errno_text n }) r' (simp free at h)
  ]
  log_calls-given (cache_used_call hit ∷ cs) r r' h =
      log_calls-given cs (record r { cache_used = true; cache_hit = r.cache_hit || hit }) r' h

  -- What the end of an operation logs, where its calls have not panicked: the name, the duration, the
  -- process, the path, the arguments, and the last error, result and status that they gave, where an
  -- empty path, arguments or result have no field, and if the cache was used, whether any of the uses
  -- was a hit, which otherwise has no field; the debug message is left out exactly if it is suppressed,
  -- and then the error is logged all the same, and the trace has all of it.
  pub finish_operation-given :
      (n : Named) (cs : List LogCall) (r : LogEntry) (suppress : Bool) (elapsed : ℤ) (pid : ℕ)
      → log_calls errno_text start_operation cs ≡ done r
      → let l = finish_operation n r suppress elapsed pid in
        Tells l.trace_fields elapsed pid
          (last_status errno_text [] cs)
          n.path
          n.args
          (last_result [] cs)
          (any_use false cs)
          (any_hit false cs)
        × (l.debug_message ≡ (if suppress then none else some (n.name, l.trace_fields)))
        × (l.error_message ≡ last_error none cs)
        × (l.trace_error ≡ last_error none cs)
  unfolding finish_operation
  finish_operation-given n cs r suppress elapsed pid h =
      rw (log_calls-given cs start_operation r h)
        (fields-Tells n (given start_operation cs) elapsed pid, refl, refl, refl)
