-- ===== src/LogEntry/Repeats.antt =====
-- log_entry.go: when a method of an entry panics.
use adbfs.Base.{
  Option, ℕ, ◌≡◌, ◌↔◌, refl, sym, Bool, true, false, ◌||◌, ◌==◌, List, [], ◌∷◌, Text, panic, arith,
  Bool-cases, inl, inr,
}
use adbfs.Errors.{ErrUtil, Error, to_errno, eio}
use adbfs.LogEntry.{
  LogEntry, start_operation, is_text, is_failure, LogCall, error_call, result_call, status_call,
  cache_used_call, status_text, log_call, log_calls, to_errno_log,
}

-- Whether one of the calls gave an error, a result that is not empty, and a status.
abbrev pub gave_error : List LogCall → Bool
gave_error [] = false
gave_error (error_call e ∷ cs) = is_failure e || gave_error cs
gave_error (c ∷ cs) = gave_error cs

abbrev pub gave_result : List LogCall → Bool
gave_result [] = false
gave_result (result_call msg ∷ cs) = is_text msg || gave_result cs
gave_result (c ∷ cs) = gave_result cs

abbrev pub gave_status : List LogCall → Bool
gave_status [] = false
gave_status (status_call n ∷ cs) = true
gave_status (c ∷ cs) = gave_status cs

-- Whether a call repeats one of those before it.
abbrev pub repeats : List LogCall → LogCall → Bool
repeats earlier (error_call e) = gave_error earlier
repeats earlier (result_call msg) = gave_result earlier
repeats earlier (status_call n) = gave_status earlier
repeats earlier (cache_used_call hit) = false

-- Whether one of the calls repeats one of those before it.
abbrev pub some_repeat : List LogCall → List LogCall → Bool
some_repeat earlier [] = false
some_repeat earlier (c ∷ cs) = repeats earlier c || some_repeat (c ∷ earlier) cs

-- An operation that gives a result and then its status repeats nothing.
result_call-to_errno_log :
    (u : ErrUtil) (msg : Text) (e : Option Error)
    → some_repeat [] (result_call msg ∷ to_errno_log u e) ≡ false
result_call-to_errno_log u msg e = elim (Bool-cases (to_errno u e == eio)) [
  | inl unknown ↦ rw unknown refl
  | inr known ↦ rw known refl
]

-- The entry after the calls.
record Holds (r : LogEntry) (earlier : List LogCall) : Type 0 where
  failed : is_failure r.failure ≡ gave_error earlier
  resulted : is_text r.outcome ≡ gave_result earlier
  stated : is_text r.status ≡ gave_status earlier

module _ (errno_text : ℕ → Text) (texts : (n : ℕ) → is_text (errno_text n) ≡ true) where
  status_text_set : (n : ℕ) → is_text (status_text errno_text n) ≡ true
  status_text_set n = elim (Bool-cases (n == 0)) [
    | inl fine ↦ rw fine refl
    | inr errno ↦ rw errno (texts n)
  ]

  log_calls-some_repeat :
      (cs earlier : List LogCall) (r : LogEntry)
      → Holds r earlier
      → (log_calls errno_text r cs ≡ panic) ↔ (some_repeat earlier cs ≡ true)
  unfolding log_calls log_call
  log_calls-some_repeat [] earlier r h = (λ e. absurd (cc), λ e. absurd (cc))
  log_calls-some_repeat (error_call e ∷ cs) earlier r h = elim (Bool-cases (is_failure r.failure)) [
    | inl set ↦ rw (sym h.failed, set) (λ p. refl, λ p. refl)
    | inr free ↦
        let rest =
          log_calls-some_repeat cs (error_call e ∷ earlier) (record r { failure = e })
            (record {
              failed = ground (arith, h.failed, free);
              resulted = h.resulted;
              stated = h.stated;
            }) in
        rw (sym h.failed, free) rest
  ]
  log_calls-some_repeat (result_call msg ∷ cs) earlier r h = elim (Bool-cases (is_text r.outcome)) [
    | inl set ↦ rw (sym h.resulted, set) (λ p. refl, λ p. refl)
    | inr free ↦
        let rest =
          log_calls-some_repeat cs (result_call msg ∷ earlier) (record r { outcome = msg })
            (record {
              failed = h.failed;
              resulted = ground (arith, h.resulted, free);
              stated = h.stated;
            }) in
        rw (sym h.resulted, free) rest
  ]
  log_calls-some_repeat (status_call n ∷ cs) earlier r h = elim (Bool-cases (is_text r.status)) [
    | inl set ↦ rw (sym h.stated, set) (λ p. refl, λ p. refl)
    | inr free ↦
        let rest =
          log_calls-some_repeat cs (status_call n ∷ earlier)
            (record r { status = status_text errno_text n })
            (record { failed = h.failed; resulted = h.resulted; stated = status_text_set n }) in
        rw (sym h.stated, free) rest
  ]
  log_calls-some_repeat (cache_used_call hit ∷ cs) earlier r h =
      log_calls-some_repeat cs (cache_used_call hit ∷ earlier) _
        (record { failed = h.failed; resulted = h.resulted; stated = h.stated })

  -- The calls that an operation makes on its entry panic exactly if one of `Error`, `Result` and
  -- `Status` is called again after it was given an error, a text that is not empty, or any status;
  -- a second `Error` after a nil error, and a second `Result` after an empty text, do not.
  pub start_operation-some_repeat :
      (cs : List LogCall)
      → (log_calls errno_text start_operation cs ≡ panic) ↔ (some_repeat [] cs ≡ true)
  start_operation-some_repeat cs =
      log_calls-some_repeat cs [] start_operation
        (record { failed = refl; resulted = refl; stated = refl })
