-- ===== src/Flow.antt =====
-- Go's `for { select { … } }`, which the programs' main loops and their goroutines are. What the
-- body of one round does: it goes on, it breaks, it returns from the function, or it waits as no
-- channel is ready.
use adbfs.Base.{ℕ, zero, suc}

pub data Flow (S R : Type 0) : Type 0 where
  goes_on : S → Flow S R
  breaks : S → Flow S R
  returns : R → S → Flow S R
  waits : S → Flow S R

-- A `break` in a `select` leaves the `select` and not the loop around it.
abbrev pub in_select : {S R : Type 0} → Flow S R → Flow S R
in_select (goes_on s) = goes_on s
in_select (breaks s) = goes_on s
in_select (returns r s) = returns r s
in_select (waits s) = waits s

-- A loop after some rounds: not at its end yet, left by a `break`, or left by a `return`.
pub data Loop (S R : Type 0) : Type 0 where
  looping : S → Loop S R
  left : S → Loop S R
  returned : R → S → Loop S R

abbrev after_body : {S R : Type 0} → (S → Loop S R) → Flow S R → Loop S R
after_body again (goes_on s) = again s
after_body again (breaks s) = left s
after_body again (returns r s) = returned r s
after_body again (waits s) = looping s

-- So many rounds of `for { body }`.
unfoldable pub for_loop : {S R : Type 0} → (S → Flow S R) → ℕ → S → Loop S R
for_loop body zero s = looping s
for_loop body (suc n) s = after_body (for_loop body n) (body s)
