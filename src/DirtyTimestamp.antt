-- ===== src/DirtyTimestamp.antt =====
-- internal/util/dirty_timestamp.go. A time is a number of nanoseconds, 0 is the zero time, and the
-- clock's reading is an argument of the operations that take one.
mod Tests
use adbfs.Base.{ℕ, ◌+◌, ◌<◌, ◌≡◌, ◌↔◌, Bool, true, not, ◌&&◌, ◌==◌, ltb, if◌then◌else◌, arith}

pub record DirtyTimestamp : Type 0 where
  pub t : ℕ

abbrev pub zero_time : ℕ
zero_time = 0

unfoldable pub new_dirty_timestamp : DirtyTimestamp
new_dirty_timestamp = record { t = zero_time }

unfoldable pub is_set : DirtyTimestamp → Bool
is_set ts = not (ts.t == zero_time)

unfoldable pub set : DirtyTimestamp → ℕ → DirtyTimestamp
set ts now = if ts.t == zero_time then record { t = now } else ts

unfoldable pub clear : DirtyTimestamp → DirtyTimestamp
clear ts = record { t = zero_time }

unfoldable pub has_been_dirty_for : DirtyTimestamp → ℕ → ℕ → Bool
unfolding is_set
has_been_dirty_for ts d now = is_set ts && ltb (ts.t + d) now

-- A stamp that is set again keeps the time of the first setting, so the timeout runs from there:
-- after settings at a first and a later time, neither of them zero, the stamp has been dirty for `d`
-- exactly if more than `d` has passed since the first, and none is dirty once cleared.
set-has_been_dirty_for :
    (ts : DirtyTimestamp) (first later d now : ℕ)
    → 0 < first
    → 0 < later
    → ((has_been_dirty_for (set (set (clear ts) first) later) d now ≡ true) ↔ (first + d < now))
      × (is_set (set (set (clear ts) first) later) ≡ true)
      × ((has_been_dirty_for (clear (set ts first)) d now ≡ true) → ⊥)
unfolding has_been_dirty_for set clear
set-has_been_dirty_for ts first later d now h k = ground arith
