-- ===== src/Clock/Readings.antt =====
-- internal/util/clock.go: no two readings are the same.
use adbfs.Base.{ℕ, ◌+◌, ◌≤◌, List, [], ◌∷◌, arith}
use adbfs.Clock.{MockClock, now, ClockCall, now_call, advance_call, readings}

-- Every reading is later than the ones before it, and none is before a time.
abbrev pub IsRising : ℕ → List ℕ → Type 0
IsRising from [] = Unit
IsRising from (t ∷ ts) = (from ≤ t) × IsRising (t + 1) ts

IsRising-from : (a b : ℕ) (ts : List ℕ) → a ≤ b → IsRising b ts → IsRising a ts
IsRising-from a b [] h r = tt
IsRising-from a b (t ∷ ts) h (r, rs) = (omega arith, rs)

-- Whatever is read of the test clock, and however it is advanced in between: each reading is later than
-- all before it, so that no two are the same.
pub readings-IsRising : (cs : List ClockCall) (c : MockClock) → IsRising c (readings cs c)
unfolding readings now
readings-IsRising [] c = tt
readings-IsRising (now_call ∷ cs) c = (omega arith, readings-IsRising cs (c + 1))
readings-IsRising (advance_call d ∷ cs) c =
    IsRising-from c (c + d) (readings cs (c + d)) (omega arith) (readings-IsRising cs (c + d))
