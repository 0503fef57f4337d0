-- ===== src/Clock.antt =====
-- internal/util/clock.go: the clock of the tests, whose time is in nanoseconds since 1970. The system's
-- clock is an argument wherever the program reads it.
mod Tests
pub mod Readings
use adbfs.Base.{ℕ, ◌+◌, List, [], ◌∷◌}

-- `MockClock`; an advance goes forwards.
abbrev pub MockClock : Type 0
MockClock = ℕ

abbrev pub reset : MockClock
reset = 1000000000

abbrev pub advance : ℕ → MockClock → MockClock
advance d c = c + d

-- What is read, and the clock after it.
unfoldable pub now : MockClock → ℕ × MockClock
now c = (c, advance 1 c)

pub data ClockCall : Type 0 where
  now_call : ClockCall
  advance_call : ℕ → ClockCall

-- What a sequence of calls reads.
unfoldable pub readings : List ClockCall → MockClock → List ℕ
readings [] c = []
readings (now_call ∷ cs) c = let (t, c') = now c in t ∷ readings cs c'
readings (advance_call d ∷ cs) c = readings cs (advance d c)
