-- ===== src/GrowableByteSlice.antt =====
-- internal/util/growable_byte_slice.go. A Go slice is its array, whose length is the capacity, and
-- the length in use; the bytes past that length are kept, since a later reslice shows them again.
-- Running out of memory is not modelled.
pub mod Shape
pub mod Growing
pub mod Shrinking
pub mod Writing
pub mod Reading
mod Tests
use adbfs.Base.{
  ℕ, zero, suc, ◌+◌, ◌-◌, ◌*◌, ◌/◌, Bool, true, false, if◌then◌else◌, ltb, leb, ◌==◌, List, [], ◌∷◌,
  ◌++◌, length, take, drop, set, replicate, copy, ℤ, pos, negsuc, ltb_ℤ, ◌+ℤ◌, int64, pos_part,
  Outcome, done, panic, ◌>>=◌,
}

pub record GrowableByteSlice : Type 0 where
  pub array : List ℕ
  pub len : ℕ

abbrev pub cap : GrowableByteSlice → ℕ
cap s = length s.array

-- `s.data` as a value.
abbrev pub contents : GrowableByteSlice → List ℕ
contents s = take s.len s.array

abbrev pub initial_capacity : ℕ
initial_capacity = 1024

unfoldable pub empty : GrowableByteSlice
empty = record { array = []; len = 0 }

-- Twice the length as an `int`, which is negative from a length of 2 ^ 62 on.
abbrev doubled : ℕ → ℤ
doubled new_len = int64 (pos (2 * new_len))

pub new_capacity : ℕ → ℕ
new_capacity new_len =
    if ltb_ℤ (doubled new_len) (pos initial_capacity)
    then initial_capacity
    else pos_part (doubled new_len)

-- `copy(make([]byte, newLen, newCapacity), s.data)`, where `make` returns: the copy ends at the new
-- length, and the rest of the new array is zero.
pub reallocated : GrowableByteSlice → ℕ → GrowableByteSlice
reallocated s new_len = record {
  array = copy (replicate new_len 0) (contents s) ++ replicate (new_capacity new_len - new_len) 0;
  len = new_len;
}

-- `for i := range s.data[newLen:] { s.data[i] = 0 }` from index `i`, with the rounds left. The range
-- counts from 0, and so does the index that is cleared.
pub zero_loop : ℕ → ℕ → List ℕ → List ℕ
zero_loop zero i array = array
zero_loop (suc left) i array = zero_loop left (suc i) (set array i 0)

-- `make` panics where the capacity is less than the length.
pub reallocate : GrowableByteSlice → ℕ → Outcome GrowableByteSlice
reallocate s new_len =
    if ltb (new_capacity new_len) new_len then panic else done (reallocated s new_len)

pub shrink : GrowableByteSlice → ℕ → Outcome GrowableByteSlice
shrink s new_len =
    if leb s.len new_len
    then panic
    else if ltb s.len (cap s / 3)
    then reallocate s new_len
    else done (record { array = zero_loop (s.len - new_len) 0 s.array; len = new_len })

pub resize_nat : GrowableByteSlice → ℕ → Outcome GrowableByteSlice
resize_nat s new_len =
    if ltb new_len s.len
    then shrink s new_len
    else if new_len == s.len
    then done s
    else if leb new_len (cap s)
    then done (record s { len = new_len })
    else reallocate s new_len

unfoldable pub resize : GrowableByteSlice → ℤ → Outcome GrowableByteSlice
resize s (negsuc n) = panic
resize s (pos n) = resize_nat s n

-- What `ReadAt` returns: the caller's buffer, the count, and whether the error is `io.EOF`.
pub record ReadAt : Type 0 where
  pub buf : List ℕ
  pub n : ℕ
  pub eof : Bool

pub read_at : GrowableByteSlice → List ℕ → ℤ → Outcome ReadAt
read_at s buf (negsuc k) = panic
read_at s buf (pos off) =
    if leb s.len off
    then done (record { buf = buf; n = 0; eof = true })
    else let src = drop off (contents s) in
      let n = if ltb (length buf) (length src) then length buf else length src in
      done (record { buf = copy buf src; n = n; eof = n + off == s.len })

-- `slice(start, end)` only grows the slice: what it returns is the window `[start, end)` of the
-- array, which the caller copies into. A negative start faults at the slicing.
pub slice : GrowableByteSlice → ℤ → ℤ → Outcome GrowableByteSlice
slice s start end = if ltb_ℤ end start then panic else do
  grown ← if ltb_ℤ (pos s.len) end then resize s end else done s
  if ltb_ℤ start (pos 0) then panic else done grown

-- `copy(s.data[start:], bytes)` into an array.
pub write_array : ℕ → List ℕ → List ℕ → List ℕ
write_array off array bytes = take off array ++ copy (drop off array) bytes

pub write_window : GrowableByteSlice → List ℕ → ℤ → GrowableByteSlice
write_window s bytes (pos off) = record s { array = write_array off s.array bytes }
write_window s bytes (negsuc k) = s

-- The new slice and the count, which is that of the bytes given; the error is always nil.
pub write_at : GrowableByteSlice → List ℕ → ℤ → Outcome (GrowableByteSlice × ℕ)
write_at s bytes off = do
  grown ← slice s off (int64 (off +ℤ pos (length bytes)))
  done (write_window grown bytes off, length bytes)

-- `ReadFrom`: the bytes that `ioutil.ReadAll` returns, and what its array holds past them.
unfoldable pub read_from : List ℕ → List ℕ → GrowableByteSlice
read_from bytes spare = record { array = bytes ++ spare; len = length bytes }
