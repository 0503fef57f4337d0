-- ===== src/GrowableByteSlice/Shape.antt =====
-- internal/util/growable_byte_slice.go: the length stays within the array, which operations panic,
-- and the lengths that they leave.
use adbfs.Base.{
  ℕ, zero, suc, ◌+◌, ◌-◌, ◌*◌, ◌≤◌, ◌<◌, ◌^◌, ◌≡◌, refl, ◌∙◌, List, length, take, drop, set,
  replicate, copy, length-append, length-set, length-take, length-drop, length-replicate,
  length-copy, pos, ◌+ℤ◌, int64_pos, Outcome, done, Returns, ◌>>=◌, arith, ltb, if◌then◌else◌,
}
use adbfs.GrowableByteSlice.{
  GrowableByteSlice, cap, contents, new_capacity, reallocated, reallocate, zero_loop, shrink,
  resize_nat, resize, slice, write_array, write_window, write_at,
}

-- A Go slice is never longer than its array.
pub record IsValid (s : GrowableByteSlice) : Type 0 where
  pub fits : s.len ≤ cap s

new_capacity-ge : (n : ℕ) → n < 2 ^ 62 → n ≤ new_capacity n
unfolding new_capacity
new_capacity-ge n h = ground (arith, int64_pos (2 * n) (omega arith))

-- Below 2 ^ 62, `make` does not panic.
pub reallocate_lem :
    (s : GrowableByteSlice) (n : ℕ) → n < 2 ^ 62 → reallocate s n ≡ done (reallocated s n)
unfolding reallocate
reallocate_lem s n h = ground (arith, new_capacity-ge n h)

length-reallocated :
    (s : GrowableByteSlice) (n : ℕ) → cap (reallocated s n) ≡ n + (new_capacity n - n)
unfolding reallocated
length-reallocated s n = omega (
  arith,
  length-append (copy (replicate n 0) (contents s)) (replicate (new_capacity n - n) 0),
  length-copy (replicate n 0) (contents s),
  length-replicate {A = ℕ} n 0,
  length-replicate {A = ℕ} (new_capacity n - n) 0,
)

pub reallocated-IsValid : (s : GrowableByteSlice) (n : ℕ) → IsValid (reallocated s n)
unfolding reallocated
reallocated-IsValid s n = record { fits = bound }
  where
    bound : n ≤ cap (reallocated s n)
    bound = omega (arith, length-reallocated s n)

pub reallocated-len : (s : GrowableByteSlice) (n : ℕ) → (reallocated s n).len ≡ n
unfolding reallocated
reallocated-len s n = refl

pub length-zero_loop :
    (left i : ℕ) (array : List ℕ) → length (zero_loop left i array) ≡ length array
unfolding zero_loop
length-zero_loop zero i array = refl
length-zero_loop (suc left) i array =
    length-zero_loop left (suc i) (set array i 0) ∙ length-set array i 0

pub length-contents : {s : GrowableByteSlice} → IsValid s → length (contents s) ≡ s.len
length-contents {s} v = omega (arith, length-take s.len s.array, v.fits)

-- A result has the length asked for, and is valid.
pub record Sized (n : ℕ) (s : GrowableByteSlice) : Type 0 where
  pub valid : IsValid s
  pub len : s.len ≡ n

shrink-Sized :
    (s : GrowableByteSlice) (n : ℕ)
    → IsValid s
    → n < 2 ^ 62
    → n < s.len
    → Returns (shrink s n) (Sized n)
unfolding shrink
shrink-Sized s n v small h = ground (
  arith,
  reallocate_lem s n small,
  reallocated-IsValid s n,
  reallocated-len s n,
  length-zero_loop (s.len - n) 0 s.array,
)

-- `Resize` to a length that is below 2 ^ 62 and not negative ends without a panic, in a valid slice of that length.
resize_nat-Sized :
    (s : GrowableByteSlice) (n : ℕ) → IsValid s → n < 2 ^ 62 → Returns (resize_nat s n) (Sized n)
unfolding resize_nat
resize_nat-Sized s n v small = ground (
  arith,
  reallocate_lem s n small,
  reallocated-IsValid s n,
  reallocated-len s n,
  shrink-Sized s n v small,
)

-- Growing to at least a length, as `slice` does.
abbrev pub grow_to : GrowableByteSlice → ℕ → Outcome GrowableByteSlice
grow_to s end = if ltb s.len end then resize_nat s end else done s

slice_lem :
    (s : GrowableByteSlice) (start end : ℕ)
    → start ≤ end
    → slice s (pos start) (pos end) ≡ grow_to s end
unfolding slice resize
slice_lem s start end h = ground (arith)

-- A write that ends below 2 ^ 63 grows the slice and stores the bytes at the offset.
pub write_at_lem :
    (s : GrowableByteSlice) (bytes : List ℕ) (off : ℕ)
    → off + length bytes < 2 ^ 63
    → write_at s bytes (pos off) ≡ (
        grow_to s (off + length bytes) >>= λ g.
        done (record g { array = write_array off g.array bytes }, length bytes))
unfolding write_at write_window ◌+ℤ◌
write_at_lem s bytes off h =
    ground (arith, int64_pos (off + length bytes), slice_lem s off (off + length bytes))

pub length-write_array :
    (off : ℕ) (array bytes : List ℕ)
    → off ≤ length array
    → length (write_array off array bytes) ≡ length array
unfolding write_array
length-write_array off array bytes h = omega (
  arith,
  length-append (take off array) (copy (drop off array) bytes),
  length-take off array,
  length-copy (drop off array) bytes,
  length-drop off array,
)
