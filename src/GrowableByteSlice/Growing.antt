-- ===== src/GrowableByteSlice/Growing.antt =====
-- internal/util/growable_byte_slice.go: growing keeps the bytes and shows zeros, as long as the
-- array is zero past the length in use.
use adbfs.Base.{
  ℕ, ◌-◌, ◌≤◌, ◌<◌, ◌^◌, ◌≡◌, refl, List, ◌++◌, max, length, replicate, copy, get_or, length-append,
  length-replicate, length-copy, get_or-take, get_or-append, get_or-copy, get_or_past,
  get_or-replicate, take-append, get_or_ext, Returns, Returns-map, arith, if◌then◌else◌, ltb,
}
use adbfs.GrowableByteSlice.{
  GrowableByteSlice, cap, contents, new_capacity, reallocated, resize_nat, read_from,
}
use adbfs.GrowableByteSlice.Shape.{
  IsValid, reallocate_lem, reallocated-IsValid, reallocated-len, length-contents, grow_to,
}

-- The array holds zeros past the length in use.
pub record IsClean (s : GrowableByteSlice) : Type 0 where
  pub zeroed : (i : ℕ) → s.len ≤ i → get_or s.array i 0 ≡ 0

-- Then a byte of the contents is a byte of the array, inside and outside.
pub get_or-contents :
    {s : GrowableByteSlice} → IsClean s → (i : ℕ) → get_or (contents s) i 0 ≡ get_or s.array i 0
get_or-contents {s} c i = ground (arith, get_or-take s.len s.array i 0, c.zeroed i)

pub get_or-reallocated :
    (s : GrowableByteSlice) (n i : ℕ)
    → get_or (reallocated s n).array i 0 ≡ (if ltb i n then get_or (contents s) i 0 else 0)
unfolding reallocated
get_or-reallocated s n i = ground (
  arith,
  get_or-append (copy (replicate n 0) (contents s)) (replicate (new_capacity n - n) 0) i 0,
  length-copy (replicate n 0) (contents s),
  length-replicate {A = ℕ} n 0,
  get_or-copy (replicate n 0) (contents s) i 0,
  get_or-replicate {A = ℕ} n 0 i,
  get_or-replicate {A = ℕ} (new_capacity n - n) 0 (i - n),
  get_or_past (contents s) i 0,
)

pub reallocated-IsClean : (s : GrowableByteSlice) (n : ℕ) → IsClean (reallocated s n)
reallocated-IsClean s n = record {
  zeroed = λ i h. ground (arith, get_or-reallocated s n i, reallocated-len s n);
}

-- What growing to at least `end` makes of `s`.
pub record Grown (s : GrowableByteSlice) (end : ℕ) (g : GrowableByteSlice) : Type 0 where
  pub valid : IsValid g
  pub clean : IsClean g
  pub len : g.len ≡ max s.len end
  pub same : (i : ℕ) → get_or g.array i 0 ≡ get_or s.array i 0

-- What is read from a stream is valid, and clean if the rest of its array is zero.
pub read_from-IsValid : (bytes spare : List ℕ) → IsValid (read_from bytes spare)
unfolding read_from
read_from-IsValid bytes spare = record { fits = omega (arith, length-append bytes spare) }

pub contents-read_from : (bytes spare : List ℕ) → contents (read_from bytes spare) ≡ bytes
unfolding read_from
contents-read_from bytes spare = take-append bytes spare

pub read_from-IsClean : (bytes : List ℕ) (k : ℕ) → IsClean (read_from bytes (replicate k 0))
unfolding read_from
read_from-IsClean bytes k = record {
  zeroed = λ i h. ground (
    arith,
    get_or-append bytes (replicate k 0) i 0,
    get_or-replicate {A = ℕ} k 0 (i - length bytes),
  );
}

module _ (s : GrowableByteSlice) (end : ℕ) (v : IsValid s) (c : IsClean s)
    (small : end < 2 ^ 62) where
  Grown-here : end ≤ s.len → Grown s end s
  Grown-here h = record { valid = v; clean = c; len = omega arith; same = λ i. refl }

  Grown-in_place : s.len ≤ end → end ≤ cap s → Grown s end (record s { len = end })
  Grown-in_place h k = record {
    valid = record { fits = k };
    clean = record { zeroed = λ i p. c.zeroed i (omega arith) };
    len = omega arith;
    same = λ i. refl;
  }

  Grown-reallocated : s.len ≤ end → Grown s end (reallocated s end)
  Grown-reallocated h = record {
    valid = reallocated-IsValid s end;
    clean = reallocated-IsClean s end;
    len = omega (arith, reallocated-len s end);
    same = λ i. ground (arith, get_or-reallocated s end i, get_or-contents c i, c.zeroed i);
  }

  pub grow_to-Grown : Returns (grow_to s end) (Grown s end)
  unfolding resize_nat
  grow_to-Grown =
      ground (arith, reallocate_lem s end small, Grown-here, Grown-in_place, Grown-reallocated)

  resize_nat-grow_to : s.len ≤ end → resize_nat s end ≡ grow_to s end
  unfolding resize_nat
  resize_nat-grow_to h = ground arith

  contents-Grown :
      s.len ≤ end
      → (g : GrowableByteSlice) → Grown s end g
      → IsValid g × IsClean g × (contents g ≡ contents s ++ replicate (end - s.len) 0)
  contents-Grown h g w = (w.valid, w.clean, get_or_ext 0 _ _ lengths bytes)
    where
      lengths : length (contents g) ≡ length (contents s ++ replicate (end - s.len) 0)
      lengths = omega (
        arith,
        length-contents w.valid,
        length-contents v,
        length-append (contents s) (replicate (end - s.len) 0),
        length-replicate {A = ℕ} (end - s.len) 0,
        w.len,
      )

      bytes :
          (i : ℕ)
          → i < length (contents g)
          → get_or (contents g) i 0 ≡ get_or (contents s ++ replicate (end - s.len) 0) i 0
      bytes i k = ground (
        arith,
        get_or-contents w.clean i,
        w.same i,
        get_or-contents c i,
        get_or-append (contents s) (replicate (end - s.len) 0) i 0,
        get_or-replicate {A = ℕ} (end - s.len) 0 (i - length (contents s)),
        get_or_past (contents s) i 0,
      )

  -- `Resize` to a length that is not smaller keeps the contents of a valid and clean slice and adds
  -- zeros; the slice stays valid and clean.
  pub resize_nat-append :
      s.len ≤ end
      → Returns
          (resize_nat s end)
          (λ r. IsValid r × IsClean r × (contents r ≡ contents s ++ replicate (end - s.len) 0))
  resize_nat-append h =
      rw (resize_nat-grow_to h)
        (Returns-map (grow_to s end) (Grown s end) _ (contents-Grown h) grow_to-Grown)
