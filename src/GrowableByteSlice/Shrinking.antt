-- ===== src/GrowableByteSlice/Shrinking.antt =====
-- internal/util/growable_byte_slice.go: what `Resize` to a smaller length keeps and clears, in each
-- of the two ways that `shrink` takes.
use adbfs.Base.{
  ℕ, zero, suc, ◌+◌, ◌-◌, ◌/◌, ◌≤◌, ◌<◌, ◌^◌, ◌≡◌, ◌∙◌, sym, ap, ◌≢◌, List, take, set, get_or,
  length-take, get_or-take, get_or-set, get_or_ext, done, Returns, arith, if◌then◌else◌, ltb, ◌>>=◌,
}
use adbfs.GrowableByteSlice.{
  GrowableByteSlice, cap, contents, reallocated, zero_loop, shrink, resize_nat,
}
use adbfs.GrowableByteSlice.Shape.{
  IsValid, reallocate_lem, length-contents, reallocated-IsValid, reallocated-len, length-zero_loop,
}
use adbfs.GrowableByteSlice.Growing.{
  IsClean, get_or-contents, get_or-reallocated, reallocated-IsClean,
}

-- The loop clears the bytes from its index on, one for each round.
get_or-zero_loop :
    (left i : ℕ) (array : List ℕ) (j : ℕ)
    → get_or (zero_loop left i array) j 0
      ≡ (if ltb j i then get_or array j 0 else if ltb j (i + left) then 0 else get_or array j 0)
unfolding zero_loop
get_or-zero_loop zero i array j = ground arith
get_or-zero_loop (suc left) i array j =
    ground (arith, get_or-zero_loop left (suc i) (set array i 0) j, get_or-set array i 0 j)

resize_nat_within :
    (s : GrowableByteSlice) (m : ℕ)
    → s.len < m
    → m ≤ cap s
    → resize_nat s m ≡ done (record s { len = m })
unfolding resize_nat
resize_nat_within s m h k = ground arith

abbrev pub in_place : GrowableByteSlice → ℕ → GrowableByteSlice
in_place s n = record { array = zero_loop (s.len - n) 0 s.array; len = n }

module _ (s : GrowableByteSlice) (n : ℕ) (v : IsValid s) (below : n < s.len) where
  reallocated-take : contents (reallocated s n) ≡ take n (contents s)
  reallocated-take =
      get_or_ext 0 _ _
        (omega (
          arith,
          length-contents (reallocated-IsValid s n),
          reallocated-len s n,
          length-take n (contents s),
          length-contents v,
        ))
        (λ i h.
          get_or-contents (reallocated-IsClean s n) i
          ∙ get_or-reallocated s n i
          ∙ sym (get_or-take n (contents s) i 0))

  -- A slice that fills less than a third of its capacity is truncated as asked, below 2 ^ 62: a valid and clean
  -- slice is left, with the first `n` bytes of the contents.
  resize_nat_sparse :
      n < 2 ^ 62
      → s.len < cap s / 3
      → (resize_nat s n ≡ done (reallocated s n))
        × IsValid (reallocated s n)
        × IsClean (reallocated s n)
        × (contents (reallocated s n) ≡ take n (contents s))
  unfolding resize_nat shrink
  resize_nat_sparse small h = (
    rw (← reallocate_lem s n small) (ground arith),
    reallocated-IsValid s n,
    reallocated-IsClean s n,
    reallocated-take,
  )

  -- Any other slice is shortened in place, and the bytes that are cleared are the first
  -- `s.len - n` of the array, not those past the new length: a byte that is kept becomes 0 if its
  -- index is less than the number of bytes dropped, and the array past `n` keeps every byte whose
  -- index is not.
  resize_nat-in_place :
      cap s / 3 ≤ s.len
      → (resize_nat s n ≡ done (in_place s n))
        × ((i : ℕ)
            → i < n
            → get_or (contents (in_place s n)) i 0
              ≡ (if ltb i (s.len - n) then 0 else get_or (contents s) i 0))
        × ((i : ℕ) → n ≤ i → s.len - n ≤ i → get_or (in_place s n).array i 0 ≡ get_or s.array i 0)
  unfolding resize_nat shrink
  resize_nat-in_place h = (
    ground arith,
    λ i k. ground (
      arith,
      get_or-take n (in_place s n).array i 0,
      get_or-zero_loop (s.len - n) 0 s.array i,
      get_or-take s.len s.array i 0,
    ),
    λ i k l. ground (arith, get_or-zero_loop (s.len - n) 0 s.array i),
  )

  -- So truncating in place loses a byte that is to be kept, whenever one of the first
  -- `s.len - n` bytes below `n` is not 0.
  pub resize_nat_loses :
      (i : ℕ)
      → cap s / 3 ≤ s.len
      → i < n
      → i < s.len - n
      → get_or (contents s) i 0 ≢ 0
      → Returns (resize_nat s n) (λ r. contents r ≢ take n (contents s))
  resize_nat_loses i h k l ne = rw (resize_nat-in_place h).0 λ e. ne (
      sym (get_or-take n (contents s) i 0 ∙ ground arith)
      ∙ sym (ap (λ (xs : List ℕ). get_or xs i 0) e)
      ∙ (resize_nat-in_place h).1 i k
      ∙ ground arith)

  -- And growing again to a length within the old one shows the old bytes, where the documentation
  -- promises zeros.
  resize_nat_shows :
      (m i : ℕ)
      → cap s / 3 ≤ s.len
      → n < m
      → m ≤ s.len
      → n ≤ i
      → i < m
      → s.len - n ≤ i
      → Returns
          (resize_nat s n >>= λ r. resize_nat r m)
          (λ r. get_or (contents r) i 0 ≡ get_or (contents s) i 0)
  resize_nat_shows m i h k l p q d =
      rw
        (
          (resize_nat-in_place h).0,
          resize_nat_within (in_place s n) m k
              (omega (arith, length-zero_loop (s.len - n) 0 s.array, v.fits)),
        )
        (ground (
          arith,
          get_or-take m (in_place s n).array i 0,
          (resize_nat-in_place h).2 i p d,
          get_or-take s.len s.array i 0,
        ))
