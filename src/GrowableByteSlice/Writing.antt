-- ===== src/GrowableByteSlice/Writing.antt =====
-- internal/util/growable_byte_slice.go: `WriteAt` against positioned writing into a plain list
-- of bytes.
use adbfs.Base.{
  ℕ, ◌+◌, ◌-◌, ◌≤◌, ◌<◌, ◌^◌, ◌≡◌, ◌∙◌, ap, List, ◌++◌, max, length, take, drop, replicate, copy,
  get_or, length-append, length-take, length-replicate, length-drop, get_or-take, get_or-drop,
  get_or-append, get_or-copy, get_or_past, get_or-replicate, get_or_ext, Outcome, done,
  Returns-done, arith, if◌then◌else◌, ltb, ◌>>=◌, pos,
}
use adbfs.GrowableByteSlice.{GrowableByteSlice, contents, write_array, write_at}
use adbfs.GrowableByteSlice.Shape.{
  IsValid, length-contents, grow_to, length-write_array, write_at_lem,
}
use adbfs.GrowableByteSlice.Growing.{IsClean, Grown, grow_to-Grown, get_or-contents}

-- Writing at an offset into a list of bytes: the gap before the offset is filled with zeros.
unfoldable pub pwrite : ℕ → List ℕ → List ℕ → List ℕ
pwrite off bytes xs =
    take off xs ++ (replicate (off - length xs) 0 ++ (bytes ++ drop (off + length bytes) xs))

pub length-pwrite :
    (off : ℕ) (bytes xs : List ℕ)
    → length (pwrite off bytes xs) ≡ max (length xs) (off + length bytes)
unfolding pwrite
length-pwrite off bytes xs = omega (
  arith,
  length-append (take off xs)
      (replicate (off - length xs) 0 ++ (bytes ++ drop (off + length bytes) xs)),
  length-append (replicate (off - length xs) 0) (bytes ++ drop (off + length bytes) xs),
  length-append bytes (drop (off + length bytes) xs),
  length-take off xs,
  length-replicate {A = ℕ} (off - length xs) 0,
  length-drop (off + length bytes) xs,
)

-- A byte written is the byte given, and every other byte is the old one.
pub get_or-pwrite :
    (off : ℕ) (bytes xs : List ℕ) (i : ℕ)
    → get_or (pwrite off bytes xs) i 0 ≡ (
        if ltb i off
        then get_or xs i 0
        else if ltb i (off + length bytes)
        then get_or bytes (i - off) 0
        else get_or xs i 0)
unfolding pwrite
get_or-pwrite off bytes xs i =
    let gap : List ℕ = replicate (off - length xs) 0 in
    let rest : List ℕ = drop (off + length bytes) xs in
    let j : ℕ = i - length (take off xs) in
    let k : ℕ = j - length gap in
    let same : off + length bytes ≤ i
        → get_or xs (off + length bytes + (k - length bytes)) 0 ≡ get_or xs i 0 =
      λ h.
        ap (λ (t : ℕ). get_or xs t 0)
          (omega (arith, length-take off xs, length-replicate {A = ℕ} (off - length xs) 0)) in
    let inside : off ≤ i → get_or bytes k 0 ≡ get_or bytes (i - off) 0 = λ h.
      ap (λ (t : ℕ). get_or bytes t 0)
        (omega (arith, length-take off xs, length-replicate {A = ℕ} (off - length xs) 0)) in
    ground (
      arith,
      get_or-append (take off xs) (gap ++ (bytes ++ rest)) i 0,
      get_or-append gap (bytes ++ rest) j 0,
      get_or-append bytes rest k 0,
      length-take off xs,
      length-replicate {A = ℕ} (off - length xs) 0,
      get_or-replicate {A = ℕ} (off - length xs) 0 j,
      get_or-take off xs i 0,
      get_or-drop (off + length bytes) xs (k - length bytes) 0,
      get_or_past xs i 0,
      same,
      inside,
    )

get_or-write_array :
    (off : ℕ) (array bytes : List ℕ) (i : ℕ)
    → off + length bytes ≤ length array
    → get_or (write_array off array bytes) i 0 ≡ (
        if ltb i off
        then get_or array i 0
        else if ltb i (off + length bytes)
        then get_or bytes (i - off) 0
        else get_or array i 0)
unfolding write_array
get_or-write_array off array bytes i h = ground (
  arith,
  get_or-append (take off array) (copy (drop off array) bytes) i 0,
  length-take off array,
  get_or-take off array i 0,
  get_or-copy (drop off array) bytes (i - off) 0,
  length-drop off array,
  get_or-drop off array (i - off) 0,
  ap (λ (k : ℕ). get_or array k 0) (split i),
)
  where
    split : (i : ℕ) → off + (i - off) ≡ max i off
    split i = omega arith

-- What a write makes of a slice: the contents are those of a positioned write, and the slice is as
-- sound as before.
pub record Written (s : GrowableByteSlice) (off : ℕ) (bytes : List ℕ) (r : GrowableByteSlice)
    : Type 0 where
  pub valid : IsValid r
  pub clean : IsClean r
  pub written : contents r ≡ pwrite off bytes (contents s)

module _ (s : GrowableByteSlice) (off : ℕ) (bytes : List ℕ) (v : IsValid s) (c : IsClean s) where
  module _ (g : GrowableByteSlice) (w : Grown s (off + length bytes) g) where
    abbrev stored : GrowableByteSlice
    stored = record g { array = write_array off g.array bytes }

    covers : off + length bytes ≤ g.len
    covers = omega (arith, w.len)

    stored-IsValid : IsValid stored
    stored-IsValid = record {
      fits = omega (arith, length-write_array off g.array bytes, covers, w.valid.fits);
    }

    get_or-stored : (i : ℕ) → get_or stored.array i 0 ≡ get_or (pwrite off bytes (contents s)) i 0
    get_or-stored i = ground (
      arith,
      get_or-write_array off g.array bytes i,
      get_or-pwrite off bytes (contents s) i,
      covers,
      w.valid.fits,
      w.same i,
      get_or-contents c i,
    )

    stored-IsClean : IsClean stored
    stored-IsClean = record {
      zeroed = λ i h.
          get_or-stored i
          ∙ get_or_past (pwrite off bytes (contents s)) i 0
              (omega (arith, length-pwrite off bytes (contents s), length-contents v, w.len));
    }

    stored-Written : Written s off bytes stored
    stored-Written = record {
      valid = stored-IsValid;
      clean = stored-IsClean;
      written =
          get_or_ext 0 _ _
            (omega (
              arith,
              length-contents stored-IsValid,
              length-pwrite off bytes (contents s),
              length-contents v,
              w.len,
            ))
            (λ i h. get_or-contents stored-IsClean i ∙ get_or-stored i);
    }

  -- `WriteAt` at an offset, of bytes that end below 2 ^ 62, into a valid and clean slice does not
  -- panic, reports every byte written, and leaves a valid and clean slice whose contents are those
  -- of a positioned write.
  pub write_at-Written :
      off + length bytes < 2 ^ 62
      → (r : GrowableByteSlice) × (write_at s bytes (pos off) ≡ done (r, length bytes))
        × Written s off bytes r
  write_at-Written h =
      let (g, e, w) =
        Returns-done (grow_to s (off + length bytes)) (Grown s (off + length bytes))
          (grow_to-Grown s (off + length bytes) v c h) in
      (stored g w, write_at_lem s bytes off (omega arith) ∙ ap then_store e, stored-Written g w)
    where
      then_store : Outcome GrowableByteSlice → Outcome (GrowableByteSlice × ℕ)
      then_store o =
          o >>= λ g. done (record g { array = write_array off g.array bytes }, length bytes)
