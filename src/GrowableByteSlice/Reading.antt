-- ===== src/GrowableByteSlice/Reading.antt =====
-- internal/util/growable_byte_slice.go: `ReadAt` against positioned reading of a list of bytes.
use adbfs.Base.{
  ℕ, zero, suc, ◌+◌, ◌-◌, ◌≤◌, ◌<◌, ◌≡◌, refl, ◌∙◌, sym, ap, List, [], ◌∷◌, min, length, take, drop,
  copy, get_or, length-take, length-copy, length-drop, get_or-take, get_or-drop, get_or_past,
  take_all, get_or_ext, Returns, arith, ◌==◌, pos, true, ◌↔◌,
}
use adbfs.GrowableByteSlice.{GrowableByteSlice, contents, read_at, ReadAt}
use adbfs.GrowableByteSlice.Shape.{IsValid, length-contents}
use adbfs.GrowableByteSlice.Writing.{pwrite, length-pwrite, get_or-pwrite}

-- Reading up to `n` bytes at an offset.
unfoldable pub pread : ℕ → ℕ → List ℕ → List ℕ
pread n off xs = take n (drop off xs)

-- What a read of `buf` at an offset returns: the count is what is left of the contents or of the
-- buffer, the buffer starts with the bytes read and is else as it was, and the error is `io.EOF`
-- exactly if the read reaches the end of the contents.
pub record IsRead (xs : List ℕ) (buf : List ℕ) (off : ℕ) (r : ReadAt) : Type 0 where
  pub count : r.n ≡ min (length buf) (length xs - off)
  pub bytes : take r.n r.buf ≡ pread (length buf) off xs
  pub rest : drop r.n r.buf ≡ drop r.n buf
  pub eof : (r.eof ≡ true) ↔ (length xs ≤ off + length buf)

take-copy :
    (n : ℕ) (buf src : List ℕ)
    → n ≤ length buf
    → n ≤ length src
    → take n (copy buf src) ≡ take n src
take-copy zero buf src h k = refl
take-copy (suc n) [] src h k = absurd (omega arith)
take-copy (suc n) (b ∷ buf) [] h k = absurd (omega arith)
take-copy (suc n) (b ∷ buf) (s ∷ src) h k =
    ap (◌∷◌ s) (take-copy n buf src (omega arith) (omega arith))

drop-copy : (buf src : List ℕ) → drop (length src) (copy buf src) ≡ drop (length src) buf
drop-copy [] [] = refl
drop-copy [] (s ∷ src) = refl
drop-copy (b ∷ buf) [] = refl
drop-copy (b ∷ buf) (s ∷ src) = drop-copy buf src

drop_all : (n : ℕ) (xs : List ℕ) → length xs ≤ n → drop n xs ≡ []
drop_all zero [] h = refl
drop_all zero (x ∷ xs) h = absurd (omega arith)
drop_all (suc n) [] h = refl
drop_all (suc n) (x ∷ xs) h = drop_all n xs (omega arith)

module _ (s : GrowableByteSlice) (buf : List ℕ) (off : ℕ) (v : IsValid s) where
  abbrev src : List ℕ
  src = drop off (contents s)

  length-src : length src ≡ s.len - off
  length-src = omega (arith, length-drop off (contents s), length-contents v)

  abbrev result : ℕ → ReadAt
  result n = record { buf = copy buf src; n = n; eof = n + off == s.len }

  -- Past the end nothing is read.
  past-IsRead : s.len ≤ off → IsRead (contents s) buf off (record { buf = buf; n = 0; eof = true })
  unfolding pread
  past-IsRead h = record {
    count = omega (arith, length-contents v);
    bytes = sym (
        ap (take (length buf)) (drop_all off (contents s) (omega (arith, length-contents v)))
        ∙ take_all (length buf) [] (omega arith));
    rest = refl;
    eof = (λ _. omega (arith, length-contents v), λ _. refl);
  }

  -- The buffer is filled.
  full-IsRead :
      off < s.len → length buf < length src → IsRead (contents s) buf off (result (length buf))
  unfolding pread
  full-IsRead h k = record {
    count = omega (arith, length-contents v, length-src);
    bytes = take-copy (length buf) buf src (omega arith) (omega arith);
    rest =
        drop_all (length buf) (copy buf src) (omega (arith, length-copy buf src))
        ∙ sym (drop_all (length buf) buf (omega arith));
    eof = ground (arith, length-contents v, length-src);
  }

  -- The contents end first.
  short-IsRead :
      off < s.len → length src ≤ length buf → IsRead (contents s) buf off (result (length src))
  unfolding pread
  short-IsRead h k = record {
    count = omega (arith, length-contents v, length-src);
    bytes =
        take-copy (length src) buf src (omega arith) (omega arith)
        ∙ take_all (length src) src (omega arith)
        ∙ sym (take_all (length buf) src (omega arith));
    rest = drop-copy buf src;
    eof = ground (arith, length-contents v, length-src);
  }

-- `ReadAt` at an offset that is not negative does not panic, and is a positioned read.
pub read_at-IsRead :
    (s : GrowableByteSlice) (buf : List ℕ) (off : ℕ)
    → IsValid s
    → Returns (read_at s buf (pos off)) (IsRead (contents s) buf off)
unfolding read_at
read_at-IsRead s buf off v =
    ground (arith, past-IsRead s buf off v, full-IsRead s buf off v, short-IsRead s buf off v)

-- A read of as many bytes at the same offset gives back what was written.
pub pread-pwrite :
    (off : ℕ) (bytes xs : List ℕ) → pread (length bytes) off (pwrite off bytes xs) ≡ bytes
unfolding pread
pread-pwrite off bytes xs =
    get_or_ext 0 _ _
      (omega (
        arith,
        length-take (length bytes) (drop off (pwrite off bytes xs)),
        length-drop off (pwrite off bytes xs),
        length-pwrite off bytes xs,
      ))
      (λ i h. ground (
        arith,
        get_or-take (length bytes) (drop off (pwrite off bytes xs)) i 0,
        get_or-drop off (pwrite off bytes xs) i 0,
        get_or-pwrite off bytes xs (off + i),
        ap (λ (t : ℕ). get_or bytes t 0) (back i),
        get_or_past bytes i 0,
      ))
  where
    back : (i : ℕ) → off + i - off ≡ i
    back i = omega arith
