-- ===== src/GrowableByteSlice/Tests.antt =====
-- Runs of the byte slice, and its theorems at concrete slices.
use adbfs.Base.{
  int64, ◌+ℤ◌, ◌≡◌, refl, ◌≢◌, [], ◌∷◌, replicate, pos, negsuc, done, panic, ◌>>=◌, Returns, arith,
}
use adbfs.GrowableByteSlice.{
  GrowableByteSlice, contents, read_from, shrink, zero_loop, slice, resize_nat, resize, write_at,
}
use adbfs.GrowableByteSlice.Shape.{IsValid}
use adbfs.GrowableByteSlice.Growing.{IsClean, read_from-IsClean}
use adbfs.GrowableByteSlice.Writing.{Written, write_at-Written}
use adbfs.GrowableByteSlice.Shrinking.{resize_nat_loses}

-- "hello", with one spare byte: less than three times the capacity.
abbrev hello : GrowableByteSlice
hello = record { array = 104 ∷ 101 ∷ 108 ∷ 108 ∷ 111 ∷ 0 ∷ []; len = 5 }

-- The same with sixteen spare bytes.
abbrev roomy : GrowableByteSlice
roomy = record { array = 104 ∷ 101 ∷ 108 ∷ 108 ∷ 111 ∷ replicate 16 0; len = 5 }

hello-IsValid : IsValid hello
hello-IsValid = record { fits = omega arith }

hello-IsClean : IsClean hello
unfolding read_from
hello-IsClean = read_from-IsClean (104 ∷ 101 ∷ 108 ∷ 108 ∷ 111 ∷ []) 1

roomy-IsValid : IsValid roomy
roomy-IsValid = record { fits = omega arith }

-- Truncating "hello" to "hel" in place leaves two zeros and an "l".
truncate_in_place : (resize hello (pos 3) >>= λ r. done (contents r)) ≡ done (0 ∷ 0 ∷ 108 ∷ [])
unfolding resize resize_nat shrink zero_loop
truncate_in_place = refl

resize_negative : resize hello (negsuc 0) ≡ panic
unfolding resize
resize_negative = refl

write_negative : write_at hello (1 ∷ []) (negsuc 0) ≡ panic
unfolding write_at slice int64 ◌+ℤ◌
write_negative = refl

write_at-Written_example :
    (r : GrowableByteSlice) × (write_at hello (33 ∷ 33 ∷ []) (pos 7) ≡ done (r, 2))
    × Written hello 7 (33 ∷ 33 ∷ []) r
write_at-Written_example =
    write_at-Written hello 7 (33 ∷ 33 ∷ []) hello-IsValid hello-IsClean (omega arith)

resize_nat_loses_example : Returns (resize_nat hello 3) (λ r. contents r ≢ 104 ∷ 101 ∷ 108 ∷ [])
resize_nat_loses_example =
    resize_nat_loses hello 3 hello-IsValid (omega arith) 0 (omega arith) (omega arith) (omega arith)
      (omega arith)
