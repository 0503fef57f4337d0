-- ===== src/Base/Index.antt =====
-- What stands at each index of a list, in the form that case analysis reads, and extensionality.
use Prim.Native.Nat.{ℕ, zero, suc, ◌+◌, ◌-◌, ◌≤◌, ◌<◌}
use mathlib.Core.Path.{◌≡◌, refl, ap, ap₂, ◌∙◌}
use mathlib.Core.List.{List, [], ◌∷◌, ◌++◌}
use native.Mathlib.Omega.{arith}
use adbfs.Base.Tests.{ltb, if◌then◌else◌}
use adbfs.Base.Lists.{length, get_or, take, drop, replicate, copy, set}

module _ {ℓ} {A : Type ℓ} where
  pub get_or-take :
      (n : ℕ) (xs : List A) (i : ℕ) (d : A)
      → get_or (take n xs) i d ≡ (if ltb i n then get_or xs i d else d)
  get_or-take zero xs i d = ground arith
  get_or-take (suc n) [] i d = ground arith
  get_or-take (suc n) (x ∷ xs) zero d = ground arith
  get_or-take (suc n) (x ∷ xs) (suc i) d = ground (arith, get_or-take n xs i d)

  pub get_or-drop :
      (n : ℕ) (xs : List A) (i : ℕ) (d : A) → get_or (drop n xs) i d ≡ get_or xs (n + i) d
  get_or-drop zero xs i d = ap (λ (k : ℕ). get_or xs k d) (omega arith)
  get_or-drop (suc n) [] i d = refl
  get_or-drop (suc n) (x ∷ xs) i d =
      get_or-drop n xs i d ∙ ap (λ (k : ℕ). get_or (x ∷ xs) k d) shift
    where
      shift : suc (n + i) ≡ suc n + i
      shift = omega arith

  pub get_or-append :
      (xs ys : List A) (i : ℕ) (d : A)
      → get_or (xs ++ ys) i d
        ≡ (if ltb i (length xs) then get_or xs i d else get_or ys (i - length xs) d)
  get_or-append [] ys i d = ground arith
  get_or-append (x ∷ xs) ys zero d = ground arith
  get_or-append (x ∷ xs) ys (suc i) d = ground (arith, get_or-append xs ys i d)

  pub get_or-copy :
      (dst src : List A) (i : ℕ) (d : A)
      → get_or (copy dst src) i d ≡ (
          if ltb i (length src)
          then if ltb i (length dst) then get_or src i d else d
          else get_or dst i d)
  get_or-copy [] src i d = ground arith
  get_or-copy (x ∷ dst) [] i d = ground arith
  get_or-copy (x ∷ dst) (s ∷ src) zero d = ground arith
  get_or-copy (x ∷ dst) (s ∷ src) (suc i) d = ground (arith, get_or-copy dst src i d)

  pub get_or_past : (xs : List A) (i : ℕ) (d : A) → length xs ≤ i → get_or xs i d ≡ d
  get_or_past [] i d h = refl
  get_or_past (x ∷ xs) zero d h = absurd (omega arith)
  get_or_past (x ∷ xs) (suc i) d h = get_or_past xs i d (omega arith)

  pub get_or-replicate : (n : ℕ) (d : A) (i : ℕ) → get_or (replicate n d) i d ≡ d
  get_or-replicate zero d i = refl
  get_or-replicate (suc n) d zero = refl
  get_or-replicate (suc n) d (suc i) = get_or-replicate n d i

  pub get_or-set :
      (xs : List A) (i : ℕ) (v : A) (j : ℕ)
      → get_or (set xs i v) j v
        ≡ (if ltb i j then get_or xs j v else if ltb j i then get_or xs j v else v)
  get_or-set [] i v j = ground arith
  get_or-set (x ∷ xs) zero v zero = ground arith
  get_or-set (x ∷ xs) zero v (suc j) = ground arith
  get_or-set (x ∷ xs) (suc i) v zero = ground arith
  get_or-set (x ∷ xs) (suc i) v (suc j) = ground (arith, get_or-set xs i v j)

  -- Lists of one length that agree at every index are equal.
  pub get_or_ext :
      (d : A) (xs ys : List A)
      → length xs ≡ length ys
      → ((i : ℕ) → i < length xs → get_or xs i d ≡ get_or ys i d)
      → xs ≡ ys
  get_or_ext d [] [] e h = refl
  get_or_ext d [] (y ∷ ys) e h = absurd (omega arith)
  get_or_ext d (x ∷ xs) [] e h = absurd (omega arith)
  get_or_ext d (x ∷ xs) (y ∷ ys) e h =
      ap₂ ◌∷◌ (h 0 (omega arith)) (get_or_ext d xs ys (omega arith) λ i p. h (suc i) (omega arith))
