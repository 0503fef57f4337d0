-- ===== src/Base/Bits.antt =====
-- `|` and `&` of flag words: which words share a bit with which.
use Prim.Native.Nat.{
  ℕ, zero, suc, ◌+◌, ◌*◌, ◌/◌, ◌%◌, ◌≤◌, min, max, bit_and, bit_or, digits, bit_and-bitwise,
  bit_or-bitwise,
}
use mathlib.Core.Path.{◌≡◌, refl}
use mathlib.Core.Logic.{◌↔◌}
use native.Mathlib.Omega.{arith}

-- More fuel than the first word has digits makes no difference.
module _ (past : ℕ → ℕ) (op : ℕ → ℕ → ℕ) where
  same_digits :
      (a b big small : ℕ) → a ≤ small → a ≤ big → digits past op big a b ≡ digits past op small a b
  same_digits zero b zero zero h k = refl
  same_digits zero b zero (suc small) h k = refl
  same_digits zero b (suc big) zero h k = refl
  same_digits zero b (suc big) (suc small) h k = refl
  same_digits (suc a) b zero small h k = absurd (omega arith)
  same_digits (suc a) b (suc big) zero h k = absurd (omega arith)
  same_digits (suc a) b (suc big) (suc small) h k =
      rw (same_digits (suc a / 2) (b / 2) big small (omega arith) (omega arith))

-- The lowest digit of each operation, and the rest.
or_digit : (a b : ℕ) → bit_or a b ≡ bit_or (a / 2) (b / 2) * 2 + max (a % 2) (b % 2)
or_digit zero b = omega (arith, bit_or-bitwise 0 b, bit_or-bitwise 0 (b / 2))
or_digit (suc a) b = omega (
  arith,
  bit_or-bitwise (suc a) b,
  bit_or-bitwise (suc a / 2) (b / 2),
  same_digits (λ d. d) max (suc a / 2) (b / 2) a (suc a / 2) (omega arith) (omega arith),
)

and_digit : (a b : ℕ) → bit_and a b ≡ bit_and (a / 2) (b / 2) * 2 + min (a % 2) (b % 2)
and_digit zero b = omega (arith, bit_and-bitwise 0 b, bit_and-bitwise 0 (b / 2))
and_digit (suc a) b = omega (
  arith,
  bit_and-bitwise (suc a) b,
  bit_and-bitwise (suc a / 2) (b / 2),
  same_digits (λ _. 0) min (suc a / 2) (b / 2) a (suc a / 2) (omega arith) (omega arith),
)

-- Two words joined share a bit with a third exactly if one of them does.
bit_and-bit_or_below :
    (n a b c : ℕ)
    → a ≤ n
    → b ≤ n
    → (bit_and (bit_or a b) c ≡ 0) ↔ ((bit_and a c ≡ 0) × (bit_and b c ≡ 0))
bit_and-bit_or_below zero zero zero c h k = (λ e. (e, e), λ p. p.0)
bit_and-bit_or_below zero (suc a) b c h k = absurd (omega arith)
bit_and-bit_or_below zero zero (suc b) c h k = absurd (omega arith)
bit_and-bit_or_below (suc n) a b c h k = ground (
  arith,
  or_digit a b,
  and_digit (bit_or a b) c,
  and_digit a c,
  and_digit b c,
  bit_and-bit_or_below n (a / 2) (b / 2) (c / 2) (omega arith) (omega arith),
)

and_or_below :
    (n a b c : ℕ) → a ≤ n → (bit_and a (bit_or b c) ≡ 0) ↔ ((bit_and a b ≡ 0) × (bit_and a c ≡ 0))
and_or_below zero zero b c h =
    (λ _. (bit_and-bitwise 0 b, bit_and-bitwise 0 c), λ _. bit_and-bitwise 0 (bit_or b c))
and_or_below zero (suc a) b c h = absurd (omega arith)
and_or_below (suc n) a b c h = ground (
  arith,
  or_digit b c,
  and_digit a (bit_or b c),
  and_digit a b,
  and_digit a c,
  and_or_below n (a / 2) (b / 2) (c / 2) (omega arith),
)

pub bit_and-bit_or_left :
    (a b c : ℕ) → (bit_and (bit_or a b) c ≡ 0) ↔ ((bit_and a c ≡ 0) × (bit_and b c ≡ 0))
bit_and-bit_or_left a b c = bit_and-bit_or_below (max a b) a b c (omega arith) (omega arith)

pub bit_and-bit_or_right :
    (a b c : ℕ) → (bit_and a (bit_or b c) ≡ 0) ↔ ((bit_and a b ≡ 0) × (bit_and a c ≡ 0))
bit_and-bit_or_right a b c = and_or_below a a b c (omega arith)
