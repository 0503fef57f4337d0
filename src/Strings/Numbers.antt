-- ===== src/Strings/Numbers.antt =====
-- What `strconv.Atoi` accepts.
use adbfs.Base.{
  ℕ, ◌+◌, ◌*◌, ◌-◌, ◌^◌, ◌<◌, ◌≡◌, refl, Bool, true, false, ◌&&◌, ◌==◌, [], ◌∷◌, Text, Option, none,
  some, ℤ, pos, arith, Bool-cases, inl, inr,
}
use adbfs.Strings.{is_space, is_digit, ends_with, digits_from, unsigned, in_range, negated, atoi}
use adbfs.Strings.Fields.{no_space, is_word}

abbrev all_digits : Text → Bool
all_digits [] = true
all_digits (c ∷ s) = is_digit c && all_digits s

digits_from-all_digits : (n m : ℕ) (s : Text) → digits_from n s ≡ some m → all_digits s ≡ true
unfolding digits_from
digits_from-all_digits n m [] h = refl
digits_from-all_digits n m (c ∷ s) h =
    ground (arith, digits_from-all_digits (n * 10 + (c - 48)) m s)

-- Digits, perhaps with a sign before them.
digits-ends_with : (c : ℕ) (s : Text) → all_digits (c ∷ s) ≡ true → ends_with (c ∷ s) 58 ≡ false
digits-ends_with c [] h = ground (arith, h)
digits-ends_with c (b ∷ s) h = digits-ends_with b s (ground (arith, h))

digits-no_space : (s : Text) → all_digits s ≡ true → no_space s ≡ true
digits-no_space [] h = refl
digits-no_space (c ∷ s) h = ground (arith, h, digits-no_space s)

unsigned-all_digits :
    (s : Text) (n : ℕ) → unsigned s ≡ some n → (all_digits s ≡ true) × (ends_with s 58 ≡ false)
unsigned-all_digits [] n h = absurd (cc)
unsigned-all_digits (c ∷ s) n h =
    let d = digits_from-all_digits 0 n (c ∷ s) h in (d, digits-ends_with c s d)

in_range-some : (o : Option ℕ) (z : ℤ) → in_range o ≡ some z → (n : ℕ) × (o ≡ some n)
in_range-some none z h = absurd (cc)
in_range-some (some n) z h = (n, refl)

negated-some : (o : Option ℕ) (z : ℤ) → negated o ≡ some z → (n : ℕ) × (o ≡ some n)
negated-some none z h = absurd (cc)
negated-some (some n) z h = (n, refl)

signed-ends_with :
    (c : ℕ) (s : Text) (x : ℕ)
    → (c == x) ≡ false
    → ends_with s x ≡ false
    → ends_with (c ∷ s) x ≡ false
signed-ends_with c [] x h k = h
signed-ends_with c (b ∷ s) x h k = k

-- A sign and digits.
signed :
    (c : ℕ) (s : Text) (n : ℕ)
    → is_space c ≡ false
    → (c == 58) ≡ false
    → unsigned s ≡ some n
    → (is_word (c ∷ s) ≡ true) × (ends_with (c ∷ s) 58 ≡ false)
signed c s n h k e =
    let (d, f) = unsigned-all_digits s n e in
    (ground (arith, h, digits-no_space s d), signed-ends_with c s 58 k f)

pub atoi-is_word :
    (t : Text) (z : ℤ) → atoi t ≡ some z → (is_word t ≡ true) × (ends_with t 58 ≡ false)
atoi-is_word [] z h = absurd (cc)
atoi-is_word (c ∷ s) z h = elim (Bool-cases (c == 43)) [
  | inl plus ↦
      let (n, e) = in_range-some (unsigned s) z (ground (arith, h, plus)) in
      signed c s n (ground (arith, plus)) (ground (arith, plus)) e
  | inr no_plus ↦ elim (Bool-cases (c == 45)) [
    | inl minus ↦
        let (n, e) = negated-some (unsigned s) z (ground (arith, h, minus, no_plus)) in
        signed c s n (ground (arith, minus)) (ground (arith, minus)) e
    | inr no_minus ↦
        let (n, e) = in_range-some (unsigned (c ∷ s)) z (ground (arith, h, no_plus, no_minus)) in
        let (d, f) = unsigned-all_digits (c ∷ s) n e in (digits-no_space (c ∷ s) d, f)
  ]
]

in_range-pos : (o : Option ℕ) (n : ℕ) → in_range o ≡ some (pos n) → n < 2 ^ 63
in_range-pos none n h = absurd (cc)
in_range-pos (some m) n h = ground (arith, h)

negated-pos : (o : Option ℕ) (n : ℕ) → negated o ≡ some (pos n) → n < 2 ^ 63
negated-pos none n h = absurd (cc)
negated-pos (some m) n h = ground (arith, h)

-- Numbers fit into an `int`.
pub atoi-pos : (t : Text) (n : ℕ) → atoi t ≡ some (pos n) → n < 2 ^ 63
atoi-pos [] n h = absurd (cc)
atoi-pos (c ∷ s) n h =
    let plus = in_range-pos (unsigned s) n in
    let minus = negated-pos (unsigned s) n in
    let plain = in_range-pos (unsigned (c ∷ s)) n in ground (arith, h, plus, minus, plain)
