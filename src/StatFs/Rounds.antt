-- ===== src/StatFs/Rounds.antt =====
-- adb_filesystem.go, `parseStatfs`: rounds of its loop.
use adbfs.Base.{
  ℕ, ◌%◌, ◌^◌, ◌<◌, ◌≡◌, refl, ap, ◌∙◌, Bool, true, false, List, [], ◌∷◌, ◌++◌, Text, text_eq,
  text_eq_iff, codes, length, Option, none, some, ℤ, pos, arith, Bool-cases, inl, inr,
}
use adbfs.Strings.{ends_with, trim_last, atoi, max_scan_token_size}
use adbfs.Strings.Fields.{is_word}
use adbfs.Strings.Numbers.{atoi-is_word, atoi-pos}
use adbfs.StatFs.{StatfsOut, colon, set_value, Reading, read_word, read_words}
use adbfs.StatFs.Printed.{is_plain, all_plain, Numeral}

ends_with-append :
    (s : Text) (c : ℕ) (t : Text) (x : ℕ) → ends_with (s ++ c ∷ t) x ≡ ends_with (c ∷ t) x
ends_with-append [] c t x = refl
ends_with-append (b ∷ []) c t x = refl
ends_with-append (b ∷ a ∷ s) c t x = ends_with-append (a ∷ s) c t x

trim_last-append :
    (s : Text) (c : ℕ) (t : Text) (x : ℕ) → trim_last (s ++ c ∷ t) x ≡ s ++ trim_last (c ∷ t) x
trim_last-append [] c t x = refl
trim_last-append (b ∷ []) c t x = refl
trim_last-append (b ∷ a ∷ s) c t x = ap (λ r. b ∷ r) (trim_last-append (a ∷ s) c t x)

-- A key that ends with a D is none that the parser knows.
text_eq_other :
    (s t : Text) (x : ℕ) → ends_with s x ≡ true → ends_with t x ≡ false → text_eq s t ≡ false
text_eq_other s t x h k = elim (Bool-cases (text_eq s t)) [
  | inl same ↦
      absurd (let e = (text_eq_iff s t).0 same in ground (arith, h, k, ap (λ r. ends_with r x) e))
  | inr differ ↦ differ
]

set_value_id :
    (stat : StatfsOut) (scope key : Text) (v : Option ℤ)
    → ends_with key 68 ≡ true
    → set_value stat scope key v ≡ some stat
unfolding set_value
set_value_id stat scope key v h =
    let no = λ (t : Text) (k : ends_with t 68 ≡ false). text_eq_other key t 68 h k in
    rw
      (
        no (codes "Namelen") refl,
        no (codes "Blocksize") refl,
        no (codes "Total") refl,
        no (codes "Free") refl,
        no (codes "Available") refl,
      )
      refl

pub is_plain_lem :
    (w : Text)
    → is_plain w ≡ true
    → (ends_with w colon ≡ false) × (is_word w ≡ true) × (length w < max_scan_token_size)
is_plain_lem w h = (ground (arith, h), ground (arith, h), ground (arith, h))

-- The further words of the name make one key with the one after them.
pub read_rest_of_name :
    (ws : List Text) (id : Text) (rest : List Text) (long : Bool) (r : Reading)
    → all_plain ws ≡ true
    → ends_with r.key colon ≡ false
    → ends_with id colon ≡ false
    → read_words (ws ++ codes "ID:" ∷ id ∷ rest) long r
      ≡ read_words rest long (record r { key = [] })
unfolding read_words read_word
read_rest_of_name [] id rest long r h k e =
    rw
      (
        k,
        ends_with-append r.key 73 (codes "D:") colon,
        e,
        trim_last-append r.key 73 (codes "D:") colon,
        set_value_id r.stat r.scope (r.key ++ codes "ID") (atoi id)
            (ends_with-append r.key 73 (codes "D") 68),
      )
      refl
read_rest_of_name ([] ∷ ws) id rest long r h k e = absurd (cc)
read_rest_of_name ((c ∷ w) ∷ ws) id rest long r h k e = rw k (
    read_rest_of_name ws id rest long (record r { key = r.key ++ c ∷ w }) (ground (arith, h))
      (ends_with-append r.key c w colon ∙ ground (arith, h)) e)

no_colon : (t : Text) (n : ℕ) → Numeral t n → ends_with t colon ≡ false
no_colon t n h = (atoi-is_word t (pos n) h.value).1

pub mod_64 : (t : Text) (n : ℕ) → Numeral t n → n % 2 ^ 64 ≡ n
mod_64 t n h = omega (arith, atoi-pos t n h.value)

abbrev pub at : Text → Text → StatfsOut → Reading
at scope key stat = record { scope = scope; key = key; stat = stat }

-- A value after its key.
read_value :
    (k t : Text) (ws : List Text) (scope : Text) (stat stat' : StatfsOut)
    → ends_with k colon ≡ true
    → ends_with t colon ≡ false
    → set_value stat scope (trim_last k colon) (atoi t) ≡ some stat'
    → read_words (t ∷ ws) false (at scope k stat) ≡ read_words ws false (at scope [] stat')
unfolding read_words read_word
read_value k t ws scope stat stat' h e v = rw (h, e, v) refl

pub read_text :
    (k t : Text) (ws : List Text) (scope : Text) (stat : StatfsOut)
    → ends_with k colon ≡ true
    → ends_with t colon ≡ false
    → set_value stat scope (trim_last k colon) (atoi t) ≡ some stat
    → read_words (k ∷ t ∷ ws) false (at scope [] stat) ≡ read_words ws false (at scope [] stat)
unfolding read_words read_word
read_text k t ws scope stat h e v = read_value k t ws scope stat stat h e v

pub read_number_at :
    (k t : Text) (n : ℕ) (ws : List Text) (scope : Text) (stat stat' : StatfsOut)
    → ends_with k colon ≡ true
    → Numeral t n
    → set_value stat scope (trim_last k colon) (some (pos n)) ≡ some stat'
    → read_words (t ∷ ws) false (at scope k stat) ≡ read_words ws false (at scope [] stat')
read_number_at k t n ws scope stat stat' h e v =
    read_value k t ws scope stat stat' h (no_colon t n e)
      (ap (set_value stat scope (trim_last k colon)) e.value ∙ v)

pub read_number :
    (k t : Text) (n : ℕ) (ws : List Text) (scope : Text) (stat stat' : StatfsOut)
    → ends_with k colon ≡ true
    → Numeral t n
    → set_value stat scope (trim_last k colon) (some (pos n)) ≡ some stat'
    → read_words (k ∷ t ∷ ws) false (at scope [] stat) ≡ read_words ws false (at scope [] stat')
unfolding read_words read_word
read_number k t n ws scope stat stat' h e v = read_number_at k t n ws scope stat stat' h e v

-- A key of two words.
pub read_joined :
    (k l : Text) (ws : List Text) (scope : Text) (stat : StatfsOut)
    → ends_with k colon ≡ false
    → read_words (k ∷ l ∷ ws) false (at scope [] stat)
      ≡ read_words ws false (at scope (k ++ l) stat)
unfolding read_words read_word
read_joined k l ws scope stat h = rw h refl

pub read_end : (r : Reading) → read_words [] false r ≡ (some r.stat, none)
unfolding read_words
read_end r = refl

read_prefix :
    (k l : Text) (ws : List Text) (scope : Text) (stat : StatfsOut)
    → ends_with k colon ≡ true
    → ends_with l colon ≡ true
    → read_words (l ∷ ws) false (at scope k stat)
      ≡ read_words ws false (at (trim_last k colon) l stat)
unfolding read_words read_word
read_prefix k l ws scope stat h e = rw (h, e) refl

-- A scope, and the first key in it.
pub read_scoped :
    (k l t : Text) (n : ℕ) (ws : List Text) (scope : Text) (stat stat' : StatfsOut)
    → ends_with k colon ≡ true
    → ends_with l colon ≡ true
    → Numeral t n
    → set_value stat (trim_last k colon) (trim_last l colon) (some (pos n)) ≡ some stat'
    → read_words (k ∷ l ∷ t ∷ ws) false (at scope [] stat)
      ≡ read_words ws false (at (trim_last k colon) [] stat')
unfolding read_words read_word
read_scoped k l t n ws scope stat stat' h e f v =
    read_prefix k l (t ∷ ws) scope stat h e
    ∙ read_number_at l t n ws (trim_last k colon) stat stat' e f v
