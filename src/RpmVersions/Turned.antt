-- ===== src/RpmVersions/Turned.antt =====
-- What `RpmCompareValues` of magefiles/pkg/devtools/dnfpins/rpmvercmp.go says when its arguments
-- are turned around.
use cargoship.Prelude.{
  ℕ, suc, ◌≡◌, refl, ap, ◌+◌, true, false, Option, some, [], ◌∷◌, Bytes, ltb, length, arith,
  Bool-cases, inl, inr,
}
use cargoship.Values.Tree.{same_bytes}
use cargoship.Values.Tree.Keys.{same_bytes_sound}
use cargoship.Values.Text.Numbers.{is_digit}
use cargoship.Overrides.{less}
use cargoship.RpmVersions.Fuel.{kind_of-digit, kind_of-letter}
use cargoship.RpmVersions.{
  Order, newer, is_alpha, digit, letter, kind_of, skip_plain, run_of, strip_zeros, compare_texts,
  compare_numbers, decide, segment, compare_loop, rpm_compare_values,
}

strip_zeros-length : (c : ℕ) (s : Bytes) → ltb 0 (length (strip_zeros (c ∷ s))) ≡ true
unfolding strip_zeros
strip_zeros-length c [] = refl
strip_zeros-length c (d ∷ s) = ground (arith, strip_zeros-length d s)

digit_not_alpha : (c : ℕ) → is_digit c ≡ true → is_alpha c ≡ false
digit_not_alpha c h = ground arith

alpha_not_digit : (c : ℕ) → is_alpha c ≡ true → is_digit c ≡ false
alpha_not_digit c h = ground arith

compare_numbers-none : (s : Bytes) → ltb 0 (length s) ≡ true → compare_numbers s [] ≡ newer
unfolding compare_numbers
compare_numbers-none s h = ground arith

-- Against an empty run a number and a el_nine are newer.
number_first :
    (rest : Bytes → Bytes → Option Order) (a b : Bytes)
    → kind_of a ≡ digit
    → kind_of b ≡ letter
    → segment rest a b digit letter ≡ some newer
unfolding segment run_of decide kind_of
number_first rest [] b h k = ground arith
number_first rest (c ∷ s) [] h k = ground arith
number_first rest (c ∷ s) (d ∷ t) h k =
    rw
      (
        kind_of-digit c s h,
        alpha_not_digit d (kind_of-letter d t k),
        compare_numbers-none (strip_zeros (c ∷ run_of is_digit s))
            (strip_zeros-length c (run_of is_digit s)),
      )
      refl

word_first :
    (rest : Bytes → Bytes → Option Order) (a b : Bytes)
    → kind_of a ≡ digit
    → kind_of b ≡ letter
    → segment rest b a letter digit ≡ some newer
unfolding segment run_of compare_texts decide less kind_of
word_first rest [] b h k = ground arith
word_first rest (c ∷ s) [] h k = ground arith
word_first rest (c ∷ s) (d ∷ t) h k =
    rw (kind_of-letter d t k, digit_not_alpha c (kind_of-digit c s h)) refl

same_bytes-digit :
    (a b : Bytes)
    → kind_of (skip_plain a) ≡ digit
    → kind_of (skip_plain b) ≡ letter
    → same_bytes a b ≡ false
same_bytes-digit a b h k = elim (Bool-cases (same_bytes a b)) [
  | inl e ↦ let p = ap (λ s. kind_of (skip_plain s)) (same_bytes_sound a b e) in grind arith
  | inr e ↦ e
]

same_bytes-letter :
    (a b : Bytes)
    → kind_of (skip_plain a) ≡ digit
    → kind_of (skip_plain b) ≡ letter
    → same_bytes b a ≡ false
same_bytes-letter a b h k = elim (Bool-cases (same_bytes b a)) [
  | inl e ↦ let p = ap (λ s. kind_of (skip_plain s)) (same_bytes_sound b a e) in grind arith
  | inr e ↦ e
]

loop_both :
    (n : ℕ) (a b : Bytes)
    → kind_of (skip_plain a) ≡ digit
    → kind_of (skip_plain b) ≡ letter
    → (compare_loop (suc n) a b ≡ some newer) × (compare_loop (suc n) b a ≡ some newer)
unfolding compare_loop skip_plain kind_of
loop_both n [] b h k = ground arith
loop_both n (c ∷ a) [] h k = ground arith
loop_both n (c ∷ a) (d ∷ b) h k =
    rw (h, k)
      (
        number_first (compare_loop n) (skip_plain (c ∷ a)) (skip_plain (d ∷ b)) h k,
        word_first (compare_loop n) (skip_plain (c ∷ a)) (skip_plain (d ∷ b)) h k,
      )

-- A version whose first byte that counts is a digit, and one whose first such byte is a letter:
-- the comparison calls the first newer than the second, and the second newer than the first.
pub rpm_compare_values_turned :
    (a b : Bytes)
    → kind_of (skip_plain a) ≡ digit
    → kind_of (skip_plain b) ≡ letter
    → (rpm_compare_values a b ≡ some newer) × (rpm_compare_values b a ≡ some newer)
unfolding rpm_compare_values
rpm_compare_values_turned a b h k =
    rw (same_bytes-digit a b h k, same_bytes-letter a b h k)
      ((loop_both (length a + length b) a b h k).0, (loop_both (length b + length a) a b h k).1)
