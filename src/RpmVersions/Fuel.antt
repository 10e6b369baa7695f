-- ===== src/RpmVersions/Fuel.antt =====
-- The loops of `RpmCompareValues` of magefiles/pkg/devtools/dnfpins/rpmvercmp.go end.
use cargoship.Prelude.{
  ℕ, zero, suc, ◌≡◌, refl, ◌+◌, ◌<◌, ◌≤◌, Bool, true, Option, [], ◌∷◌, Bytes, length, arith,
  is_some,
}
use cargoship.Values.Text.Numbers.{is_digit}
use cargoship.RpmVersions.{
  Order, older, equal, newer, is_alpha, Start, ended, tilde, caret, digit, letter, plain, kind_of,
  skip_plain, run_of, behind_run, strip_zeros, compare_texts, compare_numbers, decide, segment,
  compare_loop, rpm_compare_values,
}

behind_run-length : (test : ℕ → Bool) (s : Bytes) → length (behind_run test s) ≤ length s
unfolding behind_run
behind_run-length test [] = omega arith
behind_run-length test (c ∷ s) = ground (arith, behind_run-length test s)

behind_run_shorter :
    (test : ℕ → Bool) (c : ℕ) (s : Bytes)
    → test c ≡ true
    → length (behind_run test (c ∷ s)) < suc (length s)
unfolding behind_run
behind_run_shorter test c s h = ground (arith, behind_run-length test s)

skip_plain-length : (s : Bytes) → length (skip_plain s) ≤ length s
unfolding skip_plain
skip_plain-length [] = omega arith
skip_plain-length (c ∷ s) = ground (arith, skip_plain-length s)

pub kind_of-digit : (c : ℕ) (s : Bytes) → kind_of (c ∷ s) ≡ digit → is_digit c ≡ true
unfolding kind_of
kind_of-digit c s h = ground arith

pub kind_of-letter : (c : ℕ) (s : Bytes) → kind_of (c ∷ s) ≡ letter → is_alpha c ≡ true
unfolding kind_of
kind_of-letter c s h = ground arith

decide-is_some : (o : Order) (r : Option Order) → is_some r ≡ true → is_some (decide o r) ≡ true
unfolding decide
decide-is_some older r h = refl
decide-is_some equal r h = h
decide-is_some newer r h = refl

-- `rest` answers for what is left of the texts `c ∷ s` and `d ∷ t`.
abbrev AnswersBelow : (Bytes → Bytes → Option Order) → ℕ → Type 0
AnswersBelow rest n = (x y : Bytes) → length x + length y < n → is_some (rest x y) ≡ true

behind-is_some :
    (rest : Bytes → Bytes → Option Order) (test : ℕ → Bool) (o : Order) (c : ℕ) (s t : Bytes)
    → AnswersBelow rest (suc (length s) + length t)
    → test c ≡ true
    → is_some (decide o (rest (behind_run test (c ∷ s)) (behind_run test t))) ≡ true
behind-is_some rest test o c s t r h =
    decide-is_some o (rest (behind_run test (c ∷ s)) (behind_run test t)) (
      r (behind_run test (c ∷ s)) (behind_run test t)
        (omega (arith, behind_run_shorter test c s h, behind_run-length test t)))

segment-is_some :
    (rest : Bytes → Bytes → Option Order) (c : ℕ) (s : Bytes) (d : ℕ) (t : Bytes) (k m : Start)
    → AnswersBelow rest (suc (length s) + suc (length t))
    → kind_of (c ∷ s) ≡ k
    → is_some (segment rest (c ∷ s) (d ∷ t) k m) ≡ true
unfolding segment
segment-is_some rest c s d t ended m r h = ground arith
segment-is_some rest c s d t tilde m r h = ground (arith, r s t (omega arith))
segment-is_some rest c s d t caret m r h = ground (arith, r s t (omega arith))
segment-is_some rest c s d t digit m r h = ground (
  arith,
  behind-is_some rest is_digit
      (compare_numbers (strip_zeros (run_of is_digit (c ∷ s)))
        (strip_zeros (run_of is_digit (d ∷ t))))
      c s (d ∷ t) r (kind_of-digit c s h),
)
segment-is_some rest c s d t letter m r h = ground (
  arith,
  behind-is_some rest is_alpha (compare_texts (run_of is_alpha (c ∷ s)) (run_of is_alpha (d ∷ t))) c
      s (d ∷ t) r (kind_of-letter c s h),
)
segment-is_some rest c s d t plain m r h = ground (arith, r s t (omega arith))

segment_ended :
    (rest : Bytes → Bytes → Option Order) (b : Bytes) (m : Start)
    → is_some (segment rest [] b ended m) ≡ true
unfolding segment
segment_ended rest b m = ground arith

segment_other_ended :
    (rest : Bytes → Bytes → Option Order) (a : Bytes) (k : Start)
    → is_some (segment rest a [] k ended) ≡ true
unfolding segment
segment_other_ended rest a k = ground arith

segment_ends :
    (rest : Bytes → Bytes → Option Order) (a b : Bytes)
    → AnswersBelow rest (length a + length b)
    → is_some (segment rest a b (kind_of a) (kind_of b)) ≡ true
unfolding segment kind_of
segment_ends rest [] b r = segment_ended rest b (kind_of b)
segment_ends rest (c ∷ s) [] r = segment_other_ended rest (c ∷ s) (kind_of (c ∷ s))
segment_ends rest (c ∷ s) (d ∷ t) r =
    segment-is_some rest c s d t (kind_of (c ∷ s)) (kind_of (d ∷ t)) r refl

compare_loop_enough :
    (n : ℕ) (a b : Bytes) → length a + length b < n → is_some (compare_loop n a b) ≡ true
unfolding compare_loop
compare_loop_enough zero a b h = ground arith
compare_loop_enough (suc n) [] b h = refl
compare_loop_enough (suc n) (c ∷ a) [] h = refl
compare_loop_enough (suc n) (c ∷ a) (d ∷ b) h =
    segment_ends (compare_loop n) (skip_plain (c ∷ a)) (skip_plain (d ∷ b)) (λ x y l.
      compare_loop_enough n x y
        (omega (arith, skip_plain-length (c ∷ a), skip_plain-length (d ∷ b))))

-- The fuel of the model is enough: the comparison of any two texts ends with an answer.
pub rpm_compare_values_ends : (a b : Bytes) → is_some (rpm_compare_values a b) ≡ true
unfolding rpm_compare_values
rpm_compare_values_ends a b = ground (arith, compare_loop_enough (suc (length a + length b)) a b)
