-- ===== src/Prelude/Durations.antt =====
-- `time.Duration` of Go's standard library: 64-bit counts of nanoseconds.
use Prim.Native.Nat.{ℕ, zero, suc, ◌+◌, ◌-◌, ◌*◌, ◌%◌, ◌≤◌}
use mathlib.Core.Path.{◌≡◌, refl, ◌∙◌}
use native.Mathlib.Omega.{arith}
use cargoship.Prelude.Tests.{leb, ltb, if◌then◌else◌, Bool-cases}
use mathlib.Core.Logic.{inl, inr}
use cargoship.Prelude.Int.{ℤ, pos, negsuc, pos_part, neg_part, deviation}

-- 2 ^ 63 - 1, 2 ^ 64 - 1 and 10 ^ 9.
abbrev pub max_int64 : ℕ
max_int64 = 9223372036854775807

abbrev max_uint64 : ℕ
max_uint64 = 18446744073709551615

abbrev pub second : ℕ
second = 1000000000

-- -n
abbrev minus : ℕ → ℤ
minus zero = pos 0
minus (suc n) = negsuc n

abbrev clamp : ℕ → ℕ
clamp n = if leb n max_int64 then n else max_int64

-- What `Time.Sub` and `Round` make of a duration that does not fit.
unfoldable pub saturate : ℤ → ℤ
saturate (pos n) = pos (clamp n)
saturate (negsuc n) = negsuc (clamp n)

-- The wrap-around of `-` on 64 bits.
unfoldable pub wrap : ℤ → ℤ
wrap (pos n) =
    let m = n % (max_uint64 + 1) in if leb m max_int64 then pos m else negsuc (max_uint64 - m)
wrap (negsuc n) =
    let m = n % (max_uint64 + 1) in if leb m max_int64 then negsuc m else pos (max_uint64 - m)

-- a - b without bounds.
unfoldable pub difference : ℤ → ℤ → ℤ
difference a b =
    let up = pos_part a + neg_part b in
    let down = pos_part b + neg_part a in if leb down up then pos (up - down) else minus (down - up)

-- `Round(time.Second)`, halves away from zero.
nearest : ℕ → ℕ
nearest n = if ltb (2 * (n % second)) second then n - n % second else n + (second - n % second)

unfoldable pub round_second : ℤ → ℤ
unfolding nearest saturate
round_second (pos n) = saturate (pos (nearest n))
round_second (negsuc n) = saturate (minus (nearest (suc n)))

-- `Abs`, which leaves no room for -2 ^ 63.
unfoldable pub abs_duration : ℤ → ℕ
abs_duration (pos n) = n
abs_duration (negsuc n) = clamp (suc n)

-- Within 4 * 10 ^ 18 nanoseconds of zero, some 126 years.
abbrev pub IsModerate : ℤ → Type 0
IsModerate a = (pos_part a ≤ 4000000000000000000) × (neg_part a ≤ 4000000000000000000)

abbrev pub IsSmall : ℤ → Type 0
IsSmall a = (pos_part a ≤ 4000000001000000000) × (neg_part a ≤ 4000000001000000000)

nearest_near : (n : ℕ) → (nearest n ≤ n + 500000000) × (n ≤ nearest n + 500000000)
unfolding nearest
nearest_near n = ground arith

minus-parts : (n : ℕ) → (pos_part (minus n) ≡ 0) × (neg_part (minus n) ≡ n)
minus-parts zero = (refl, refl)
minus-parts (suc n) = (refl, refl)

pub saturate_small : (a : ℤ) → IsSmall a → saturate a ≡ a
unfolding saturate
saturate_small (pos n) h = ground (arith, h)
saturate_small (negsuc n) h = ground (arith, h)

near-IsSmall : (r a : ℤ) → IsModerate a → deviation r a ≤ 500000000 → IsSmall r
near-IsSmall (pos n) a h k = omega arith
near-IsSmall (negsuc n) a h k = omega arith

same_near :
    (s r a : ℤ)
    → s ≡ r
    → (deviation r a ≤ 500000000) × IsSmall r
    → (deviation s a ≤ 500000000) × IsSmall s
same_near s r a e p = rw e p

-- Rounding is off by half a second at most.
pub round_second_near :
    (a : ℤ) → IsModerate a → (deviation (round_second a) a ≤ 500000000) × IsSmall (round_second a)
unfolding round_second
round_second_near (pos n) h =
    let k : deviation (pos (nearest n)) (pos n) ≤ 500000000 = omega (arith, nearest_near n) in
    let small = near-IsSmall (pos (nearest n)) (pos n) h k in
    same_near _ _ (pos n) (saturate_small (pos (nearest n)) small) (k, small)
round_second_near (negsuc n) h =
    let k : deviation (minus (nearest (suc n))) (negsuc n) ≤ 500000000 =
      omega (arith, nearest_near (suc n), minus-parts (nearest (suc n))) in
    let small = near-IsSmall (minus (nearest (suc n))) (negsuc n) h k in
    same_near _ _ (negsuc n) (saturate_small (minus (nearest (suc n))) small) (k, small)

abs_wrap_pos : (n : ℕ) → n ≤ max_int64 → abs_duration (wrap (pos n)) ≡ n
unfolding abs_duration wrap
abs_wrap_pos n h = ground (arith, h)

abs_wrap-minus : (n : ℕ) → n ≤ max_int64 → abs_duration (wrap (minus n)) ≡ n
unfolding abs_duration wrap
abs_wrap-minus zero h = refl
abs_wrap-minus (suc n) h = ground (arith, h)

-- Where nothing wraps around, the difference of two durations is that of the numbers.
pub difference-deviation :
    (a b : ℤ) → IsSmall a → IsSmall b → abs_duration (wrap (difference a b)) ≡ deviation a b
unfolding difference
difference-deviation a b h k =
    let up = pos_part a + neg_part b in
    let down = pos_part b + neg_part a in
    elim (Bool-cases (leb down up)) [
      | inl y ↦ rw y (abs_wrap_pos (up - down) (omega arith) ∙ ground arith)
      | inr n ↦ rw n (abs_wrap-minus (down - up) (omega arith) ∙ ground arith)
    ]
