-- ===== src/Values/Text/Numbers.antt =====
-- What `strconv.Atoi` reads from a few digits.
use cargoship.Prelude.{
  ℕ, zero, suc, ◌+◌, ◌*◌, ◌-◌, ◌≤◌, ◌<◌, ◌≡◌, refl, Bool, true, false, ◌&&◌, some, [], ◌∷◌, Bytes,
  leb, ◌==◌, length, All, arith,
}
use cargoship.Values.Text.{digits_loop, digits, in_range, atoi}

-- The value of digits behind others.
abbrev pub decimal : ℕ → Bytes → ℕ
decimal n [] = n
decimal n (c ∷ s) = decimal (n * 10 + (c - 48)) s

abbrev pub is_digit : ℕ → Bool
is_digit c = leb 48 c && leb c 57

abbrev tenfold : ℕ → ℕ → ℕ
tenfold zero b = b
tenfold (suc k) b = tenfold k (b * 10)

tenfold-le : (k b : ℕ) → b ≤ tenfold k b
tenfold-le zero b = omega arith
tenfold-le (suc k) b = omega (arith, tenfold-le k (b * 10))

digit_step : (c n b : ℕ) → is_digit c ≡ true → n < b → n * 10 + (c - 48) < b * 10
digit_step c n b d h = ground (arith, d)

decimal-lt-tenfold :
    (k n b : ℕ) (s : Bytes)
    → All (λ c. is_digit c ≡ true) s
    → length s ≤ k
    → n < b
    → decimal n s < tenfold k b
decimal-lt-tenfold k n b [] ds l h = omega (arith, tenfold-le k b)
decimal-lt-tenfold zero n b (c ∷ s) ds l h = absurd (omega arith)
decimal-lt-tenfold (suc k) n b (c ∷ s) (d, ds) l h =
    decimal-lt-tenfold k (n * 10 + (c - 48)) (b * 10) s ds (omega arith) (digit_step c n b d h)

digits_loop-decimal :
    (n : ℕ) (s : Bytes) → All (λ c. is_digit c ≡ true) s → digits_loop n s ≡ some (decimal n s)
unfolding digits_loop
digits_loop-decimal n [] ds = refl
digits_loop-decimal n (c ∷ s) (d, ds) =
    rw (d, digits_loop) (digits_loop-decimal (n * 10 + (c - 48)) s ds)

small_in_range : (n : ℕ) → n < 100000 → in_range false (some n) ≡ some (false, n)
unfolding in_range
small_in_range n h = ground arith

no_sign : (c : ℕ) → is_digit c ≡ true → ((c == 45) ≡ false) × ((c == 43) ≡ false)
no_sign c d = (ground (arith, d), ground (arith, d))

-- One to five digits are read as their value.
pub atoi-decimal :
    (s : Bytes)
    → All (λ c. is_digit c ≡ true) s
    → 1 ≤ length s
    → length s ≤ 5
    → atoi s ≡ some (false, decimal 0 s)
unfolding atoi digits
atoi-decimal [] ds l h = absurd (omega arith)
atoi-decimal (c ∷ s) (d, ds) l h =
    let (m, p) = no_sign c d in
    rw (m, atoi)
      (rw p (
        rw (digits_loop-decimal 0 (c ∷ s) (d, ds)) (
          small_in_range (decimal 0 (c ∷ s))
            (decimal-lt-tenfold 5 0 1 (c ∷ s) (d, ds) h (omega arith)))))
