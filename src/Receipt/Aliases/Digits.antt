-- ===== src/Receipt/Aliases/Digits.antt =====
-- The texts of `hostAlias` of internal/receipt/redact.go.
use Prim.Native.Char.{code}
use text.Mathlib.TextLemmas.{append_cancel_left, cons≢nil, cons-append}
use cargoship.Prelude.{
  ℕ, zero, suc, ◌+◌, ◌-◌, ◌*◌, ◌/◌, ◌%◌, ◌<◌, ◌≡◌, ◌≢◌, inl, inr, refl, sym, ap, ◌∙◌, String, arith,
  ltb, Bool-cases,
}
use cargoship.Receipt.Aliases.{digit, decimal_loop, two_digits, host_alias}

code-digit : (n : ℕ) → n < 10 → code (digit n) ≡ 48 + n
unfolding digit
code-digit zero h = refl
code-digit (suc zero) h = refl
code-digit (suc (suc zero)) h = refl
code-digit (suc (suc (suc zero))) h = refl
code-digit (suc (suc (suc (suc zero)))) h = refl
code-digit (suc (suc (suc (suc (suc zero))))) h = refl
code-digit (suc (suc (suc (suc (suc (suc zero)))))) h = refl
code-digit (suc (suc (suc (suc (suc (suc (suc zero))))))) h = refl
code-digit (suc (suc (suc (suc (suc (suc (suc (suc zero)))))))) h = refl
code-digit (suc (suc (suc (suc (suc (suc (suc (suc (suc zero))))))))) h = refl
code-digit (suc (suc (suc (suc (suc (suc (suc (suc (suc (suc n)))))))))) h = absurd (omega arith)

-- What a text reads as in decimal, behind a number that was read.
abbrev read : String → ℕ → ℕ
read String.[] n = n
read (String.◌∷◌ c s) n = read s (n * 10 + (code c - 48))

read_digit :
    (d : ℕ) (s : String) (n : ℕ) → d < 10 → read (String.◌∷◌ (digit d) s) n ≡ read s (n * 10 + d)
read_digit d s n h = ap (λ k. read s (n * 10 + k)) (omega (arith, code-digit d h))

read-decimal_loop :
    (fuel n : ℕ) (acc : String) → n < fuel → read (decimal_loop fuel n acc) 0 ≡ read acc n
unfolding decimal_loop
read-decimal_loop zero n acc h = elim h [ ]
read-decimal_loop (suc fuel) n acc h = elim (Bool-cases (ltb n 10)) [
  | inl e ↦ rw e (read_digit n acc 0 (ground arith) ∙ ap (read acc) (omega arith))
  | inr e ↦ rw e (
      read-decimal_loop fuel (n / 10) (String.◌∷◌ (digit (n % 10)) acc) (ground arith)
      ∙ read_digit (n % 10) acc (n / 10) (omega arith)
      ∙ ap (read acc) (omega arith))
]

read-two_digits : (n : ℕ) → read (two_digits n) 0 ≡ n
unfolding two_digits
read-two_digits n = elim (Bool-cases (ltb n 10)) [
  | inl e ↦ rw e (read-decimal_loop (suc n) n "" (omega arith))
  | inr e ↦ rw e (read-decimal_loop (suc n) n "" (omega arith))
]

pub host_alias-inj : (i j : ℕ) → host_alias i ≡ host_alias j → i ≡ j
unfolding host_alias
host_alias-inj i j h =
    let e = append_cancel_left "host-" (two_digits (i + 1)) (two_digits (j + 1)) h in
    let k = sym (read-two_digits (i + 1)) ∙ ap (λ s. read s 0) e ∙ read-two_digits (j + 1) in
    omega arith

pub host_alias_nonempty : (i : ℕ) → host_alias i ≢ ""
unfolding host_alias
host_alias_nonempty i h = cons≢nil (sym (cons-append "h" "ost-" (two_digits (i + 1))) ∙ h)
