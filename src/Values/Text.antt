-- ===== src/Values/Text.antt =====
-- The scans over the text of a path in pkg/helmvalues/values.go. A text is the list of its bytes;
-- it is taken to be valid UTF-8, so that a loop over runes meets the same ASCII bytes.
pub mod Escapes
pub mod Numbers
use cargoship.Prelude.{
  ℕ, ◌+◌, ◌-◌, ◌*◌, ◌^◌, Bool, true, false, ◌&&◌, Option, none, some, List, [], ◌∷◌, ◌++◌, any,
  Bytes, ltb, leb, ◌==◌, if◌then◌else◌,
}

abbrev pub dot : ℕ
dot = 46

abbrev pub backslash : ℕ
backslash = 92

abbrev pub open_bracket : ℕ
open_bracket = 91

abbrev pub close_bracket : ℕ
close_bracket = 93

-- `.,[]{}=\`.
abbrev pub structural_chars : Bytes
structural_chars = 46 ∷ 44 ∷ 91 ∷ 93 ∷ 123 ∷ 125 ∷ 61 ∷ 92 ∷ []

abbrev pub is_structural : ℕ → Bool
is_structural c = any (λ d. d == c) structural_chars

-- The loop of `splitEscaped`; `cur` is the part that is being read.
split_loop : ℕ → Bool → Bytes → List Bytes → Bytes → List Bytes
split_loop sep escaped cur parts [] = parts ++ cur ∷ []
split_loop sep true cur parts (c ∷ s) = split_loop sep false (cur ++ c ∷ []) parts s
split_loop sep false cur parts (c ∷ s) = elim (c == backslash) [
  | true ↦ split_loop sep true (cur ++ c ∷ []) parts s
  | false ↦ elim (c == sep) [
    | true ↦ split_loop sep false [] (parts ++ cur ∷ []) s
    | false ↦ split_loop sep false (cur ++ c ∷ []) parts s
  ]
]

unfoldable pub split_escaped : Bytes → ℕ → List Bytes
unfolding split_loop
split_escaped s sep = split_loop sep false [] [] s

-- The loop of `unescape`, and the backslash that may be left behind it.
unescape_loop : Bool → Bytes → Bytes → Bytes
unescape_loop escaped b [] = if escaped then b ++ backslash ∷ [] else b
unescape_loop true b (c ∷ s) =
    unescape_loop false ((if is_structural c then b else b ++ backslash ∷ []) ++ c ∷ []) s
unescape_loop false b (c ∷ s) = elim (c == backslash) [
  | true ↦ unescape_loop true b s
  | false ↦ unescape_loop false (b ++ c ∷ []) s
]

unfoldable pub unescape : Bytes → Bytes
unfolding unescape_loop
unescape s = if any (λ c. c == backslash) s then unescape_loop false [] s else s

-- The loop of `splitKeyIndices`; `key` is what stands before the current byte.
key_loop : Bool → Bytes → Bytes → Bytes × Bytes
key_loop escaped key [] = (key, [])
key_loop true key (c ∷ s) = key_loop false (key ++ c ∷ []) s
key_loop false key (c ∷ s) = elim (c == backslash) [
  | true ↦ key_loop true (key ++ c ∷ []) s
  | false ↦ elim (c == open_bracket) [
    | true ↦ (key, c ∷ s)
    | false ↦ key_loop false (key ++ c ∷ []) s
  ]
]

unfoldable pub split_key_indices : Bytes → Bytes × Bytes
unfolding key_loop
split_key_indices raw = key_loop false [] raw

-- What stands before the first such byte, and behind it.
unfoldable pub cut : ℕ → Bytes → Option (Bytes × Bytes)
cut sep [] = none
cut sep (c ∷ s) = elim (c == sep) [
  | true ↦ some ([], s)
  | false ↦ elim (cut sep s) [ none ↦ none | some (before, after) ↦ some (c ∷ before, after) ]
]

digits_loop : ℕ → Bytes → Option ℕ
digits_loop n [] = some n
digits_loop n (c ∷ s) = elim (leb 48 c && leb c 57) [
  | true ↦ digits_loop (n * 10 + (c - 48)) s
  | false ↦ none
]

digits : Bytes → Option ℕ
unfolding digits_loop
digits [] = none
digits (c ∷ s) = digits_loop 0 (c ∷ s)

-- A sign, true for minus, and a magnitude in the range of a 64-bit integer.
in_range : Bool → Option ℕ → Option (Bool × ℕ)
in_range minus none = none
in_range minus (some n) =
    if ltb n (if minus then 2 ^ 63 + 1 else 2 ^ 63) then some (minus, n) else none

-- `strconv.Atoi`, which is `strconv.ParseInt` to the base 10 with 64 bits.
unfoldable pub atoi : Bytes → Option (Bool × ℕ)
unfolding in_range digits
atoi [] = none
atoi (c ∷ s) = elim (c == 45) [
  | true ↦ in_range true (digits s)
  | false ↦ in_range false (if c == 43 then digits s else digits (c ∷ s))
]
