-- ===== src/Clustercfg/Quoting.antt =====
-- `quoteScalar` and `quotedScalarAt` of internal/clustercfg/vaultpath.go. A text is valid UTF-8, so
-- that the loop over its runes writes each byte that is not ASCII as it is.
pub mod Measures
use cargoship.Prelude.{
  ℕ, ◌+◌, ◌*◌, ◌/◌, ◌%◌, Bool, true, false, ◌&&◌, ◌||◌, Option, none, some, List, [], ◌∷◌, ◌++◌,
  Bytes, ltb, ◌==◌, if◌then◌else◌,
}

abbrev hex_digit : ℕ → ℕ
hex_digit n = if ltb n 10 then 48 + n else 87 + n

-- What is written for one byte; the hexadecimal form is `\x%02x`.
unfoldable pub quote_byte : ℕ → Bytes
quote_byte c =
    if c == 34
    then 92 ∷ 34 ∷ []
    else if c == 92
    then 92 ∷ 92 ∷ []
    else if c == 10
    then 92 ∷ 110 ∷ []
    else if c == 13
    then 92 ∷ 114 ∷ []
    else if c == 9
    then 92 ∷ 116 ∷ []
    else if ltb c 32 || c == 127
    then 92 ∷ 120 ∷ hex_digit (c / 16) ∷ hex_digit (c % 16) ∷ []
    else c ∷ []

pub quote_bytes : Bytes → Bytes
unfolding quote_byte
quote_bytes [] = []
quote_bytes (c ∷ s) = quote_byte c ++ quote_bytes s

unfoldable pub quote_scalar : Bytes → Bytes
unfolding quote_bytes
quote_scalar value = 34 ∷ (quote_bytes value ++ 34 ∷ [])

abbrev before : ℕ → Option Bytes → Option Bytes
before c none = none
before c (some s) = some (c ∷ s)

abbrev starts_with_quote : Bytes → Bool
starts_with_quote [] = false
starts_with_quote (c ∷ s) = c == 39

-- The loop; the flag says that `i++` hides the byte from it.
pub scan : ℕ → Bool → Bytes → Option Bytes
scan quote hidden [] = none
scan quote true (c ∷ s) = before c (scan quote false s)
scan quote false (c ∷ s) =
    let rest = scan quote false s in
    let past = scan quote true s in
    if c == 92
    then (if quote == 34 then before c past else before c rest)
    else if c == quote
    then (if (quote == 39) && starts_with_quote s then before c past else some (c ∷ []))
    else if c == 10
    then none
    else before c rest

unfoldable pub quoted_scalar_at : Bytes → Option Bytes
unfolding scan
quoted_scalar_at [] = none
quoted_scalar_at (quote ∷ s) =
    if (quote == 34) || (quote == 39) then before quote (scan quote false s) else none
