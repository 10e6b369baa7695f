-- ===== src/Clustercfg/Quoting/Measures.antt =====
-- `quoteScalar` of internal/clustercfg/vaultpath.go against its measure and a reader of YAML.
use cargoship.Prelude.{
  ℕ, ◌+◌, ◌-◌, ◌*◌, ◌/◌, ◌%◌, ◌<◌, ◌≡◌, refl, sym, ap, ◌∙◌, inl, inr, Bool, true, false, not, ◌&&◌,
  leb, ◌||◌, Option, none, some, [], ◌∷◌, ◌++◌, append-nil, append_assoc, Bytes, ltb, ◌==◌, arith,
  Bool-cases, if◌then◌else◌,
}
use cargoship.Clustercfg.Quoting.{
  hex_digit, quote_byte, quote_bytes, quote_scalar, before, scan, quoted_scalar_at,
}

abbrev behind : Bytes → Option Bytes → Option Bytes
behind [] o = o
behind (c ∷ p) o = before c (behind p o)

-- A double-quoted scalar on one line as YAML reads it: outside an escape, behind its backslash,
-- behind `\x`, and behind the first hexadecimal digit. It is read strictly: a byte that is not
-- printable ASCII ends the reading with none, unless it is a tab or belongs to a rune that is not
-- ASCII, and so do an escape other than \" \\ \n \r \t \xNN and a hexadecimal form above \x7f.
data Place : Type 0 where
  outside in_escape first_digit : Place
  second_digit : ℕ → Place

abbrev letter : ℕ → Option ℕ
letter d =
    if d == 34
    then some 34
    else if d == 92
    then some 92
    else if d == 110
    then some 10
    else if d == 114
    then some 13
    else if d == 116
    then some 9
    else none

abbrev digit_value : ℕ → Option ℕ
digit_value d =
    if leb 48 d && leb d 57
    then some (d - 48)
    else if leb 97 d && leb d 102
    then some (d - 87)
    else if leb 65 d && leb d 70
    then some (d - 55)
    else none

abbrev is_bare : ℕ → Bool
is_bare c = (c == 9) || (leb 32 c && not (c == 127))

abbrev nothing_more : Bytes → Option Bytes
nothing_more [] = some []
nothing_more (c ∷ s) = none

-- One character of an escape, before what follows.
abbrev before_some : Option ℕ → Option Bytes → Option Bytes
before_some none o = none
before_some (some c) o = before c o

abbrev both_digits : ℕ → Option ℕ → Option ℕ
both_digits n none = none
both_digits n (some m) = if ltb (n * 16 + m) 128 then some (n * 16 + m) else none

read : Place → Bytes → Option Bytes
read p [] = none
read outside (c ∷ s) =
    let rest = read outside s in
    let inside = read in_escape s in
    if c == 34
    then nothing_more s
    else if c == 92
    then inside
    else if is_bare c
    then before c rest
    else none
read in_escape (c ∷ s) =
    let rest = read outside s in
    let digits = read first_digit s in if c == 120 then digits else before_some (letter c) rest
read first_digit (c ∷ s) = elim (digit_value c) [ none ↦ none | some n ↦ read (second_digit n) s ]
read (second_digit n) (c ∷ s) = before_some (both_digits n (digit_value c)) (read outside s)

pub read_quoted : Bytes → Option Bytes
unfolding read
read_quoted [] = none
read_quoted (c ∷ s) = if c == 34 then read outside s else none

-- How a byte is written: a letter behind a backslash, the hexadecimal form, or as it is.
data IsWritten (c : ℕ) : Bytes → Type 0 where
  escaped : (d : ℕ) → (d == 120) ≡ false → letter d ≡ some c → IsWritten c (92 ∷ d ∷ [])
  in_hex :
      (hi lo n m : ℕ)
      → (hi == 92) ≡ false
      → (hi == 34) ≡ false
      → (hi == 10) ≡ false
      → (lo == 92) ≡ false
      → (lo == 34) ≡ false
      → (lo == 10) ≡ false
      → digit_value hi ≡ some n
      → digit_value lo ≡ some m
      → both_digits n (some m) ≡ some c
      → IsWritten c (92 ∷ 120 ∷ hi ∷ lo ∷ [])
  plain :
      (c == 92) ≡ false
      → (c == 34) ≡ false
      → (c == 10) ≡ false
      → is_bare c ≡ true
      → IsWritten c (c ∷ [])

hex_lem :
    (n : ℕ)
    → n < 16
    → ((hex_digit n == 92) ≡ false)
      × ((hex_digit n == 34) ≡ false)
      × ((hex_digit n == 10) ≡ false)
      × (digit_value (hex_digit n) ≡ some n)
hex_lem n h = ground arith

in_hex_lem :
    (c : ℕ) → c < 128 → IsWritten c (92 ∷ 120 ∷ hex_digit (c / 16) ∷ hex_digit (c % 16) ∷ [])
in_hex_lem c h =
    let (a, b, d, e) = hex_lem (c / 16) (omega arith) in
    let (a', b', d', e') = hex_lem (c % 16) (omega arith) in
    in_hex (hex_digit (c / 16)) (hex_digit (c % 16)) (c / 16) (c % 16) a b d a' b' d' e e'
      (ground arith)

quote_byte-IsWritten : (c : ℕ) → IsWritten c (quote_byte c)
unfolding quote_byte
quote_byte-IsWritten c = elim (Bool-cases (c == 34)) [
  | inl e ↦ rw e (escaped 34 refl (ground arith))
  | inr a ↦ elim (Bool-cases (c == 92)) [
    | inl e ↦ rw (a, e) (escaped 92 refl (ground arith))
    | inr b ↦ elim (Bool-cases (c == 10)) [
      | inl e ↦ rw (a, b, e) (escaped 110 refl (ground arith))
      | inr d ↦ elim (Bool-cases (c == 13)) [
        | inl e ↦ rw (a, b, d, e) (escaped 114 refl (ground arith))
        | inr f ↦ elim (Bool-cases (c == 9)) [
          | inl e ↦ rw (a, b, d, f, e) (escaped 116 refl (ground arith))
          | inr g ↦ elim (Bool-cases (ltb c 32 || c == 127)) [
            | inl e ↦ rw (a, b, d, f, g, e) (in_hex_lem c (ground arith))
            | inr e ↦ rw (a, b, d, f, g, e) (plain b a d (ground arith))
          ]
        ]
      ]
    ]
  ]
]

scan-IsWritten :
    (c : ℕ) (w s : Bytes) → IsWritten c w → scan 34 false (w ++ s) ≡ behind w (scan 34 false s)
unfolding scan
scan-IsWritten c w s (escaped d x l) = refl
scan-IsWritten c w s (in_hex hi lo n m a b d e f g k l x) = rw (a, b, d, e, f, g) refl
scan-IsWritten c w s (plain a b d l) = rw (a, b, d) refl

read-IsWritten :
    (c : ℕ) (w s : Bytes) → IsWritten c w → read outside (w ++ s) ≡ before c (read outside s)
unfolding read
read-IsWritten c w s (escaped d x l) = rw (x, l) refl
read-IsWritten c w s (in_hex hi lo n m a b d e f g k l x) = rw (k, l, x) refl
read-IsWritten c w s (plain a b d l) = rw (b, a, l) refl

behind_append : (p q : Bytes) (o : Option Bytes) → behind (p ++ q) o ≡ behind p (behind q o)
behind_append [] q o = refl
behind_append (c ∷ p) q o = ap (before c) (behind_append p q o)

behind-some : (p s : Bytes) → behind p (some s) ≡ some (p ++ s)
behind-some [] s = refl
behind-some (c ∷ p) s = ap (before c) (behind-some p s)

scan-quote_bytes :
    (v s : Bytes) → scan 34 false (quote_bytes v ++ s) ≡ behind (quote_bytes v) (scan 34 false s)
unfolding quote_bytes
scan-quote_bytes [] s = refl
scan-quote_bytes (c ∷ v) s =
    ap (scan 34 false) (append_assoc (quote_byte c) (quote_bytes v) s)
    ∙ scan-IsWritten c (quote_byte c) (quote_bytes v ++ s) (quote_byte-IsWritten c)
    ∙ ap (behind (quote_byte c)) (scan-quote_bytes v s)
    ∙ sym (behind_append (quote_byte c) (quote_bytes v) (scan 34 false s))

read-quote_bytes : (v s : Bytes) → read outside (quote_bytes v ++ s) ≡ behind v (read outside s)
unfolding quote_bytes
read-quote_bytes [] s = refl
read-quote_bytes (c ∷ v) s =
    ap (read outside) (append_assoc (quote_byte c) (quote_bytes v) s)
    ∙ read-IsWritten c (quote_byte c) (quote_bytes v ++ s) (quote_byte-IsWritten c)
    ∙ ap (before c) (read-quote_bytes v s)

-- Whatever the value and whatever follows it on the line, what `quoteScalar` writes is measured by
-- `quotedScalarAt` exactly; and a strict reader of double quotes, which takes no ASCII control
-- character but a tab and no escape but \" \\ \n \r \t and \x00 to \x7f, reads it back as the value.
pub quoted_scalar_at-quote_scalar :
    (value rest : Bytes)
    → (quoted_scalar_at (quote_scalar value ++ rest) ≡ some (quote_scalar value))
      × (read_quoted (quote_scalar value) ≡ some value)
unfolding quoted_scalar_at quote_scalar scan read_quoted read
quoted_scalar_at-quote_scalar value rest = (
  ap (λ t. before 34 (scan 34 false t)) (append_assoc (quote_bytes value) (34 ∷ []) rest)
      ∙ ap (before 34)
          (scan-quote_bytes value (34 ∷ rest) ∙ behind-some (quote_bytes value) (34 ∷ [])),
  read-quote_bytes value (34 ∷ []) ∙ behind-some value [] ∙ ap some (append-nil value),
)
