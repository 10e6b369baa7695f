-- ===== src/Receipt/Aliases.antt =====
-- The names that a redacted receipt gives to the hosts: `hostAlias` and the map of `hostAliases` of
-- internal/receipt/redact.go. A map is a list of its entries, the newest first.
pub mod Digits
pub mod Numbered
pub mod Assigned
pub mod Renaming
use Prim.Native.Char.{Char}
use Prim.Native.String.{◌++◌ as text_append}
use cargoship.Prelude.{
  ℕ, zero, suc, ◌+◌, ◌-◌, ◌*◌, ◌/◌, ◌%◌, ◌<◌, ◌≤◌, ◌≡◌, ◌≢◌, ◌⊎◌, inl, inr, refl, sym, ap, ◌∙◌,
  String, Bool, true, false, Option, none, some, List, [], ◌∷◌, arith, ltb, ◌==◌, str_eq, eq_iff,
  Bool-cases, Option-cases, if◌then◌else◌,
}

digit : ℕ → Char
digit zero = "0"
digit (suc zero) = "1"
digit (suc (suc zero)) = "2"
digit (suc (suc (suc zero))) = "3"
digit (suc (suc (suc (suc zero)))) = "4"
digit (suc (suc (suc (suc (suc zero))))) = "5"
digit (suc (suc (suc (suc (suc (suc zero)))))) = "6"
digit (suc (suc (suc (suc (suc (suc (suc zero))))))) = "7"
digit (suc (suc (suc (suc (suc (suc (suc (suc zero)))))))) = "8"
digit n = "9"

-- The decimal digits of a number before the text; the number itself is enough fuel.
unfoldable pub decimal_loop : ℕ → ℕ → String → String
unfolding digit
decimal_loop zero n acc = acc
decimal_loop (suc fuel) n acc =
    let rest = decimal_loop fuel (n / 10) (String.◌∷◌ (digit (n % 10)) acc) in
    if ltb n 10 then String.◌∷◌ (digit n) acc else rest

-- `%02d`, of a number that is not zero.
pub two_digits : ℕ → String
two_digits n =
    if ltb n 10 then String.◌∷◌ "0" (decimal_loop (suc n) n "") else decimal_loop (suc n) n ""

unfoldable pub host_alias : ℕ → String
unfolding two_digits
host_alias i = text_append "host-" (two_digits (i + 1))

-- The map, and the number of the next alias.
pub record Numbering : Type 0 where
  pub aliases : List (String × String)
  pub next : ℕ

pub find_alias : String → List (String × String) → Option String
find_alias a [] = none
find_alias a ((b, t) ∷ m) = if str_eq b a then some t else find_alias a m

-- `aliases[address]`, the empty text where there is none.
abbrev or_empty : Option String → String
or_empty none = ""
or_empty (some t) = t

unfoldable pub alias_of : String → List (String × String) → String
unfolding find_alias
alias_of a m = or_empty (find_alias a m)

-- The function `assign`, behind the test on the map.
assign_new : String → Option String → Numbering → Numbering
assign_new a (some t) s = s
assign_new a none s = record { aliases = (a, host_alias s.next) ∷ s.aliases; next = s.next + 1 }

unfoldable pub assign : String → Numbering → Numbering
unfolding assign_new find_alias
assign a s = if str_eq a "" then s else assign_new a (find_alias a s.aliases) s

abbrev pub no_aliases : Numbering
no_aliases = record { aliases = []; next = 0 }
