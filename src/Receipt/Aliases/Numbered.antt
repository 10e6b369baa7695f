-- ===== src/Receipt/Aliases/Numbered.antt =====
-- The invariant of the map of `hostAliases` of internal/receipt/redact.go.
use native.Mathlib.Numerals.{add-one}
use cargoship.Prelude.{
  ℕ, zero, suc, ◌<◌, ◌≡◌, ◌≢◌, inl, inr, refl, sym, ◌∙◌, String, none, some, List, [], ◌∷◌, arith,
  str_eq, eq_iff, Bool-cases, Option-cases,
}
use cargoship.Receipt.Aliases.{host_alias, Numbering, find_alias, assign}
use cargoship.Receipt.Aliases.Digits.{host_alias-inj}

-- The entries are numbered from 0, each address has one entry, and no address is empty.
pub data IsNumbered : List (String × String) → ℕ → Type 0 where
  none_yet : IsNumbered [] zero
  one_more :
      (a t : String) (m : List (String × String)) (n : ℕ)
      → t ≡ host_alias n
      → a ≢ ""
      → find_alias a m ≡ none
      → IsNumbered m n
      → IsNumbered ((a, t) ∷ m) (suc n)

pub assign-IsNumbered :
    (a : String) (s : Numbering)
    → IsNumbered s.aliases s.next
    → IsNumbered (assign a s).aliases (assign a s).next
unfolding assign
assign-IsNumbered a s v = elim (Bool-cases (str_eq a "")) [
  | inl e ↦ rw e v
  | inr e ↦ elim (Option-cases (find_alias a s.aliases)) [
    | inl n ↦
        rw (e, n, add-one)
          (one_more a (host_alias s.next) s.aliases s.next refl (ground (arith, e, eq_iff a "")) n
            v)
    | inr (t, n) ↦ rw (e, n) v
  ]
]

-- The alias of an entry has a number below the next one.
pub find_alias_number :
    (a t : String) (m : List (String × String)) (n : ℕ)
    → IsNumbered m n
    → find_alias a m ≡ some t
    → (i : ℕ) × (i < n) × (t ≡ host_alias i)
unfolding find_alias
find_alias_number a t [] n none_yet h = ground arith
find_alias_number a t ((b, u) ∷ m) zero v h = elim v [ ]
find_alias_number a t ((b, u) ∷ m) (suc n) (one_more _ _ _ _ e ne f v) h =
    elim (Bool-cases (str_eq b a)) [
      | inl k ↦ (n, omega arith, ground (arith, k))
      | inr k ↦
          let (i, lt, q) = find_alias_number a t m n v (ground (arith, k)) in (i, omega arith, q)
    ]

-- Two addresses with the same alias are the same.
pub find_alias-inj :
    (a b t : String) (m : List (String × String)) (n : ℕ)
    → IsNumbered m n
    → find_alias a m ≡ some t
    → find_alias b m ≡ some t
    → a ≡ b
unfolding find_alias
find_alias-inj a b t [] n none_yet h k = ground arith
find_alias-inj a b t ((c, u) ∷ m) zero v h k = elim v [ ]
find_alias-inj a b t ((c, u) ∷ m) (suc n) (one_more _ _ _ _ e ne f v) h k =
    elim (Bool-cases (str_eq c a)) [
      | inl p ↦ elim (Bool-cases (str_eq c b)) [
        | inl q ↦ ground (arith, eq_iff c a, eq_iff c b)
        | inr q ↦ later b (ground (arith, q)) (ground (arith, p))
      ]
      | inr p ↦ elim (Bool-cases (str_eq c b)) [
        | inl q ↦ later a (ground (arith, p)) (ground (arith, q))
        | inr q ↦ find_alias-inj a b t m n v (ground (arith, p)) (ground (arith, q))
      ]
    ]
  where
    later : (d : String) → find_alias d m ≡ some t → u ≡ t → a ≡ b
    later d x y =
        let (i, lt, q) = find_alias_number d t m n v x in
        let same = host_alias-inj n i (sym e ∙ y ∙ q) in absurd (omega arith)
