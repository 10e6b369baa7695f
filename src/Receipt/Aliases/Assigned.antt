-- ===== src/Receipt/Aliases/Assigned.antt =====
-- The map of `hostAliases` of internal/receipt/redact.go under one more address.
use cargoship.Prelude.{
  ℕ, String, ◌≡◌, ◌≢◌, sym, ap, ◌∙◌, inl, inr, some, List, arith, str_eq, eq_iff, Bool-cases,
  Option-cases,
}
use cargoship.Receipt.Aliases.{host_alias, Numbering, find_alias, or_empty, alias_of, assign}
use cargoship.Receipt.Aliases.Digits.{host_alias_nonempty}
use cargoship.Receipt.Aliases.Numbered.{IsNumbered, find_alias_number, find_alias-inj}

-- An alias that was given stays.
pub assign_kept :
    (a b t : String) (s : Numbering)
    → find_alias a s.aliases ≡ some t
    → find_alias a (assign b s).aliases ≡ some t
unfolding assign find_alias
assign_kept a b t s h = elim (Bool-cases (str_eq b "")) [
  | inl e ↦ rw e h
  | inr e ↦ elim (Option-cases (find_alias b s.aliases)) [
    | inl n ↦ elim (Bool-cases (str_eq b a)) [
      | inl k ↦ ground (arith, eq_iff b a)
      | inr k ↦ rw (e, n, k) h
    ]
    | inr (u, n) ↦ rw (e, n) h
  ]
]

pub assign_given :
    (a : String) (s : Numbering)
    → a ≢ ""
    → (t : String) × (find_alias a (assign a s).aliases ≡ some t)
unfolding assign find_alias
assign_given a s ne = elim (Bool-cases (str_eq a "")) [
  | inl e ↦ absurd (ne (ground (arith, eq_iff a "")))
  | inr e ↦ elim (Option-cases (find_alias a s.aliases)) [
    | inl n ↦ (host_alias s.next, rw (e, n) (ground (arith, eq_iff a a)))
    | inr (u, n) ↦ (u, rw (e, n) n)
  ]
]

-- The alias of an address with an entry is not empty, and no other address has it.
pub alias_of_single :
    (m : List (String × String)) (n : ℕ)
    → IsNumbered m n
    → (a b t : String) → find_alias a m ≡ some t
    → alias_of b m ≡ alias_of a m
    → (alias_of a m ≢ "") × (b ≡ a)
unfolding alias_of
alias_of_single m n v a b t k e =
    let (i, lt, q) = find_alias_number a t m n v k in
    let full : t ≢ "" = λ z. host_alias_nonempty i (sym q ∙ z) in
    let at : or_empty (find_alias a m) ≡ t = ap or_empty k in
    (
      λ z. full (sym at ∙ z),
      elim (Option-cases (find_alias b m)) [
        | inl o ↦ absurd (full (sym at ∙ sym e ∙ ap or_empty o))
        | inr (u, o) ↦ find_alias-inj b a t m n v (o ∙ ap some (sym (ap or_empty o) ∙ e ∙ at)) k
      ],
    )
