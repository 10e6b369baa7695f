-- ===== src/Receipt/Aliases/Renaming.antt =====
-- The numbering of internal/receipt/redact.go under new addresses.
use mathlib.Core.Path.{subst}
use cargoship.Prelude.{
  ◌≡◌, inl, inr, refl, ap, ◌∙◌, String, Option, none, some, List, [], ◌∷◌, arith, str_eq, eq_iff,
  Bool-cases,
}
use cargoship.Receipt.Aliases.{Numbering, find_alias, alias_of, assign_new, assign}

-- No two addresses become one, and the empty one stays.
pub record IsFaithful (rename : String → String) : Type 0 where
  pub inj : (a b : String) → rename a ≡ rename b → a ≡ b
  pub empty : rename "" ≡ ""

module _ (rename : String → String) where
  renamed_all : List (String × String) → List (String × String)
  renamed_all [] = []
  renamed_all ((a, t) ∷ m) = (rename a, t) ∷ renamed_all m

  unfoldable pub renamed : Numbering → Numbering
  unfolding renamed_all
  renamed s = record { aliases = renamed_all s.aliases; next = s.next }

module _ (rename : String → String) (f : IsFaithful rename) where
  str_eq-rename : (a b : String) → str_eq (rename a) (rename b) ≡ str_eq a b
  str_eq-rename a b = ground (arith, eq_iff (rename a) (rename b), eq_iff a b, f.inj a b)

  str_eq-empty : (a : String) → str_eq (rename a) "" ≡ str_eq a ""
  str_eq-empty a = subst (λ e. str_eq (rename a) e ≡ str_eq a "") f.empty (str_eq-rename a "")

  find_alias-renamed :
      (a : String) (m : List (String × String))
      → find_alias (rename a) (renamed_all rename m) ≡ find_alias a m
  unfolding find_alias renamed_all
  find_alias-renamed a [] = refl
  find_alias-renamed a ((b, t) ∷ m) = rw (str_eq-rename b a, find_alias-renamed a m) refl

  pub alias_of-renamed :
      (a : String) (s : Numbering)
      → alias_of (rename a) (renamed rename s).aliases ≡ alias_of a s.aliases
  unfolding alias_of renamed
  alias_of-renamed a s = rw (find_alias-renamed a s.aliases) refl

  assign_new-renamed :
      (a : String) (o : Option String) (s : Numbering)
      → assign_new (rename a) o (renamed rename s) ≡ renamed rename (assign_new a o s)
  unfolding assign_new renamed renamed_all
  assign_new-renamed a none s = refl
  assign_new-renamed a (some t) s = refl

  pub assign-renamed :
      (a : String) (s : Numbering)
      → assign (rename a) (renamed rename s) ≡ renamed rename (assign a s)
  unfolding assign renamed renamed_all
  assign-renamed a s = elim (Bool-cases (str_eq a "")) [
    | inl e ↦ rw (str_eq-empty a, e) refl
    | inr e ↦
        rw (str_eq-empty a, e)
          (ap (λ o. assign_new (rename a) o (renamed rename s)) (find_alias-renamed a s.aliases)
            ∙ assign_new-renamed a (find_alias a s.aliases) s)
  ]
