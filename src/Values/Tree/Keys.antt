-- ===== src/Values/Tree/Keys.antt =====
-- Keys, maps and lists of the values of pkg/helmvalues/values.go.
use cargoship.Prelude.{
  ℕ, zero, suc, ◌≡◌, ◌≢◌, ◌↔◌, refl, inl, inr, true, some, [], ◌∷◌, Bytes, Bool-cases, arith,
}
use cargoship.Values.Tree.{
  Value, Entries, end, entry, Items, nil, cons, same_bytes, or_null, lookup, assign, item_at, grow,
  replace,
}

pub same_bytes_sound : (c d : Bytes) → same_bytes c d ≡ true → c ≡ d
same_bytes_sound [] [] h = refl
same_bytes_sound [] (d ∷ ds) h = ground arith
same_bytes_sound (c ∷ cs) [] h = ground arith
same_bytes_sound (c ∷ cs) (d ∷ ds) h = ground (arith, same_bytes_sound cs ds)

pub same_bytes_refl : (c : Bytes) → same_bytes c c ≡ true
same_bytes_refl [] = refl
same_bytes_refl (c ∷ cs) = ground (arith, same_bytes_refl cs)

pub same_bytes_iff : (c d : Bytes) → (same_bytes c d ≡ true) ↔ (c ≡ d)
same_bytes_iff c d = (same_bytes_sound c d, λ e. rw e (same_bytes_refl d))

pub lookup-assign : (k : Bytes) (v : Value) (es : Entries) → lookup k (assign k v es) ≡ some v
unfolding lookup assign
lookup-assign k v end = rw (same_bytes_refl k) refl
lookup-assign k v (entry l u es) = elim (Bool-cases (same_bytes l k)) [
  | inl e ↦ rw (e, lookup) (rw e refl)
  | inr e ↦ rw (e, lookup) (rw e (lookup-assign k v es))
]

pub lookup-assign_other :
    (j k : Bytes) (v : Value) (es : Entries) → k ≢ j → lookup j (assign k v es) ≡ lookup j es
unfolding lookup assign
lookup-assign_other j k v end ne = ground (arith, same_bytes_iff k j)
lookup-assign_other j k v (entry l u es) ne =
    ground (arith, same_bytes_iff l k, same_bytes_iff l j, lookup-assign_other j k v es ne)

pub item_at-replace :
    (i : ℕ) (v : Value) (xs : Items) → item_at i (replace i v (grow (suc i) xs)) ≡ some v
unfolding item_at replace grow
item_at-replace zero v nil = refl
item_at-replace zero v (cons x xs) = refl
item_at-replace (suc i) v nil = item_at-replace i v nil
item_at-replace (suc i) v (cons x xs) = item_at-replace i v xs

pub item_at-grow : (i n : ℕ) (xs : Items) → or_null (item_at i (grow n xs)) ≡ or_null (item_at i xs)
unfolding item_at grow
item_at-grow i zero xs = refl
item_at-grow zero (suc n) nil = refl
item_at-grow (suc i) (suc n) nil = item_at-grow i n nil
item_at-grow zero (suc n) (cons x xs) = refl
item_at-grow (suc i) (suc n) (cons x xs) = item_at-grow i n xs
