-- ===== src/Values/Tree/Writes.antt =====
-- What a write along a path of pkg/helmvalues/values.go leaves to be read there.
use mathlib.Core.Path.{subst}
use cargoship.Prelude.{
  ℕ, suc, ◌≡◌, refl, ◌⊎◌, inl, inr, Option, none, some, List, [], ◌∷◌, arith, Option-cases,
}
use cargoship.Values.Tree.{
  Value, nil, null, text, boolean, integer, other, mapping, items, plain, Entries, Items, PathError,
  PathSegment, Answer, ok, fail, on_ok, and_then, or_null, lookup, as_map, item_at, grow, assign,
  replace, writable_list, writable_map, readable_list, get_indices, get_segments, set_indices,
  set_segments,
}
use cargoship.Values.Tree.Keys.{lookup-assign, item_at-grow, item_at-replace}

pub Answer-cases {ℓ} :
    {A : Type ℓ} (a : Answer A) → ((x : A) × (a ≡ ok x)) ⊎ ((e : PathError) × (a ≡ fail e))
Answer-cases (ok x) = inl (x, refl)
Answer-cases (fail e) = inr (e, refl)

pub ok-inj {ℓ} : {A : Type ℓ} {a b : A} → ok a ≡ ok b → a ≡ b
ok-inj h = ground arith

pub on_ok-inv {ℓ κ} :
    {A : Type ℓ} {B : Type κ} (a : Answer A) (f : A → Answer B) (b : B)
    → on_ok a f ≡ ok b
    → (x : A) × (a ≡ ok x) × (f x ≡ ok b)
on_ok-inv (ok x) f b h = (x, refl, h)
on_ok-inv (fail e) f b h = ground arith

-- What a write that succeeded did at one index.
pub set_indices-inv :
    (store : Value → Answer Value) (i : ℕ) (is : List ℕ) (cur v : Value)
    → set_indices store (i ∷ is) cur ≡ ok v
    → (xs : Items) × (child : Value) × (writable_list cur ≡ some xs)
      × (set_indices store is (or_null (item_at i (grow (suc i) xs))) ≡ ok child)
      × (v ≡ items (replace i child (grow (suc i) xs)))
unfolding set_indices
set_indices-inv store i is cur v h = elim (Option-cases (writable_list cur)) [
  | inl n ↦ ground (arith, n)
  | inr (xs, n) ↦
      elim (Answer-cases (set_indices store is (or_null (item_at i (grow (suc i) xs))))) [
        | inl (child, p) ↦ (xs, child, n, p, ground (arith, n, p))
        | inr (e, p) ↦ ground (arith, n, p)
      ]
]

-- And at one segment.
pub set_segments-inv :
    (val : Value) (seg : PathSegment) (segs : List PathSegment) (cur v : Value)
    → set_segments val (seg ∷ segs) cur ≡ ok v
    → (es : Entries) × (child : Value) × (writable_map cur ≡ some es)
      × (set_indices (set_segments val segs) seg.indices (or_null (lookup seg.key es)) ≡ ok child)
      × (v ≡ mapping plain (assign seg.key child es))
unfolding set_segments
set_segments-inv val seg segs cur v h = elim (Option-cases (writable_map cur)) [
  | inl n ↦ ground (arith, n)
  | inr (es, n) ↦
      elim (Answer-cases
        (set_indices (set_segments val segs) seg.indices (or_null (lookup seg.key es)))) [
          | inl (child, p) ↦ (es, child, n, p, ground (arith, n, p))
          | inr (e, p) ↦ ground (arith, n, p)
        ]
]

pub or_null-get_indices :
    (is : List ℕ) (o : Option Value)
    → or_null (get_indices is (or_null o)) ≡ or_null (and_then o (get_indices is))
unfolding get_indices readable_list
or_null-get_indices [] none = refl
or_null-get_indices (i ∷ is) none = refl
or_null-get_indices is (some v) = refl

pub some-inj : {A : Type 0} {a b : A} → some a ≡ some b → a ≡ b
some-inj h = ground arith

grown_lem :
    (i : ℕ) (is : List ℕ) (xs : Items)
    → or_null (get_indices is (or_null (item_at i (grow (suc i) xs))))
      ≡ or_null (and_then (item_at i xs) (get_indices is))
grown_lem i is xs = rw (item_at-grow i (suc i) xs) (or_null-get_indices is (item_at i xs))

-- What a write goes on with behind an index is what a read finds there, or null.
reached_lem :
    (i : ℕ) (is : List ℕ) (cur : Value) (xs : Items)
    → writable_list cur ≡ some xs
    → or_null (get_indices is (or_null (item_at i (grow (suc i) xs))))
      ≡ or_null (get_indices (i ∷ is) cur)
unfolding get_indices readable_list writable_list item_at
reached_lem i is null xs h =
    subst (λ ys. or_null (get_indices is (or_null (item_at i (grow (suc i) ys)))) ≡ null)
      (some-inj h) (grown_lem i is nil)
reached_lem i is (items ys) xs h =
    subst
      (λ zs.
        or_null (get_indices is (or_null (item_at i (grow (suc i) zs))))
        ≡ or_null (get_indices (i ∷ is) (items ys)))
      (some-inj h) (grown_lem i is ys)
reached_lem i is (text t) xs h = ground arith
reached_lem i is (boolean b) xs h = ground arith
reached_lem i is (integer b n) xs h = ground arith
reached_lem i is (other t) xs h = ground arith
reached_lem i is (mapping k es) xs h = ground arith

-- A read along the indices of a write finds what `store` left there.
pub set_indices_lem :
    (store : Value → Answer Value) (is : List ℕ) (cur v : Value)
    → set_indices store is cur ≡ ok v
    → (c : Value) × (store (or_null (get_indices is cur)) ≡ ok c) × (get_indices is v ≡ some c)
unfolding set_indices get_indices readable_list
set_indices_lem store [] cur v h = (v, h, refl)
set_indices_lem store (i ∷ is) cur v h =
    let (xs, child, n, p, e) = set_indices-inv store i is cur v h in
    let (c, r, g) = set_indices_lem store is _ child p in
    (c, rw⁻¹ (reached_lem i is cur xs n) r, rw e (rw (item_at-replace i child xs) g))

pub get-set_segments :
    (val : Value) (segs : List PathSegment) (cur v : Value)
    → set_segments val segs cur ≡ ok v
    → get_segments segs v ≡ some val
unfolding set_segments get_segments as_map
get-set_segments val [] cur v h = ground arith
get-set_segments val (seg ∷ segs) cur v h =
    let (es, child, n, p, e) = set_segments-inv val seg segs cur v h in
    let (c, r, g) = set_indices_lem (set_segments val segs) seg.indices _ child p in
    rw e (
      rw (lookup-assign seg.key child es, and_then)
        (rw (g, and_then) (get-set_segments val segs _ c r)))
