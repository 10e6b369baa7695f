-- ===== src/Values/Tree/Normal.antt =====
-- `normalizeValue` and `MergeValues` of pkg/helmvalues/values.go.
use cargoship.Prelude.{
  ℕ, zero, suc, ◌≡◌, refl, ◌∙◌, ap, ◌⊎◌, inl, inr, Option, none, some, List, [], ◌∷◌, Bytes, arith,
  Bool-cases,
}
use cargoship.Values.Tree.{
  Kind, Value, mapping, items, Entries, end, entry, Items, nil, cons, plain, PathSegment, and_then,
  lookup, same_bytes, as_map, item_at, readable_list, get_indices, get_segments, merge_values,
  normalize_map, normalize_value, normalize_items,
}
use cargoship.Values.Tree.Merge.{
  WellMap, WellValue, WellItems, PlainMap, PlainValue, PlainItems, IsLeaf, Misses,
  get-merge_into_source, get-merge_into_kept,
}

normalized : Option Value → Option Value
normalized none = none
normalized (some v) = some (normalize_value v)

lookup-normalize_map :
    (k : Bytes) (es : Entries) → lookup k (normalize_map es) ≡ normalized (lookup k es)
unfolding lookup normalize_map normalized
lookup-normalize_map k end = refl
lookup-normalize_map k (entry l v es) = elim (Bool-cases (same_bytes l k)) [
  | inl e ↦ rw (e, lookup) refl
  | inr e ↦ rw (e, lookup) (lookup-normalize_map k es)
]

mutual
  unfolding normalize_map WellMap lookup normalized

  pub normalize_map-Well : (es : Entries) → WellMap es → WellMap (normalize_map es)
  normalize_map-Well end w = tt
  normalize_map-Well (entry k v es) (n, wv, w) = (
    lookup-normalize_map k es ∙ ap normalized n,
    normalize_value-Well v wv,
    normalize_map-Well es w,
  )

  normalize_value-Well : (v : Value) → WellValue v → WellValue (normalize_value v)
  normalize_value-Well (mapping k es) w = normalize_map-Well es w
  normalize_value-Well (items xs) w = normalize_items-Well xs w
  normalize_value-Well v w = tt

  normalize_items-Well : (xs : Items) → WellItems xs → WellItems (normalize_items xs)
  normalize_items-Well nil w = tt
  normalize_items-Well (cons x xs) (wx, w) = (normalize_value-Well x wx, normalize_items-Well xs w)

mutual
  unfolding normalize_map PlainMap

  pub normalize_map-Plain : (es : Entries) → PlainMap (normalize_map es)
  normalize_map-Plain end = tt
  normalize_map-Plain (entry k v es) = (normalize_value-Plain v, normalize_map-Plain es)

  normalize_value-Plain : (v : Value) → PlainValue (normalize_value v)
  normalize_value-Plain (mapping k es) = normalize_map-Plain es
  normalize_value-Plain (items xs) = normalize_items-Plain xs
  normalize_value-Plain v = tt

  normalize_items-Plain : (xs : Items) → PlainItems (normalize_items xs)
  normalize_items-Plain nil = tt
  normalize_items-Plain (cons x xs) = (normalize_value-Plain x, normalize_items-Plain xs)

item_at-normalize_items :
    (i : ℕ) (xs : Items) → item_at i (normalize_items xs) ≡ normalized (item_at i xs)
unfolding item_at normalize_map normalized
item_at-normalize_items zero nil = refl
item_at-normalize_items (suc i) nil = refl
item_at-normalize_items zero (cons x xs) = refl
item_at-normalize_items (suc i) (cons x xs) = item_at-normalize_items i xs

normalized-and_then :
    (f : Value → Option Value)
    → ((v : Value) → f (normalize_value v) ≡ normalized (f v))
    → (o : Option Value) → and_then (normalized o) f ≡ normalized (and_then o f)
unfolding normalized
normalized-and_then f h none = refl
normalized-and_then f h (some v) = h v

get_indices-normalize :
    (is : List ℕ) (v : Value) → get_indices is (normalize_value v) ≡ normalized (get_indices is v)
unfolding get_indices readable_list normalize_map normalized
get_indices-normalize [] v = refl
get_indices-normalize (i ∷ is) (items xs) =
    rw (item_at-normalize_items i xs, and_then)
      (normalized-and_then (get_indices is) (get_indices-normalize is) (item_at i xs))
get_indices-normalize (i ∷ is) v = refl

get_segments-normalize :
    (ps : List PathSegment) (v : Value)
    → get_segments ps (normalize_value v) ≡ normalized (get_segments ps v)
unfolding get_segments as_map normalize_map normalized
get_segments-normalize [] v = refl
get_segments-normalize (p ∷ ps) (mapping k es) =
    rw (lookup-normalize_map p.key es, and_then)
      (normalized-and_then (λ v. and_then (get_indices p.indices v) λ u. get_segments ps u)
        (λ v.
          rw (get_indices-normalize p.indices v, and_then)
            (normalized-and_then (get_segments ps) (get_segments-normalize ps)
              (get_indices p.indices v)))
        (lookup p.key es))
get_segments-normalize (p ∷ ps) v = refl

normalize_value-IsLeaf : (v : Value) → IsLeaf v → IsLeaf (normalize_value v)
unfolding normalize_map as_map
normalize_value-IsLeaf (mapping k es) h = ground arith
normalize_value-IsLeaf v h = refl

get-normalize_map :
    (ps : List PathSegment) (es : Entries) (v : Value)
    → get_segments ps (mapping plain es) ≡ some v
    → get_segments ps (mapping plain (normalize_map es)) ≡ some (normalize_value v)
unfolding normalize_map normalized
get-normalize_map ps es v h = get_segments-normalize ps (mapping plain es) ∙ ap normalized h

-- Where a path finds a value in the source that is no map, such as a list or a null, it finds in
-- the result of `MergeValues` that value with its maps converted, whatever the other map holds.
get-merge_values_source :
    (ps : List PathSegment) (dst src : Entries) (v : Value)
    → WellMap src
    → IsLeaf v
    → get_segments ps (mapping plain src) ≡ some v
    → get_segments ps (mapping plain (merge_values dst src)) ≡ some (normalize_value v)
unfolding merge_values
get-merge_values_source ps dst src v w leaf h =
    get-merge_into_source ps (normalize_map dst) (normalize_map src) (normalize_value v)
      (normalize_map-Well src w) (normalize_value-IsLeaf v leaf) (get-normalize_map ps src v h)

-- The path goes through maps of the source, of whatever Go type, up to a key that is missing.
abbrev pub Unset : List PathSegment → Entries → Type 0
Unset [] src = ⊥
Unset (p ∷ ps) src =
    (lookup p.key src ≡ none)
    ⊎ ((k : Kind) × (s : Entries) × (lookup p.key src ≡ some (mapping k s))
        × (p.indices ≡ [])
        × Unset ps s)

Unset-Misses :
    (ps : List PathSegment) (src : Entries) → Unset ps src → Misses ps (normalize_map src)
unfolding normalize_map normalized
Unset-Misses [] src m = absurd m
Unset-Misses (p ∷ ps) src (inl n) = inl (lookup-normalize_map p.key src ∙ ap normalized n)
Unset-Misses (p ∷ ps) src (inr (k, s, n, e, m)) =
    inr (normalize_map s, lookup-normalize_map p.key src ∙ ap normalized n, e, Unset-Misses ps s m)

-- Where the source sets nothing on a path, the path finds in the result of `MergeValues` what it
-- found in the other map, with its maps converted.
get-merge_values_kept :
    (ps : List PathSegment) (dst src : Entries) (v : Value)
    → WellMap src
    → Unset ps src
    → get_segments ps (mapping plain dst) ≡ some v
    → get_segments ps (mapping plain (merge_values dst src)) ≡ some (normalize_value v)
unfolding merge_values
get-merge_values_kept ps dst src v w m h =
    get-merge_into_kept ps (normalize_map dst) (normalize_map src) (normalize_value v)
      (normalize_map-Well src w) (normalize_map-Plain dst) (Unset-Misses ps src m)
      (get-normalize_map ps dst v h)
