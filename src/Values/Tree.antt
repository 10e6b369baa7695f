-- ===== src/Values/Tree.antt =====
-- The values of pkg/helmvalues/values.go: reading, writing and merging. A value is a tree, so two
-- places never share a map. An integer is a sign and a magnitude; `other` is any other scalar, as
-- it prints. The keys of a `map[any]any` stand as `fmt.Sprint` prints them.
pub mod Keys
pub mod Writes
pub mod Frame
pub mod Merge
pub mod Normal
use cargoship.Prelude.{
  ℕ, zero, suc, Bool, true, false, Option, none, some, List, [], ◌∷◌, Bytes, ◌==◌, if◌then◌else◌,
}

-- The Go types that a map of values comes in: `map[string]any`, `dig.Mapping`, `map[any]any`.
pub data Kind : Type 0 where
  plain dig any_keyed : Kind

mutual
  pub data Value : Type 0 where
    null : Value
    text : Bytes → Value
    boolean : Bool → Value
    integer : Bool → ℕ → Value
    other : Bytes → Value
    mapping : Kind → Entries → Value
    items : Items → Value

  pub data Entries : Type 0 where
    end : Entries
    entry : Bytes → Value → Entries → Entries

  pub data Items : Type 0 where
    nil : Items
    cons : Value → Items → Items

-- One step of a path: a key, and the list indices behind it.
pub record PathSegment : Type 0 where
  pub key : Bytes
  pub indices : List ℕ

-- Why a path is refused, or a write along it.
pub data PathError : Type 0 where
  no_dot empty_key expected_index invalid_index negative_index index_too_large : PathError
  not_a_map not_a_list root_not_a_map : PathError

pub data Answer {ℓ} (A : Type ℓ) : Type ℓ where
  ok : A → Answer A
  fail : PathError → Answer A

abbrev pub on_ok {ℓ κ} : {A : Type ℓ} {B : Type κ} → Answer A → (A → Answer B) → Answer B
on_ok (ok a) f = f a
on_ok (fail e) f = fail e

abbrev pub and_then {ℓ κ} : {A : Type ℓ} {B : Type κ} → Option A → (A → Option B) → Option B
and_then none f = none
and_then (some a) f = f a

abbrev pub or_null : Option Value → Value
or_null none = null
or_null (some v) = v

abbrev pub same_bytes : Bytes → Bytes → Bool
same_bytes [] [] = true
same_bytes [] (d ∷ ds) = false
same_bytes (c ∷ cs) [] = false
same_bytes (c ∷ cs) (d ∷ ds) = if c == d then same_bytes cs ds else false

-- `m[k]`, with the comma-ok form's answer.
unfoldable pub lookup : Bytes → Entries → Option Value
lookup k end = none
lookup k (entry l v es) = if same_bytes l k then some v else lookup k es

-- `m[k] = v`.
unfoldable pub assign : Bytes → Value → Entries → Entries
assign k v end = entry k v end
assign k v (entry l u es) =
    let rest = assign k v es in if same_bytes l k then entry l v es else entry l u rest

unfoldable pub as_map : Value → Option Entries
as_map (mapping k es) = some es
as_map _ = none

unfoldable pub item_at : ℕ → Items → Option Value
item_at i nil = none
item_at zero (cons x xs) = some x
item_at (suc i) (cons x xs) = item_at i xs

-- Appends nulls up to the length.
unfoldable pub grow : ℕ → Items → Items
grow zero xs = xs
grow (suc n) nil = cons null (grow n nil)
grow (suc n) (cons x xs) = cons x (grow n xs)

unfoldable pub replace : ℕ → Value → Items → Items
replace i v nil = nil
replace zero v (cons x xs) = cons v xs
replace (suc i) v (cons x xs) = cons x (replace i v xs)

-- The container that a write goes on with: nothing there yet is an empty one.
unfoldable pub writable_map : Value → Option Entries
writable_map null = some end
writable_map v = as_map v

unfoldable pub writable_list : Value → Option Items
writable_list null = some nil
writable_list (items xs) = some xs
writable_list _ = none

unfoldable pub readable_list : Value → Option Items
readable_list (items xs) = some xs
readable_list _ = none

-- The loop over the indices of one segment in `GetValuePath`.
unfoldable pub get_indices : List ℕ → Value → Option Value
unfolding readable_list
get_indices [] cur = some cur
get_indices (i ∷ is) cur =
    and_then (readable_list cur) λ xs. and_then (item_at i xs) λ v. get_indices is v

-- The loop over the segments in `GetValuePath`.
unfoldable pub get_segments : List PathSegment → Value → Option Value
get_segments [] cur = some cur
get_segments (seg ∷ segs) cur = and_then (as_map cur) λ es.
    and_then (lookup seg.key es) λ v. and_then (get_indices seg.indices v) λ u. get_segments segs u

-- `setIndices`; behind the last index it goes on with `store`, which is `setSegments`.
unfoldable pub set_indices : (Value → Answer Value) → List ℕ → Value → Answer Value
set_indices store [] cur = store cur
set_indices store (i ∷ is) cur = elim (writable_list cur) [
  | none ↦ fail not_a_list
  | some xs ↦
      on_ok (set_indices store is (or_null (item_at i (grow (suc i) xs))))
        λ child. ok (items (replace i child (grow (suc i) xs)))
]

unfoldable pub set_segments : Value → List PathSegment → Value → Answer Value
set_segments val [] cur = ok val
set_segments val (seg ∷ segs) cur = elim (writable_map cur) [
  | none ↦ fail not_a_map
  | some es ↦
      on_ok (set_indices (set_segments val segs) seg.indices (or_null (lookup seg.key es)))
        λ child. ok (mapping plain (assign seg.key child es))
]

-- `mergeInto`, and what it stores for one key.
unfoldable mutual
  pub merge_into : Entries → Entries → Entries
  merge_into dst end = dst
  merge_into dst (entry k v es) = merge_into (assign k (merge_value v (lookup k dst)) dst) es

  pub merge_value : Value → Option Value → Value
  merge_value (mapping plain src) (some (mapping plain dst)) = mapping plain (merge_into dst src)
  merge_value v old = v

-- `normalizeMap`, `normalizeValue` and its loop over a list.
unfoldable mutual
  pub normalize_map : Entries → Entries
  normalize_map end = end
  normalize_map (entry k v es) = entry k (normalize_value v) (normalize_map es)

  pub normalize_value : Value → Value
  normalize_value (mapping k es) = mapping plain (normalize_map es)
  normalize_value (items xs) = items (normalize_items xs)
  normalize_value v = v

  pub normalize_items : Items → Items
  normalize_items nil = nil
  normalize_items (cons x xs) = cons (normalize_value x) (normalize_items xs)

unfoldable pub merge_values : Entries → Entries → Entries
merge_values dst src = merge_into (normalize_map dst) (normalize_map src)
