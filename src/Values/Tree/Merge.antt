-- ===== src/Values/Tree/Merge.antt =====
-- `mergeInto` of pkg/helmvalues/values.go.
use mathlib.Core.Path.{subst}
use cargoship.Prelude.{
  ℕ, sym, ◌≡◌, refl, ◌∙◌, ap, ◌⊎◌, inl, inr, Option, none, some, List, [], ◌∷◌, Bytes, arith,
  Bool-cases, Option-cases,
}
use cargoship.Values.Tree.{
  Value, mapping, items, Entries, end, entry, Items, nil, cons, plain, dig, any_keyed, PathSegment,
  and_then, lookup, assign, same_bytes, as_map, readable_list, get_indices, get_segments,
  merge_into, merge_value,
}
use cargoship.Values.Tree.Keys.{
  same_bytes_sound, same_bytes_iff, lookup-assign, lookup-assign_other,
}

-- No map anywhere in a value has an entry for one key twice: what a Go map is.
unfoldable mutual
  pub WellMap : Entries → Type 0
  WellMap end = Unit
  WellMap (entry k v es) = (lookup k es ≡ none) × WellValue v × WellMap es

  pub WellValue : Value → Type 0
  WellValue (mapping k es) = WellMap es
  WellValue (items xs) = WellItems xs
  WellValue v = Unit

  pub WellItems : Items → Type 0
  WellItems nil = Unit
  WellItems (cons x xs) = WellValue x × WellItems xs

pub lookup-Well :
    (k : Bytes) (es : Entries) (v : Value) → WellMap es → lookup k es ≡ some v → WellValue v
unfolding lookup WellMap
lookup-Well k end v w h = ground arith
lookup-Well k (entry l u es) v (n, wu, w) h = elim (Bool-cases (same_bytes l k)) [
  | inl e ↦ subst WellValue (ground (arith, e)) wu
  | inr e ↦ lookup-Well k es v w (ground (arith, e))
]

-- Every map in a value is a `map[string]any`.
unfoldable mutual
  pub PlainMap : Entries → Type 0
  PlainMap end = Unit
  PlainMap (entry k v es) = PlainValue v × PlainMap es

  pub PlainValue : Value → Type 0
  PlainValue (mapping plain es) = PlainMap es
  PlainValue (mapping dig es) = ⊥
  PlainValue (mapping any_keyed es) = ⊥
  PlainValue (items xs) = PlainItems xs
  PlainValue v = Unit

  pub PlainItems : Items → Type 0
  PlainItems nil = Unit
  PlainItems (cons x xs) = PlainValue x × PlainItems xs

pub lookup-Plain :
    (k : Bytes) (es : Entries) (v : Value) → PlainMap es → lookup k es ≡ some v → PlainValue v
unfolding lookup PlainMap
lookup-Plain k end v w h = ground arith
lookup-Plain k (entry l u es) v (wu, w) h = elim (Bool-cases (same_bytes l k)) [
  | inl e ↦ subst PlainValue (ground (arith, e)) wu
  | inr e ↦ lookup-Plain k es v w (ground (arith, e))
]

-- What a merge stores for one key.
abbrev merged : Option Value → Option Value → Option Value
merged old none = old
merged old (some v) = some (merge_value v old)

pub lookup-merge_into :
    (k : Bytes) (dst src : Entries)
    → WellMap src
    → lookup k (merge_into dst src) ≡ merged (lookup k dst) (lookup k src)
unfolding merge_into lookup WellMap
lookup-merge_into k dst end w = refl
lookup-merge_into k dst (entry l v es) (n, _, w) = elim (Bool-cases (same_bytes l k)) [
  | inl e ↦ rw e (
      subst
        (λ j.
          lookup j (merge_into (assign l (merge_value v (lookup l dst)) dst) es)
          ≡ some (merge_value v (lookup j dst)))
        (same_bytes_sound l k e)
        (lookup-merge_into l (assign l (merge_value v (lookup l dst)) dst) es w
          ∙ rw n (lookup-assign l (merge_value v (lookup l dst)) dst)))
  | inr e ↦ rw e (
      lookup-merge_into k (assign l (merge_value v (lookup l dst)) dst) es w
      ∙ ap (λ o. merged o (lookup k es))
          (lookup-assign_other k l (merge_value v (lookup l dst)) dst
            (ground (arith, e, same_bytes_iff l k))))
]

-- The value of the source is stored, or two maps are merged.
merge_value-cases :
    (v : Value) (old : Option Value)
    → (merge_value v old ≡ v)
      ⊎ ((s d : Entries) × (v ≡ mapping plain s)
          × (old ≡ some (mapping plain d))
          × (merge_value v old ≡ mapping plain (merge_into d s)))
unfolding merge_value
merge_value-cases (mapping plain s) (some (mapping plain d)) = inr (s, d, refl, refl, refl)
merge_value-cases v old = inl refl

-- Not a map.
abbrev pub IsLeaf : Value → Type 0
IsLeaf v = as_map v ≡ none

-- A read below a key that is there.
pub read_below :
    (p : PathSegment) (ps : List PathSegment) (es : Entries) (u : Value)
    → lookup p.key es ≡ some u
    → get_segments (p ∷ ps) (mapping plain es)
      ≡ and_then (get_indices p.indices u) λ x. get_segments ps x
unfolding get_segments as_map
read_below p ps es u n = rw (n, and_then) refl

-- The reads below one key.
below_source :
    (is : List ℕ) (ps : List PathSegment) (s d : Entries) (v : Value)
    → (get_segments ps (mapping plain s) ≡ some v
        → get_segments ps (mapping plain (merge_into d s)) ≡ some v)
    → (and_then (get_indices is (mapping plain s)) λ u. get_segments ps u) ≡ some v
    → (and_then (get_indices is (mapping plain (merge_into d s))) λ u. get_segments ps u) ≡ some v
unfolding get_indices readable_list
below_source [] ps s d v rec h = rec h
below_source (i ∷ is) ps s d v rec h = ground arith

-- Where a path finds a value in the source that is no map, it finds that value in the merge.
pub get-merge_into_source :
    (ps : List PathSegment) (dst src : Entries) (v : Value)
    → WellMap src
    → IsLeaf v
    → get_segments ps (mapping plain src) ≡ some v
    → get_segments ps (mapping plain (merge_into dst src)) ≡ some v
unfolding get_segments as_map WellMap
get-merge_into_source [] dst src v w leaf h = ground arith
get-merge_into_source (p ∷ ps) dst src v w leaf h = elim (Option-cases (lookup p.key src)) [
  | inl n ↦ ground (arith, n)
  | inr (u, n) ↦
      let h' = sym (read_below p ps src u n) ∙ h in
      rw (lookup-merge_into p.key dst src w, and_then)
        (rw (n, and_then)
          (elim (merge_value-cases u (lookup p.key dst)) [
            | inl e ↦ rw e h'
            | inr (s, d, eu, eo, em) ↦ rw em (
                below_source p.indices ps s d v
                  (get-merge_into_source ps d s v
                    (lookup-Well p.key src (mapping plain s) w (n ∙ ap some eu)) leaf)
                  (subst (λ x. (and_then (get_indices p.indices x) λ y. get_segments ps y) ≡ some v)
                    eu h'))
          ]))
]

-- Where the source has no entry on the path, or is not a map there.
abbrev pub Misses : List PathSegment → Entries → Type 0
Misses [] src = ⊥
Misses (p ∷ ps) src =
    (lookup p.key src ≡ none)
    ⊎ ((s : Entries) × (lookup p.key src ≡ some (mapping plain s)) × (p.indices ≡ []) × Misses ps s)

-- A plain value that has something below it is a map of the plain kind.
plain_map_lem :
    (ps : List PathSegment) (s : Entries) (u v : Value)
    → Misses ps s
    → PlainValue u
    → get_segments ps u ≡ some v
    → (d : Entries) × (u ≡ mapping plain d) × PlainMap d
unfolding get_segments as_map PlainMap
plain_map_lem [] s u v m pl h = absurd m
plain_map_lem (p ∷ ps) s (mapping plain d) v m pl h = (d, refl, pl)
plain_map_lem (p ∷ ps) s (mapping dig d) v m pl h = absurd pl
plain_map_lem (p ∷ ps) s (mapping any_keyed d) v m pl h = absurd pl
plain_map_lem (p ∷ ps) s u v m pl h = ground arith

-- A path that the source misses reads in the merge what it read before.
pub get-merge_into_kept :
    (ps : List PathSegment) (dst src : Entries) (v : Value)
    → WellMap src
    → PlainMap dst
    → Misses ps src
    → get_segments ps (mapping plain dst) ≡ some v
    → get_segments ps (mapping plain (merge_into dst src)) ≡ some v
unfolding get_segments get_indices as_map WellMap merge_value
get-merge_into_kept [] dst src v w pl m h = absurd m
get-merge_into_kept (p ∷ ps) dst src v w pl (inl n) h =
    rw (lookup-merge_into p.key dst src w, and_then) (rw (n, and_then) h)
get-merge_into_kept (p ∷ ps) dst src v w pl (inr (s, n, e, m)) h =
    elim (Option-cases (lookup p.key dst)) [
      | inl k ↦ ground (arith, k)
      | inr (o, k) ↦
          let h' =
            subst (λ is. (and_then (get_indices is o) λ y. get_segments ps y) ≡ some v) e
              (sym (read_below p ps dst o k) ∙ h) in
          let (d, eo, pd) = plain_map_lem ps s o v m (lookup-Plain p.key dst o pl k) h' in
          let q =
            lookup-merge_into p.key dst src w
            ∙ ap (merged (lookup p.key dst)) n
            ∙ ap (λ x. some (merge_value (mapping plain s) x)) (k ∙ ap some eo) in
          let below =
            get-merge_into_kept ps d s v (lookup-Well p.key src (mapping plain s) w n) pd m
              (subst (λ x. get_segments ps x ≡ some v) eo h') in
          read_below p ps (merge_into dst src) (mapping plain (merge_into d s)) q
          ∙ subst
              (λ is.
                (and_then (get_indices is (mapping plain (merge_into d s))) λ y. get_segments ps y)
                ≡ some v)
              (sym e) below
    ]
