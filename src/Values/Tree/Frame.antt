-- ===== src/Values/Tree/Frame.antt =====
-- What a write along a path of pkg/helmvalues/values.go leaves alone.
use mathlib.Core.Path.{subst}
use cargoship.Prelude.{
  ℕ, ◌≡◌, ◌≢◌, refl, sym, ap, ◌∙◌, ◌⊎◌, inl, inr, Option, none, some, List, [], ◌∷◌, arith,
}
use cargoship.Values.Tree.{
  Value, null, text, boolean, integer, other, mapping, items, Entries, PathSegment, ok, and_then,
  or_null, lookup, as_map, writable_map, get_indices, get_segments, set_segments,
}
use cargoship.Values.Tree.Keys.{lookup-assign, lookup-assign_other}
use cargoship.Values.Tree.Writes.{some-inj, or_null-get_indices, set_segments-inv, set_indices_lem}

-- The paths share their first segments, indices included, and then name different keys.
abbrev pub Apart : List PathSegment → List PathSegment → Type 0
Apart [] qs = ⊥
Apart (p ∷ ps) [] = ⊥
Apart (p ∷ ps) (q ∷ qs) = (p.key ≢ q.key) ⊎ ((p ≡ q) × Apart ps qs)

-- What a path reads below a map.
abbrev below : PathSegment → List PathSegment → Entries → Option Value
below q qs es =
    and_then (lookup q.key es) λ v. and_then (get_indices q.indices v) λ u. get_segments qs u

through_null :
    (ps qs : List PathSegment) (o : Option Value)
    → Apart ps qs
    → get_segments qs (or_null o) ≡ and_then o (get_segments qs)
unfolding get_segments as_map
through_null [] qs o a = absurd a
through_null (p ∷ ps) [] o a = absurd a
through_null (p ∷ ps) (q ∷ qs) none a = refl
through_null (p ∷ ps) (q ∷ qs) (some v) a = refl

deep_lem :
    (is : List ℕ) (ps qs : List PathSegment) (o : Option Value)
    → Apart ps qs
    → (and_then o λ v. and_then (get_indices is v) λ u. get_segments qs u)
      ≡ get_segments qs (or_null (get_indices is (or_null o)))
deep_lem is ps qs none a = rw (or_null-get_indices is none) (sym (through_null ps qs none a))
deep_lem is ps qs (some v) a = sym (through_null ps qs (get_indices is v) a)

-- A map that a write goes on with holds what a read finds.
readable_lem :
    (q : PathSegment) (qs : List PathSegment) (cur : Value) (es : Entries)
    → writable_map cur ≡ some es
    → get_segments (q ∷ qs) cur ≡ below q qs es
unfolding get_segments as_map writable_map lookup
readable_lem q qs null es h = subst (λ fs. none ≡ below q qs fs) (some-inj h) refl
readable_lem q qs (mapping k fs) es h = ap (below q qs) (some-inj h)
readable_lem q qs (text t) es h = ground arith
readable_lem q qs (boolean b) es h = ground arith
readable_lem q qs (integer b n) es h = ground arith
readable_lem q qs (other t) es h = ground arith
readable_lem q qs (items xs) es h = ground arith

-- A write that succeeded changes no read along a path apart from its own.
pub get-set-Apart :
    (val : Value) (ps qs : List PathSegment) (cur v : Value)
    → set_segments val ps cur ≡ ok v
    → Apart ps qs
    → get_segments qs v ≡ get_segments qs cur
unfolding get_segments as_map
get-set-Apart val [] qs cur v h a = absurd a
get-set-Apart val (p ∷ ps) [] cur v h a = absurd a
get-set-Apart val (p ∷ ps) (q ∷ qs) cur v h (inl ne) =
    let (es, child, n, s, e) = set_segments-inv val p ps cur v h in
    rw e (rw (lookup-assign_other q.key p.key child es ne) (sym (readable_lem q qs cur es n)))
get-set-Apart val (p ∷ ps) (q ∷ qs) cur v h (inr (k, a)) =
    let (es, child, n, s, e) = set_segments-inv val p ps cur v h in
    let (c, r, g) = set_indices_lem (set_segments val ps) p.indices _ child s in
    subst (λ z. get_segments (z ∷ qs) v ≡ get_segments (z ∷ qs) cur) k
      (rw e (
        rw (lookup-assign p.key child es, and_then)
          (rw (g, and_then)
            (get-set-Apart val ps qs _ c r a
              ∙ sym (deep_lem p.indices ps qs (lookup p.key es) a)
              ∙ sym (readable_lem p qs cur es n)))))
