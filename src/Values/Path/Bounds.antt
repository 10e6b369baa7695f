-- ===== src/Values/Path/Bounds.antt =====
-- What the parser of pkg/helmvalues/values.go lets through.
use mathlib.Core.Path.{subst}
use cargoship.Prelude.{
  ℕ, zero, suc, ◌≤◌, ◌≡◌, ◌≢◌, inl, inr, Bool, true, false, Option, none, some, List, [], ◌∷◌, ◌++◌,
  All, All-append, Bytes, length, arith, Option-cases,
}
use cargoship.Values.Text.{atoi, split_escaped, split_key_indices, unescape, dot}
use cargoship.Values.Tree.{PathSegment, ok}
use cargoship.Values.Tree.Writes.{ok-inj, on_ok-inv}
use cargoship.Values.Path.{
  checked_index, bracketed, indices_loop, segment_of, parse_segment, parse_all, parse_path,
  value_path,
}

-- A key with a name, and indices that a list may be grown to.
abbrev pub InBounds : PathSegment → Type 0
InBounds seg = (seg.key ≢ []) × All (λ i. i ≤ 63) seg.indices

checked_index-le : (o : Option (Bool × ℕ)) (n : ℕ) → checked_index o ≡ ok n → n ≤ 63
unfolding checked_index
checked_index-le none n h = ground arith
checked_index-le (some (true, suc m)) n h = ground arith
checked_index-le (some (true, zero)) n h = ground arith
checked_index-le (some (false, m)) n h = ground arith

indices_loop-le :
    (fuel : ℕ) (found is : List ℕ) (s : Bytes)
    → All (λ i. i ≤ 63) found
    → indices_loop fuel found s ≡ ok is
    → All (λ i. i ≤ 63) is
unfolding indices_loop
indices_loop-le fuel found is [] a h = subst (All (λ i. i ≤ 63)) (ground arith) a
indices_loop-le zero found is (c ∷ s) a h = ground arith
indices_loop-le (suc fuel) found is (c ∷ s) a h = elim (Option-cases (bracketed (c ∷ s))) [
  | inl n ↦ ground (arith, n)
  | inr ((number, rest), n) ↦
      let (i, p, q) =
        on_ok-inv (checked_index (atoi number)) (λ i. indices_loop fuel (found ++ i ∷ []) rest) is
          (ground (arith, n)) in
      indices_loop-le fuel (found ++ i ∷ []) is rest
        (All-append (λ j. j ≤ 63) found (i ∷ []) a (checked_index-le (atoi number) i p, tt)) q
]

segment_of-InBounds :
    (key rest : Bytes) (seg : PathSegment) → segment_of key rest ≡ ok seg → InBounds seg
unfolding segment_of
segment_of-InBounds [] rest seg h = ground arith
segment_of-InBounds (c ∷ key) rest seg h =
    let (is, p, q) = on_ok-inv (indices_loop (length rest) [] rest) _ seg h in
    subst InBounds (ok-inj q) (ground arith, indices_loop-le (length rest) [] is rest tt p)

parse_all-InBounds :
    (raws : List Bytes) (segs : List PathSegment) → parse_all raws ≡ ok segs → All InBounds segs
unfolding parse_all parse_segment
parse_all-InBounds [] segs h = subst (All InBounds) (ok-inj h) tt
parse_all-InBounds (raw ∷ raws) segs h =
    let (seg, p, q) = on_ok-inv (parse_segment raw) _ segs h in
    let (more, r, t) = on_ok-inv (parse_all raws) _ segs q in
    subst (All InBounds) (ok-inj t) (
      segment_of-InBounds (unescape (split_key_indices raw).0) (split_key_indices raw).1 seg p,
      parse_all-InBounds raws more r,
    )

-- Every segment of a path that is accepted has a key that is not empty and indices of at most 63.
value_path-InBounds :
    (path : Bytes) (segs : List PathSegment) → value_path path ≡ ok segs → All InBounds segs
unfolding value_path parse_path
value_path-InBounds [] segs h = ground arith
value_path-InBounds (c ∷ []) segs h = subst (All InBounds) {x = []} (ground arith) tt
value_path-InBounds (c ∷ (d ∷ path)) segs h =
    parse_all-InBounds (split_escaped (d ∷ path) dot) segs (ground arith)
