-- ===== src/Values/Path/Printing.antt =====
-- Paths that are printed from their keys, and parsed by pkg/helmvalues/values.go.
use cargoship.Prelude.{
  ℕ, ◌≡◌, ◌≢◌, refl, sym, ◌∙◌, ap, inl, inr, Bool-cases, List, [], ◌∷◌, ◌++◌, map, All, Bytes,
  arith,
}
use cargoship.Values.Text.{dot, backslash, is_structural, unescape}
use cargoship.Values.Text.Escapes.{
  join, escape, split_escaped-join, split_key_indices-escape, unescape-escape,
}
use cargoship.Values.Tree.{PathSegment, ok, on_ok}
use cargoship.Values.Path.{
  indices_loop, segment_of, parse_segment, parse_all, parse_path, value_path,
}

abbrev pub key_only : Bytes → PathSegment
key_only k = record { key = k; indices = [] }

-- A dot, and the escaped keys with dots between them.
abbrev pub print : List Bytes → Bytes
print ks = dot ∷ join dot (map escape ks)

segment_of-key : (k : Bytes) → k ≢ [] → segment_of k [] ≡ ok (key_only k)
unfolding segment_of indices_loop
segment_of-key [] ne = absurd (ne refl)
segment_of-key (c ∷ k) ne = refl

parse_segment-escape : (k : Bytes) → k ≢ [] → parse_segment (escape k) ≡ ok (key_only k)
unfolding parse_segment
parse_segment-escape k ne =
    ap (λ p. segment_of (unescape p.0) p.1) (split_key_indices-escape k)
    ∙ ap (λ x. segment_of x []) (unescape-escape k)
    ∙ segment_of-key k ne

parse_all-escape :
    (ks : List Bytes) → All (λ k. k ≢ []) ks → parse_all (map escape ks) ≡ ok (map key_only ks)
unfolding parse_all
parse_all-escape [] a = refl
parse_all-escape (k ∷ ks) (ne, a) =
    rw (parse_segment-escape k ne, on_ok) (rw (parse_all-escape ks a, on_ok) refl)

value_path-dot : (s : Bytes) → s ≢ [] → value_path (dot ∷ s) ≡ parse_path s
unfolding value_path
value_path-dot [] ne = absurd (ne refl)
value_path-dot (c ∷ s) ne = refl

escape-cons : (c : ℕ) (k : Bytes) → (d : ℕ) × (r : Bytes) × (escape (c ∷ k) ≡ d ∷ r)
escape-cons c k = elim (Bool-cases (is_structural c)) [
  | inl e ↦ (backslash, c ∷ escape k, rw e refl)
  | inr e ↦ (c, escape k, rw e refl)
]

join_nonempty : (k : Bytes) (ks : List Bytes) → k ≢ [] → join dot (map escape (k ∷ ks)) ≢ []
join_nonempty [] ks ne e = ne refl
join_nonempty (c ∷ k) [] ne e = let (d, r, q) = escape-cons c k in ground (arith, sym q ∙ e)
join_nonempty (c ∷ k) (l ∷ ks) ne e =
    let (d, r, q) = escape-cons c k in
    ground (arith, ap (λ x. x ++ (dot ∷ join dot (map escape (l ∷ ks)))) (sym q) ∙ e)

-- A path that is printed from keys, none of them empty, with a backslash before each byte of a key
-- that has a meaning in a path, is parsed to these keys, without indices.
pub value_path-print :
    (k : Bytes) (ks : List Bytes)
    → All (λ l. l ≢ []) (k ∷ ks)
    → value_path (print (k ∷ ks)) ≡ ok (map key_only (k ∷ ks))
unfolding parse_path
value_path-print k ks a =
    value_path-dot (join dot (map escape (k ∷ ks))) (join_nonempty k ks a.0)
    ∙ ap parse_all (split_escaped-join k ks)
    ∙ parse_all-escape (k ∷ ks) a
