-- ===== src/Overrides/Local/Inside.antt =====
-- The paths that `Resolve` of pkg/fileoverride/fileoverride.go returns below a directory.
use cargoship.Prelude.{
  ◌≡◌, refl, sym, ◌∙◌, inl, inr, true, false, none, some, List, [], ◌∷◌, ◌++◌, All, All-append,
  Bytes, arith, Bool-cases, if◌then◌else◌,
}
use mathlib.Core.Path.{subst}
use mathlib.Core.Option.{some-injective}
use cargoship.Overrides.{Override, same}
use cargoship.Overrides.Local.{
  dots, elements, drop_last, is_still, clean_loop, directory, join, ups, rel, escapes,
  inside_or_none, resolve_local,
}

-- A step down: neither still nor up.
abbrev pub IsStep : Bytes → Type 0
IsStep s = (is_still s ≡ false) × (same s dots ≡ false)

same_equal : (s t : Bytes) → same s t ≡ true → s ≡ t
unfolding same
same_equal [] [] h = refl
same_equal [] (d ∷ t) h = ground arith
same_equal (c ∷ s) [] h = ground arith
same_equal (c ∷ s) (d ∷ t) h =
    let e : c ≡ d = ground arith in λ i. e i ∷ same_equal s t (ground arith) i

drop_last-All : (ss : List Bytes) → All IsStep ss → All IsStep (drop_last ss)
unfolding drop_last
drop_last-All [] h = tt
drop_last-All (s ∷ []) h = tt
drop_last-All (s ∷ (t ∷ r)) (p, h) = (p, drop_last-All (t ∷ r) h)

clean_loop-All : (done rest : List Bytes) → All IsStep done → All IsStep (clean_loop done rest)
unfolding clean_loop
clean_loop-All done [] h = h
clean_loop-All done (s ∷ rest) h = elim (Bool-cases (is_still s)) [
  | inl a ↦ rw a (clean_loop-All done rest h)
  | inr a ↦ elim (Bool-cases (same s dots)) [
    | inl b ↦ rw (a, b) (clean_loop-All (drop_last done) rest (drop_last-All done h))
    | inr b ↦
        rw (a, b)
          (clean_loop-All (done ++ s ∷ []) rest (All-append IsStep done (s ∷ []) h ((a, b), tt)))
  ]
]

All-behind : (ss ts : List Bytes) → All IsStep (ss ++ ts) → All IsStep ts
All-behind [] ts h = h
All-behind (s ∷ ss) ts (p, h) = All-behind ss ts h

rel_inside :
    (dir ts : List Bytes)
    → escapes (rel dir ts) ≡ false
    → (below : List Bytes) × (ts ≡ dir ++ below)
unfolding rel escapes same
rel_inside [] ts h = (ts, refl)
rel_inside (b ∷ bs) [] h = ground arith
rel_inside (b ∷ bs) (t ∷ ts) h = elim (Bool-cases (same b t)) [
  | inl e ↦
      let (below, q) =
        rel_inside bs ts
          (subst (λ z. escapes (if z then rel bs ts else ups (b ∷ bs) ++ t ∷ ts) ≡ false) e h) in
      (below, λ i. sym (same_equal b t e) i ∷ q i)
  | inr e ↦
      ground
        (arith, subst (λ z. escapes (if z then rel bs ts else ups (b ∷ bs) ++ t ∷ ts) ≡ false) e h)
]

inside_or_none_lem :
    (dir resolved path : List Bytes)
    → All IsStep resolved
    → inside_or_none dir resolved ≡ some path
    → (below : List Bytes) × (path ≡ dir ++ below) × All IsStep below
unfolding inside_or_none
inside_or_none_lem dir resolved path a h = elim (Bool-cases (escapes (rel dir resolved))) [
  | inl e ↦ ground (arith, e)
  | inr e ↦
      let (below, q) = rel_inside dir resolved e in
      let k =
        some-injective resolved path
          (subst (λ z. (if z then none else some resolved) ≡ some path) e h) in
      (below, sym k ∙ q, All-behind dir below (subst (All IsStep) q a))
]

-- What `Resolve` returns for a directory lies in that directory: it is the directory's path with
-- further elements behind it, none of which is empty, a dot or two dots, whatever the source was.
pub resolve_local_inside :
    (o : Override) (rest : Bytes) (path : List Bytes)
    → resolve_local o rest ≡ some path
    → (below : List Bytes) × (path ≡ directory o ++ below) × All IsStep below
unfolding resolve_local join directory
resolve_local_inside o rest path h =
    inside_or_none_lem (directory o) (join (directory o) rest) path
      (clean_loop-All (directory o) (elements rest) (clean_loop-All [] (elements o.local_dir) tt)) h
