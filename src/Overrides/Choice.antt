-- ===== src/Overrides/Choice.antt =====
-- Which override `Resolve` of pkg/fileoverride/fileoverride.go takes.
use mathlib.Core.Path.{subst}
use mathlib.Core.Option.{some-injective}
use cargoship.Prelude.{
  ◌≡◌, refl, ap, ◌⊎◌, inl, inr, Bool, true, false, not, ◌&&◌, Option, none, some, List, [], ◌∷◌,
  ◌++◌, All, Bytes, is_some, arith, Bool-cases, Option-cases,
}
use cargoship.Overrides.{
  Url, Paths, Override, OverrideError, same, has_prefix, less, parse_mapping, cut_equals,
  insert_override, sort_overrides, parse_loop, parse, parse_http_url, remainder, first_match,
  match_by, resolve_match,
}

less_trans : (s t u : Bytes) → less s t ≡ true → less t u ≡ true → less s u ≡ true
unfolding less
less_trans [] [] u h k = ground arith
less_trans [] (d ∷ t) [] h k = ground arith
less_trans [] (d ∷ t) (e ∷ u) h k = refl
less_trans (c ∷ s) [] u h k = ground arith
less_trans (c ∷ s) (d ∷ t) [] h k = ground arith
less_trans (c ∷ s) (d ∷ t) (e ∷ u) h k = ground (arith, less_trans s t u)

less_asym : (s t : Bytes) → less s t ≡ true → less t s ≡ false
unfolding less
less_asym [] [] h = ground arith
less_asym [] (d ∷ t) h = refl
less_asym (c ∷ s) [] h = ground arith
less_asym (c ∷ s) (d ∷ t) h = ground (arith, less_asym s t)

-- A longer text with the same start.
abbrev pub extends : Bytes → Bytes → Bool
extends s t = has_prefix s t && not (same s t)

less-extends : (s t : Bytes) → extends s t ≡ true → less s t ≡ true
unfolding less has_prefix same
less-extends [] [] h = ground arith
less-extends [] (d ∷ t) h = refl
less-extends (c ∷ s) [] h = ground arith
less-extends (c ∷ s) (d ∷ t) h = ground (arith, less-extends s t)

abbrev Above : Bytes → List Override → Type 0
Above s os = All (λ o. less s o.source ≡ false) os

abbrev Descending : List Override → Type 0
Descending [] = Unit
Descending (o ∷ os) = Above o.source os × Descending os

not_below : (s t u : Bytes) → less t s ≡ true → less t u ≡ false → less s u ≡ false
not_below s t u h k = elim (Bool-cases (less s u)) [
  | inl e ↦ ground (arith, less_trans t s u h e)
  | inr e ↦ e
]

Above-lower : (s t : Bytes) (os : List Override) → less t s ≡ true → Above t os → Above s os
Above-lower s t [] h a = tt
Above-lower s t (o ∷ os) h (k, a) = (not_below s t o.source h k, Above-lower s t os h a)

insert_override-Above :
    (s : Bytes) (o : Override) (os : List Override)
    → less s o.source ≡ false
    → Above s os
    → Above s (insert_override o os)
unfolding insert_override
insert_override-Above s o [] h a = (h, tt)
insert_override-Above s o (x ∷ xs) h (k, a) = elim (Bool-cases (less x.source o.source)) [
  | inl l ↦ rw l (h, (k, a))
  | inr l ↦ rw l (k, insert_override-Above s o xs h a)
]

insert_override-Descending :
    (o : Override) (os : List Override) → Descending os → Descending (insert_override o os)
unfolding insert_override
insert_override-Descending o [] d = (tt, tt)
insert_override-Descending o (x ∷ xs) (a, d) = elim (Bool-cases (less x.source o.source)) [
  | inl l ↦ rw l ((less_asym x.source o.source l, Above-lower o.source x.source xs l a), (a, d))
  | inr l ↦ rw l (insert_override-Above x.source o xs l a, insert_override-Descending o xs d)
]

sort_overrides-Descending : (os : List Override) → Descending (sort_overrides os)
unfolding sort_overrides
sort_overrides-Descending [] = tt
sort_overrides-Descending (o ∷ os) =
    insert_override-Descending o (sort_overrides os) (sort_overrides-Descending os)

abbrev Parsed : OverrideError ⊎ List Override → Type 0
Parsed (inl e) = Unit
Parsed (inr os) = Descending os

parse_loop-Parsed :
    (p : Paths) (result : List Override) (ms : List Bytes) → Parsed (parse_loop p result ms)
unfolding parse_loop
parse_loop-Parsed p result [] = sort_overrides-Descending result
parse_loop-Parsed p result (m ∷ ms) =
    elim (parse_mapping p result (cut_equals m))
      as (λ r. Parsed (elim r [ inl e ↦ inl e | inr o ↦ parse_loop p (result ++ o ∷ []) ms ])) [
        | inl e ↦ tt
        | inr o ↦ parse_loop-Parsed p (result ++ o ∷ []) ms
      ]

-- Every override that applies and has a source that starts with that of the chosen one has the same
-- source.
abbrev pub most_specific : Paths → Url → Override → List Override → Bool
most_specific p src o [] = true
most_specific p src o (x ∷ xs) =
    not (is_some (remainder p src x) && extends o.source x.source) && most_specific p src o xs

nothing_left : (b : Bool) → (not (b && false) && true) ≡ true
nothing_left true = refl
nothing_left false = refl

not_longer : (s : Bytes) → extends s s ≡ false
unfolding same
not_longer s = rw (same_self s) (dropped (has_prefix s s))
  where
    same_self : (t : Bytes) → same t t ≡ true
    same_self [] = refl
    same_self (c ∷ t) = ground (arith, same_self t)

    dropped : (b : Bool) → (b && false) ≡ false
    dropped true = refl
    dropped false = refl

below_chosen :
    (p : Paths) (src : Url) (o : Override) (os : List Override)
    → Above o.source os
    → most_specific p src o os ≡ true
below_chosen p src o [] a = refl
below_chosen p src o (x ∷ xs) (h, a) = elim (Bool-cases (extends o.source x.source)) [
  | inl e ↦ ground (arith, less-extends o.source x.source e)
  | inr e ↦ rw (e, below_chosen p src o xs a) (nothing_left (is_some (remainder p src x)))
]

first_match_specific :
    (p : Paths) (src : Url) (os : List Override) (o : Override) (r : Bytes)
    → Descending os
    → first_match p src os ≡ some (o, r)
    → most_specific p src o os ≡ true
unfolding first_match
first_match_specific p src [] o r d h = ground arith
first_match_specific p src (x ∷ xs) o r (a, d) h = elim (Option-cases (remainder p src x)) [
  | inl n ↦ rw n (
      first_match_specific p src xs o r d (
        subst
          (λ z.
            elim z as (λ y. Option (Override × Bytes)) [
              | none ↦ first_match p src xs
              | some t ↦ some (x, t)
            ]
            ≡ some (o, r))
          n h))
  | inr (t, n) ↦
      let e =
        some-injective (x, t) (o, r)
          (subst
            (λ z.
              elim z as (λ y. Option (Override × Bytes)) [
                | none ↦ first_match p src xs
                | some t ↦ some (x, t)
              ]
              ≡ some (o, r))
            n h) in
      subst (λ y. most_specific p src y (x ∷ xs) ≡ true) (ap (λ y. y.0) e)
        (rw (not_longer x.source, below_chosen p src x xs a)
          (nothing_left (is_some (remainder p src x))))
]

match_by_specific :
    (p : Paths) (os : List Override) (u : Option Url) (src : Url) (o : Override) (r : Bytes)
    → Descending os
    → u ≡ some src
    → match_by p os u ≡ some (o, r)
    → most_specific p src o os ≡ true
unfolding match_by
match_by_specific p os none src o r d k h = ground arith
match_by_specific p os (some v) src o r d k h =
    subst (λ w. most_specific p w o os ≡ true) (some-injective v src k)
      (first_match_specific p v os o r d h)

-- Of overrides that `Parse` accepted, `Resolve` takes one such that no override with a longer source
-- that starts with its source, byte for byte, applies too.
pub resolve_match_specific :
    (p : Paths) (overrides : List Bytes) (os : List Override) (text : Bytes) (src : Url)
    (o : Override) (r : Bytes)
    → parse p overrides ≡ inr os
    → parse_http_url p text ≡ some src
    → resolve_match p os text ≡ some (o, r)
    → most_specific p src o os ≡ true
unfolding parse resolve_match
resolve_match_specific p overrides os text src o r h k m =
    match_by_specific p os (parse_http_url p text) src o r
      (subst Parsed h (parse_loop-Parsed p [] overrides)) k m
