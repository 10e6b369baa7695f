-- ===== src/Phase/Validation/Clocks.antt =====
-- `validateClockSkew` of pkg/phase/11_validate_hosts.go by the differences between the clocks.
use mathlib.Core.Path.{subst}
use mathlib.Core.Option.{some-injective}
use cargoship.Prelude.{
  ℕ, zero, suc, ◌/◌, ◌≤◌, ◌<◌, ◌≡◌, ◌≢◌, refl, ◌∙◌, ap, inl, inr, false, none, some, List, [], ◌∷◌,
  All, All-mono, Bool-cases, Option, arith, ltb, length, get_elem?,
}
use cargoship.Prelude.Int.{ℤ, leb_int, deviation}
use cargoship.Prelude.Durations.{IsSmall, difference-deviation}
use cargoship.Phase.Validation.{
  passes, insert_skew, sort_skews, max_skew, exceeding, apart, report_exceeding, by_median,
  compare_clocks,
}

-- No two of the clocks are further apart than this.
abbrev pub AllWithin : ℕ → List ℤ → Type 0
AllWithin d skews = All (λ a. All (λ b. deviation a b ≤ d) skews) skews

abbrev Near : ℤ → List ℤ → Type 0
Near m skews = All (λ s. deviation s m ≤ 30000000000) skews

exceeding-zero :
    (m : ℤ) (skews : List ℤ) → IsSmall m → All IsSmall skews → exceeding m skews ≡ 0 → Near m skews
unfolding exceeding apart
exceeding-zero m [] k ks h = tt
exceeding-zero m (s ∷ skews) k (l, ls) h = elim (Bool-cases (ltb max_skew (apart s m))) [
  | inl y ↦ absurd (omega (arith, rw (y, exceeding) at h))
  | inr n ↦ (
    ground (arith, n, difference-deviation s m l k),
    exceeding-zero m skews k ls (rw (n, exceeding) at h),
  )
]

zero-exceeding :
    (m : ℤ) (skews : List ℤ) → IsSmall m → All IsSmall skews → Near m skews → exceeding m skews ≡ 0
unfolding exceeding apart
zero-exceeding m [] k ks h = refl
zero-exceeding m (s ∷ skews) k (l, ls) (h, hs) =
    let n : ltb max_skew (apart s m) ≡ false = ground (arith, h, difference-deviation s m l k) in
    rw (n, exceeding) (zero-exceeding m skews k ls hs)

triangle :
    (a b m : ℤ)
    → deviation a m ≤ 30000000000
    → deviation b m ≤ 30000000000
    → deviation a b ≤ 60000000000
triangle a b m h k = omega (arith, h, k)

flip : (a b : ℤ) → deviation a b ≡ deviation b a
flip a b = omega arith

within_of : (m : ℤ) (skews : List ℤ) → Near m skews → AllWithin 60000000000 skews
within_of m skews h =
    All-mono (λ a. deviation a m ≤ 30000000000) (λ a. All (λ b. deviation a b ≤ 60000000000) skews)
      skews
      (λ a la.
        All-mono (λ b. deviation b m ≤ 30000000000) (λ b. deviation a b ≤ 60000000000) skews
          (λ b lb. triangle a b m la lb) h)
      h

report_exceeding-passes : (n : ℕ) → report_exceeding n ≡ passes → n ≡ 0
unfolding report_exceeding
report_exceeding-passes zero h = refl
report_exceeding-passes (suc n) h = ground (arith, h)

insert_skew-All : (P : ℤ → Type 0) (s : ℤ) (ts : List ℤ) → P s → All P ts → All P (insert_skew s ts)
unfolding insert_skew
insert_skew-All P s [] p ps = (p, tt)
insert_skew-All P s (t ∷ ts) p (q, qs) = elim (Bool-cases (leb_int s t)) [
  | inl y ↦ rw y (p, (q, qs))
  | inr n ↦ rw n (q, insert_skew-All P s ts p qs)
]

sort_skews-All : (P : ℤ → Type 0) (skews : List ℤ) → All P skews → All P (sort_skews skews)
unfolding sort_skews
sort_skews-All P [] h = tt
sort_skews-All P (s ∷ skews) (p, ps) =
    insert_skew-All P s (sort_skews skews) p (sort_skews-All P skews ps)

get_elem?-some :
    (P : ℤ → Type 0) (xs : List ℤ) (i : ℕ) (m : ℤ) → get_elem? xs i ≡ some m → All P xs → P m
get_elem?-some P [] i m e h = ground (arith, e)
get_elem?-some P (x ∷ xs) zero m e (h, hs) = subst P (some-injective x m e) h
get_elem?-some P (x ∷ xs) (suc i) m e (h, hs) = get_elem?-some P xs i m e hs

by_median-passes :
    (skews : List ℤ) (o : Option ℤ)
    → All IsSmall skews
    → ((m : ℤ) → o ≡ some m → IsSmall m)
    → by_median skews o ≡ passes
    → AllWithin 60000000000 skews
unfolding by_median
by_median-passes skews none small median h = ground (arith, h)
by_median-passes skews (some m) small median h =
    within_of m skews
      (exceeding-zero m skews (median m refl) small (report_exceeding-passes (exceeding m skews) h))

-- Where the comparison of the rounded clocks passes, no two of them are more than a minute apart, if
-- all are within some 126 years of the local one.
pub compare_clocks-AllWithin :
    (skews : List ℤ)
    → All IsSmall skews
    → compare_clocks skews ≡ passes
    → AllWithin 60000000000 skews
unfolding compare_clocks
compare_clocks-AllWithin skews small h =
    by_median-passes skews (get_elem? (sort_skews skews) (length skews / 2)) small
      (λ m e.
        get_elem?-some IsSmall (sort_skews skews) (length skews / 2) m e
          (sort_skews-All IsSmall skews small))
      h

length-insert_skew : (s : ℤ) (ts : List ℤ) → length (insert_skew s ts) ≡ suc (length ts)
unfolding insert_skew
length-insert_skew s [] = refl
length-insert_skew s (t ∷ ts) = elim (Bool-cases (leb_int s t)) [
  | inl y ↦ rw y refl
  | inr n ↦ rw n (omega (arith, length-insert_skew s ts))
]

length-sort_skews : (skews : List ℤ) → length (sort_skews skews) ≡ length skews
unfolding sort_skews
length-sort_skews [] = refl
length-sort_skews (s ∷ skews) =
    omega (arith, length-insert_skew s (sort_skews skews), length-sort_skews skews)

get_elem?-All :
    (P : ℤ → Type 0) (xs : List ℤ) (i : ℕ)
    → All P xs
    → i < length xs
    → (m : ℤ) × (get_elem? xs i ≡ some m) × P m
get_elem?-All P [] i h l = absurd (omega arith)
get_elem?-All P (x ∷ xs) zero (h, hs) l = (x, refl, h)
get_elem?-All P (x ∷ xs) (suc i) (h, hs) l = get_elem?-All P xs i hs (omega arith)

-- The rounded clocks of at least one host, of which no two are more than 30 seconds apart, pass, if
-- all are within some 126 years of the local one.
pub compare_clocks-passes :
    (skews : List ℤ)
    → skews ≢ []
    → All IsSmall skews
    → AllWithin 30000000000 skews
    → compare_clocks skews ≡ passes
unfolding compare_clocks by_median report_exceeding
compare_clocks-passes [] ne small h = absurd (ne refl)
compare_clocks-passes (s ∷ skews) ne small h =
    let all : List ℤ = s ∷ skews in
    let near : All (λ m. All (λ b. deviation m b ≤ 30000000000) all) (sort_skews all) =
      sort_skews-All (λ m. All (λ b. deviation m b ≤ 30000000000) all) all h in
    let (m, e, close) =
      get_elem?-All (λ m. All (λ b. deviation m b ≤ 30000000000) all) (sort_skews all)
        (length all / 2) near (omega (arith, length-sort_skews all)) in
    let median : IsSmall m =
      get_elem?-some IsSmall (sort_skews all) (length all / 2) m e
        (sort_skews-All IsSmall all small) in
    let none_far = zero-exceeding m all median small (
      All-mono (λ b. deviation m b ≤ 30000000000) (λ b. deviation b m ≤ 30000000000) all
        (λ b l. omega (arith, l, flip m b)) close) in
    ap (by_median all) e ∙ ap report_exceeding none_far
