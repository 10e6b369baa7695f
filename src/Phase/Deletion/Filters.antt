-- ===== src/Phase/Deletion/Filters.antt =====
-- Lemmas on `Hosts.Filter`, for pkg/phase/85_delete_common.go.
use mathlib.Core.List.{reverse, reverse_aux}
use cargoship.Prelude.{
  ◌+◌, ◌≤◌, ◌≡◌, refl, ap, inl, inr, Bool, true, false, not, ◌&&◌, List, [], ◌∷◌, ◌++◌, length, All,
  Bool-cases, arith, if◌then◌else◌,
}
use cargoship.Phase.Deletion.Nodes.{Host}
use cargoship.Phase.Deletion.{filter}

pub length-filter-le : (test : Host → Bool) (hs : List Host) → length (filter test hs) ≤ length hs
unfolding filter
length-filter-le test [] = omega arith
length-filter-le test (h ∷ hs) = ground (arith, length-filter-le test hs)

-- A filter that drops nothing.
pub length-filter_whole :
    (test : Host → Bool) (hs : List Host)
    → length (filter test hs) ≡ length hs
    → All (λ h. test h ≡ true) hs
unfolding filter
length-filter_whole test [] e = tt
length-filter_whole test (h ∷ hs) e = elim (Bool-cases (test h)) [
  | inl y ↦ (y, length-filter_whole test hs (ground (arith, y, e)))
  | inr n ↦ ground (arith, n, e, length-filter-le test hs)
]

pub filter-filter :
    (p q : Host → Bool) (hs : List Host) → filter p (filter q hs) ≡ filter (λ h. q h && p h) hs
unfolding filter
filter-filter p q [] = refl
filter-filter p q (h ∷ hs) = elim (Bool-cases (q h)) [
  | inl y ↦ rw y (ap (λ r. if p h then h ∷ r else r) (filter-filter p q hs))
  | inr n ↦ rw n (filter-filter p q hs)
]

pub filter_head :
    (test : Host → Bool) (hs : List Host) {l : Host} {rest : List Host}
    → filter test hs ≡ l ∷ rest
    → (before after : List Host) × (hs ≡ before ++ l ∷ after)
      × (test l ≡ true)
      × All (λ h. test h ≡ false) before
unfolding filter
filter_head test [] e = ground (arith, e)
filter_head test (h ∷ hs) {l} {rest} e = elim (Bool-cases (test h)) [
  | inl y ↦ let q : h ≡ l = ground (arith, y, e) in ([], hs, ap (λ g. g ∷ hs) q, rw (← q) y, tt)
  | inr n ↦
      let f : filter test hs ≡ l ∷ rest = ground (arith, n, e) in
      let (before, after, p, t, none_before) = filter_head test hs f in
      (h ∷ before, after, ap (λ g. h ∷ g) p, t, (n, none_before))
]

pub length-filter_split :
    (test : Host → Bool) (hs : List Host)
    → length (filter test hs) + length (filter (λ h. not (test h)) hs) ≡ length hs
unfolding filter
length-filter_split test [] = omega arith
length-filter_split test (h ∷ hs) = elim (Bool-cases (test h)) [
  | inl y ↦ rw y (omega (arith, length-filter_split test hs))
  | inr n ↦ rw n (omega (arith, length-filter_split test hs))
]

length-filter-reverse_aux :
    (test : Host → Bool) (hs done : List Host)
    → length (filter test (reverse_aux hs done))
      ≡ length (filter test hs) + length (filter test done)
unfolding filter
length-filter-reverse_aux test [] done = omega arith
length-filter-reverse_aux test (h ∷ hs) done = elim (Bool-cases (test h)) [
  | inl y ↦ rw y (omega (arith, rw y at (length-filter-reverse_aux test hs (h ∷ done))))
  | inr n ↦ rw n (rw n at (length-filter-reverse_aux test hs (h ∷ done)))
]

pub length-filter-reverse :
    (test : Host → Bool) (hs : List Host)
    → length (filter test (reverse hs)) ≡ length (filter test hs)
unfolding filter
length-filter-reverse test hs = omega (arith, length-filter-reverse_aux test hs [])

-- A stronger test keeps no more.
pub length-filter_mono :
    (p q : Host → Bool) (hs : List Host)
    → ((h : Host) → p h ≡ true → q h ≡ true)
    → length (filter p hs) ≤ length (filter q hs)
unfolding filter
length-filter_mono p q [] imp = omega arith
length-filter_mono p q (h ∷ hs) imp = elim (Bool-cases (p h)) [
  | inl y ↦ rw (y, imp h y) (omega (arith, length-filter_mono p q hs imp))
  | inr n ↦ ground (arith, n, length-filter_mono p q hs imp)
]
