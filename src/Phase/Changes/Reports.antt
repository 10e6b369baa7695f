-- ===== src/Phase/Changes/Reports.antt =====
-- The reports of two runs of one phase, by pkg/phase/00_host_changes.go.
use mathlib.Core.Path.{subst}
use mathlib.Core.Option.{none-ne-some}
use cargoship.Prelude.{
  ℕ, String, ◌≡◌, refl, sym, ap, ◌∙◌, inl, inr, false, none, some, List, [], ◌∷◌, All, arith, ◌==◌,
  Bool-cases,
}
use cargoship.Phase.Report.{HostChange}
use cargoship.Phase.Changes.{Entry, Call, find_entry, changes, hosts_changed}
use cargoship.Phase.Changes.Log.{calls_of, summary, summary_address, changes_lem}
use cargoship.Phase.Changes.Order.{Apart, Distinct, hosts_changed_unique}

-- No host of the list twice.
abbrev OneEach : List Entry → Type 0
OneEach [] = Unit
OneEach (e ∷ xs) = All (λ x. (x.host == e.host) ≡ false) xs × OneEach xs

-- What a loop over a map meets: each entry of the map once, in whatever order.
pub record IsRange (xs m : List Entry) : Type 0 where
  pub once : OneEach xs
  pub same : (h : ℕ) → find_entry h xs ≡ find_entry h m

not_again : (e : ℕ) (xs : List Entry) → All (λ x. (x.host == e) ≡ false) xs → find_entry e xs ≡ none
unfolding find_entry
not_again e [] a = refl
not_again e (x ∷ xs) (n, a) = rw n (not_again e xs a)

found_later :
    (e : Entry) (xs : List Entry) (h : ℕ) (c : HostChange)
    → All (λ x. (x.host == e.host) ≡ false) xs
    → find_entry h xs ≡ some c
    → find_entry h (e ∷ xs) ≡ some c
unfolding find_entry
found_later e xs h c a k = elim (Bool-cases (e.host == h)) [
  | inl y ↦
      let p : e.host ≡ h = ground arith in
      absurd
        (none-ne-some c (sym (subst (λ j. find_entry j xs ≡ none) p (not_again e.host xs a)) ∙ k))
  | inr n ↦ rw n k
]

found_here : (e : Entry) (xs : List Entry) → find_entry e.host (e ∷ xs) ≡ some e.change
unfolding find_entry
found_here e xs = ground arith

module _ (address : ℕ → String) (inj : (h k : ℕ) → address h ≡ address k → h ≡ k) where
  apart :
      (e : Entry) (xs : List Entry)
      → e.change.host ≡ address e.host
      → All (λ x. (x.host == e.host) ≡ false) xs
      → All (λ x. x.change.host ≡ address x.host) xs
      → Apart e xs
  apart e [] l o ls = tt
  apart e (x ∷ xs) l (n, o) (m, ls) =
      ((n, λ q. contra n (inj x.host e.host (sym m ∙ q ∙ l))), apart e xs l o ls)
    where
      contra : (x.host == e.host) ≡ false → x.host ≡ e.host → ⊥
      contra a b = ground (arith, a, b)

  labelled :
      (xs : List Entry)
      → OneEach xs
      → ((h : ℕ) (c : HostChange) → find_entry h xs ≡ some c → c.host ≡ address h)
      → All (λ e. e.change.host ≡ address e.host) xs
  labelled [] o f = tt
  labelled (e ∷ xs) (a, o) f = (
    f e.host e.change (found_here e xs),
    labelled xs o (λ h c k. f h c (found_later e xs h c a k)),
  )

  distinct :
      (xs : List Entry) → OneEach xs → All (λ e. e.change.host ≡ address e.host) xs → Distinct xs
  distinct [] o l = tt
  distinct (e ∷ xs) (a, o) (l, ls) = (apart e xs l a ls, distinct xs o ls)

  range-Distinct :
      (cs : List Call) (xs : List Entry) → IsRange xs (changes address cs) → Distinct xs
  range-Distinct cs xs r = distinct xs r.once (
      labelled xs r.once (λ h c k.
        summary_address (address h) (calls_of h cs) c
          (sym (r.same h ∙ (changes_lem address cs h).0) ∙ k)))

  -- Two runs of a phase in which each host has the same calls in the same order report the same, in
  -- the same order, however the calls for different hosts are interleaved and in whatever order the
  -- loop over the map meets its entries, provided that different hosts have different addresses.
  pub hosts_changed_same :
      (cs ds : List Call) (xs ys : List Entry)
      → ((h : ℕ) → calls_of h cs ≡ calls_of h ds)
      → IsRange xs (changes address cs)
      → IsRange ys (changes address ds)
      → hosts_changed xs ≡ hosts_changed ys
  hosts_changed_same cs ds xs ys f r t =
      hosts_changed_unique xs ys (range-Distinct cs xs r) (range-Distinct ds ys t) (λ h.
        r.same h
        ∙ (changes_lem address cs h).0
        ∙ ap (summary (address h)) (f h)
        ∙ sym (t.same h ∙ (changes_lem address ds h).0))
