-- ===== src/Phase/Changes/Order.antt =====
-- The order by address of `HostsChanged` of pkg/phase/00_host_changes.go.
use Prim.Native.Char.{code}
use mathlib.Core.Path.{subst}
use mathlib.Core.Option.{some-injective}
use text.Mathlib.TextEquality.{Char-path}
use cargoship.Prelude.{
  ℕ, String, ◌≡◌, ◌≢◌, refl, sym, ap, ◌∙◌, inl, inr, true, false, none, some, List, [], ◌∷◌, map,
  All, arith, ◌==◌, Bool-cases, if◌then◌else◌,
}
use cargoship.Phase.Report.{HostChange}
use cargoship.Phase.Changes.{Entry, find_entry, less, insert_entry, sort_entries, hosts_changed}

less_trans : (s t u : String) → less s t ≡ true → less t u ≡ true → less s u ≡ true
unfolding less
less_trans String.[] String.[] u h k = ground arith
less_trans String.[] (String.◌∷◌ d t) String.[] h k = ground arith
less_trans String.[] (String.◌∷◌ d t) (String.◌∷◌ e u) h k = refl
less_trans (String.◌∷◌ c s) String.[] u h k = ground arith
less_trans (String.◌∷◌ c s) (String.◌∷◌ d t) String.[] h k = ground arith
less_trans (String.◌∷◌ c s) (String.◌∷◌ d t) (String.◌∷◌ e u) h k = ground (arith, less_trans s t u)

less_asym : (s t : String) → less s t ≡ true → less t s ≡ false
unfolding less
less_asym String.[] String.[] h = ground arith
less_asym String.[] (String.◌∷◌ d t) h = refl
less_asym (String.◌∷◌ c s) String.[] h = ground arith
less_asym (String.◌∷◌ c s) (String.◌∷◌ d t) h = ground (arith, less_asym s t)

less_total : (s t : String) → less s t ≡ false → less t s ≡ false → s ≡ t
unfolding less
less_total String.[] String.[] h k = refl
less_total String.[] (String.◌∷◌ d t) h k = ground arith
less_total (String.◌∷◌ c s) String.[] h k = ground arith
less_total (String.◌∷◌ c s) (String.◌∷◌ d t) h k =
    let rest = less_total s t in
    let same : code c ≡ code d = ground arith in
    λ i. String.◌∷◌ (Char-path c d same i) (less_total s t (ground arith) (ground arith) i)

-- No entry of the list is of the host, and none has its address.
abbrev pub Apart : Entry → List Entry → Type 0
Apart e xs = All (λ x. ((x.host == e.host) ≡ false) × (x.change.host ≢ e.change.host)) xs

abbrev pub Distinct : List Entry → Type 0
Distinct [] = Unit
Distinct (e ∷ xs) = Apart e xs × Distinct xs

abbrev Below : Entry → List Entry → Type 0
Below e xs = All (λ x. less e.change.host x.change.host ≡ true) xs

abbrev Sorted : List Entry → Type 0
Sorted [] = Unit
Sorted (e ∷ xs) = Below e xs × Sorted xs

insert_entry-All :
    (P : Entry → Type 0) (e : Entry) (xs : List Entry) → P e → All P xs → All P (insert_entry e xs)
unfolding insert_entry
insert_entry-All P e [] p h = (p, tt)
insert_entry-All P e (x ∷ xs) p (q, h) = elim (Bool-cases (less e.change.host x.change.host)) [
  | inl l ↦ rw l (p, (q, h))
  | inr l ↦ rw l (q, insert_entry-All P e xs p h)
]

insert_entry-Distinct :
    (e : Entry) (xs : List Entry) → Apart e xs → Distinct xs → Distinct (insert_entry e xs)
unfolding insert_entry
insert_entry-Distinct e [] a d = (tt, tt)
insert_entry-Distinct e (x ∷ xs) ((n, m), a) (b, d) =
    elim (Bool-cases (less e.change.host x.change.host)) [
      | inl l ↦ rw l (((n, m), a), (b, d))
      | inr l ↦ rw l (
        insert_entry-All (λ z. ((z.host == x.host) ≡ false) × (z.change.host ≢ x.change.host)) e xs
            (ground arith, λ q. m (sym q)) b,
        insert_entry-Distinct e xs a d,
      )
    ]

Below-trans :
    (e x : Entry) (xs : List Entry)
    → less e.change.host x.change.host ≡ true
    → Below x xs
    → Below e xs
Below-trans e x [] h b = tt
Below-trans e x (y ∷ ys) h (k, b) =
    (less_trans e.change.host x.change.host y.change.host h k, Below-trans e x ys h b)

insert_entry-Sorted :
    (e : Entry) (xs : List Entry) → Apart e xs → Sorted xs → Sorted (insert_entry e xs)
unfolding insert_entry
insert_entry-Sorted e [] a d = (tt, tt)
insert_entry-Sorted e (x ∷ xs) ((n, m), a) (b, d) =
    elim (Bool-cases (less e.change.host x.change.host)) [
      | inl l ↦ rw l ((l, Below-trans e x xs l b), (b, d))
      | inr l ↦ elim (Bool-cases (less x.change.host e.change.host)) [
        | inl g ↦ rw l (
          insert_entry-All (λ z. less x.change.host z.change.host ≡ true) e xs g b,
          insert_entry-Sorted e xs a d,
        )
        | inr g ↦ absurd (m (less_total x.change.host e.change.host g l))
      ]
    ]

find-insert_entry :
    (h : ℕ) (e : Entry) (xs : List Entry)
    → Apart e xs
    → find_entry h (insert_entry e xs) ≡ find_entry h (e ∷ xs)
unfolding insert_entry find_entry
find-insert_entry h e [] a = refl
find-insert_entry h e (x ∷ xs) ((n, m), a) = elim (Bool-cases (less e.change.host x.change.host)) [
  | inl l ↦ rw l refl
  | inr l ↦ rw (l, find-insert_entry h e xs a) (ground (arith, n))
]

sort_entries-All : (P : Entry → Type 0) (xs : List Entry) → All P xs → All P (sort_entries xs)
unfolding sort_entries
sort_entries-All P [] h = tt
sort_entries-All P (x ∷ xs) (p, h) =
    insert_entry-All P x (sort_entries xs) p (sort_entries-All P xs h)

sort_entries-Apart : (e : Entry) (xs : List Entry) → Apart e xs → Apart e (sort_entries xs)
sort_entries-Apart e xs a =
    sort_entries-All (λ x. ((x.host == e.host) ≡ false) × (x.change.host ≢ e.change.host)) xs a

sort_entries-Distinct : (xs : List Entry) → Distinct xs → Distinct (sort_entries xs)
unfolding sort_entries
sort_entries-Distinct [] d = tt
sort_entries-Distinct (x ∷ xs) (a, d) =
    insert_entry-Distinct x (sort_entries xs) (sort_entries-Apart x xs a)
      (sort_entries-Distinct xs d)

sort_entries-Sorted : (xs : List Entry) → Distinct xs → Sorted (sort_entries xs)
unfolding sort_entries
sort_entries-Sorted [] d = tt
sort_entries-Sorted (x ∷ xs) (a, d) =
    insert_entry-Sorted x (sort_entries xs) (sort_entries-Apart x xs a) (sort_entries-Sorted xs d)

find-sort_entries :
    (h : ℕ) (xs : List Entry) → Distinct xs → find_entry h (sort_entries xs) ≡ find_entry h xs
unfolding sort_entries find_entry
find-sort_entries h [] d = refl
find-sort_entries h (x ∷ xs) (a, d) =
    find-insert_entry h x (sort_entries xs) (sort_entries-Apart x xs a)
    ∙ ap (λ o. if x.host == h then some x.change else o) (find-sort_entries h xs d)

find-Apart : (e : Entry) (xs : List Entry) → Apart e xs → find_entry e.host xs ≡ none
unfolding find_entry
find-Apart e [] a = refl
find-Apart e (x ∷ xs) ((n, m), a) = rw n (find-Apart e xs a)

find-Below :
    (e : Entry) (h : ℕ) (c : HostChange) (xs : List Entry)
    → Below e xs
    → find_entry h xs ≡ some c
    → less e.change.host c.host ≡ true
unfolding find_entry
find-Below e h c [] b k = ground arith
find-Below e h c (x ∷ xs) (l, b) k = elim (Bool-cases (x.host == h)) [
  | inl y ↦
      subst (λ d. less e.change.host d.host ≡ true)
        (some-injective x.change c
          (subst (λ t. (if t then some x.change else find_entry h xs) ≡ some c) y k))
        l
  | inr n ↦ find-Below e h c xs b (ground (arith, n))
]

-- What the two heads are, where the two lists are one map.
module _ (x y : Entry) (xs ys : List Entry) (h : ℕ)
    (f : find_entry h (x ∷ xs) ≡ find_entry h (y ∷ ys)) where
  heads_equal : (x.host == h) ≡ true → (y.host == h) ≡ true → x.change ≡ y.change
  unfolding find_entry
  heads_equal a b = some-injective x.change y.change (
      subst (λ t. some x.change ≡ (if t then some y.change else find_entry h ys)) b
        (subst (λ t. (if t then some x.change else find_entry h xs) ≡ find_entry h (y ∷ ys)) a f))

  tails_equal : (x.host == h) ≡ false → (y.host == h) ≡ false → find_entry h xs ≡ find_entry h ys
  unfolding find_entry
  tails_equal a b =
      subst (λ t. find_entry h xs ≡ (if t then some y.change else find_entry h ys)) b
        (subst (λ t. (if t then some x.change else find_entry h xs) ≡ find_entry h (y ∷ ys)) a f)

  head_in_tail : (x.host == h) ≡ true → (y.host == h) ≡ false → some x.change ≡ find_entry h ys
  unfolding find_entry
  head_in_tail a b =
      subst (λ t. some x.change ≡ (if t then some y.change else find_entry h ys)) b
        (subst (λ t. (if t then some x.change else find_entry h xs) ≡ find_entry h (y ∷ ys)) a f)

rest_equal :
    (x y : Entry) (xs ys : List Entry)
    → Apart x xs
    → Apart y ys
    → x.host ≡ y.host
    → (h : ℕ) → find_entry h (x ∷ xs) ≡ find_entry h (y ∷ ys)
    → find_entry h xs ≡ find_entry h ys
rest_equal x y xs ys ax ay k h f = elim (Bool-cases (x.host == h)) [
  | inl a ↦
      let p : x.host ≡ h = ground arith in
      subst (λ j. find_entry j xs ≡ none) p (find-Apart x xs ax)
      ∙ sym (subst (λ j. find_entry j ys ≡ none) (sym k ∙ p) (find-Apart y ys ay))
  | inr a ↦ tails_equal x y xs ys h f a (ground (arith, a))
]

-- A map has one sorted list of its entries.
Sorted-unique :
    (xs ys : List Entry)
    → Distinct xs
    → Distinct ys
    → Sorted xs
    → Sorted ys
    → ((h : ℕ) → find_entry h xs ≡ find_entry h ys)
    → xs ≡ ys
unfolding find_entry
Sorted-unique [] [] dx dy sx sy f = refl
Sorted-unique [] (y ∷ ys) dx dy sx sy f = ground (arith, f y.host)
Sorted-unique (x ∷ xs) [] dx dy sx sy f = ground (arith, f x.host)
Sorted-unique (x ∷ xs) (y ∷ ys) (ax, dx) (ay, dy) (bx, sx) (by, sy) f =
    elim (Bool-cases (y.host == x.host)) [
      | inl e ↦
          let k : x.host ≡ y.host = ground arith in
          let c = heads_equal x y xs ys x.host (f x.host) (ground arith) e in
          λ i.
            record { host = k i; change = c i }
            ∷ Sorted-unique xs ys dx dy sx sy (λ h. rest_equal x y xs ys ax ay k h (f h)) i
      | inr n ↦
          let l =
            find-Below y x.host x.change ys by
              (sym (head_in_tail x y xs ys x.host (f x.host) (ground arith) n)) in
          let g = find-Below x y.host y.change xs bx (
            sym (
              head_in_tail y x ys xs y.host (sym (f y.host)) (ground arith) (ground (arith, n)))) in
          ground (arith, less_asym x.change.host y.change.host g)
    ]

-- The report does not depend on the order in which the loop over the map meets its entries.
pub hosts_changed_unique :
    (xs ys : List Entry)
    → Distinct xs
    → Distinct ys
    → ((h : ℕ) → find_entry h xs ≡ find_entry h ys)
    → hosts_changed xs ≡ hosts_changed ys
unfolding hosts_changed
hosts_changed_unique xs ys dx dy f = ap (map (λ e. e.change)) (
    Sorted-unique (sort_entries xs) (sort_entries ys) (sort_entries-Distinct xs dx)
      (sort_entries-Distinct ys dy) (sort_entries-Sorted xs dx) (sort_entries-Sorted ys dy)
      (λ h. find-sort_entries h xs dx ∙ f h ∙ sym (find-sort_entries h ys dy)))
