-- ===== src/Cluster/Concurrency.antt =====
-- `ParseConcurrency` and `ResolveConcurrency` of api/colonel-byte.dev/v1alpha1/cluster/spec.go. A text
-- is the list of its bytes, taken to be ASCII. The total is a number of hosts, so that no product
-- leaves the range of an `int`.
mod Examples
use mathlib.Core.Path.{subst}
use cargoship.Prelude.{
  ℕ, zero, suc, ◌+◌, ◌*◌, ◌/◌, ◌≤◌, ◌<◌, ◌≡◌, refl, sym, ◌∙◌, ap, ◌⊎◌, inl, inr, max, Bool, true,
  false, ◌&&◌, ◌||◌, Option, none, some, List, [], ◌∷◌, Bytes, ltb, leb, ◌==◌, if◌then◌else◌, arith,
  Bool-cases,
}
use cargoship.Values.Text.{atoi}

pub data ConcurrencyError : Type 0 where
  invalid_percentage percentage_out_of_range invalid_count negative_count : ConcurrencyError

pub data Concurrency : Type 0 where
  batch : ℕ → Concurrency
  refused : ConcurrencyError → Concurrency

abbrev is_space : ℕ → Bool
is_space c = (c == 32) || (leb 9 c && leb c 13)

trim_left : Bytes → Bytes
trim_left [] = []
trim_left (c ∷ s) = let rest = trim_left s in if is_space c then rest else c ∷ s

trim_right : Bytes → Bytes
trim_right [] = []
trim_right (c ∷ s) = elim (trim_right s) [
  | [] ↦ if is_space c then [] else c ∷ []
  | d ∷ t ↦ c ∷ (d ∷ t)
]

-- `strings.TrimSpace`.
unfoldable pub trim_space : Bytes → Bytes
unfolding trim_left trim_right
trim_space s = trim_right (trim_left s)

-- `strings.CutSuffix(c, "%")`.
unfoldable pub cut_percent : Bytes → Option Bytes
cut_percent [] = none
cut_percent (c ∷ []) = if c == 37 then some [] else none
cut_percent (c ∷ (d ∷ s)) = elim (cut_percent (d ∷ s)) [ none ↦ none | some t ↦ some (c ∷ t) ]

-- A share of the hosts, rounded up, and one at least.
scaled : ℕ → ℕ → ℕ
scaled total v = let n = (total * v + 99) / 100 in if ltb n 1 then 1 else n

percentage : ℕ → Option (Bool × ℕ) → Concurrency
unfolding scaled
percentage total none = refused invalid_percentage
percentage total (some (true, suc v)) = refused percentage_out_of_range
percentage total (some (minus, v)) =
    if ltb 100 v then refused percentage_out_of_range else batch (scaled total v)

fixed_count : Option (Bool × ℕ) → Concurrency
fixed_count none = refused invalid_count
fixed_count (some (true, suc v)) = refused negative_count
fixed_count (some (minus, v)) = batch v

by_suffix : ℕ → Bytes → Option Bytes → Concurrency
unfolding percentage fixed_count
by_suffix total c (some pct) = percentage total (atoi (trim_space pct))
by_suffix total c none = fixed_count (atoi c)

parse_trimmed : ℕ → Bytes → Concurrency
unfolding by_suffix
parse_trimmed total [] = batch 0
parse_trimmed total (c ∷ s) = by_suffix total (c ∷ s) (cut_percent (c ∷ s))

pub parse_concurrency : Bytes → ℕ → Concurrency
unfolding parse_trimmed
parse_concurrency value total = parse_trimmed total (trim_space value)

abbrev or_fallback : Bytes → Bytes → Bytes
or_fallback [] fallback = fallback
or_fallback (c ∷ s) fallback = c ∷ s

-- The first argument is the profile's own setting.
pub resolve_concurrency : Bytes → ℕ → Bytes → Concurrency
resolve_concurrency own total fallback =
    parse_concurrency (or_fallback (trim_space own) fallback) total

-- What a percentage of the hosts may become: never 0, never more than the hosts, or one where there
-- are none, and the share rounded up unless that is less than one.
abbrev pub IsShare : ℕ → ℕ → ℕ → Type 0
IsShare total v n =
    (1 ≤ n) × (n ≤ max 1 total) × (total * v ≤ n * 100) × ((n ≡ 1) ⊎ (n * 100 < total * v + 100))

mul_le_hundred : (total v : ℕ) → v ≤ 100 → total * v ≤ total * 100
mul_le_hundred zero v h = omega arith
mul_le_hundred (suc t) v h = omega (arith, mul_le_hundred t v h)

share_lem :
    (p t : ℕ)
    → p ≤ t * 100
    → let n = (p + 99) / 100 in
      let m = if ltb n 1 then 1 else n in
      (1 ≤ m) × (m ≤ max 1 t) × (p ≤ m * 100) × ((m ≡ 1) ⊎ (m * 100 < p + 100))
share_lem p t h = ground arith

scaled-IsShare : (total v : ℕ) → v ≤ 100 → IsShare total v (scaled total v)
unfolding scaled
scaled-IsShare total v h = share_lem (total * v) total (mul_le_hundred total v h)

batch-inj : {m n : ℕ} → batch m ≡ batch n → m ≡ n
batch-inj h = ground arith

tested_lem :
    (total n v : ℕ)
    → (if ltb 100 v then refused percentage_out_of_range else batch (scaled total v)) ≡ batch n
    → (v ≤ 100) × IsShare total v n
tested_lem total n v h = elim (Bool-cases (ltb 100 v)) [
  | inl e ↦ ground (arith, e)
  | inr e ↦
      let w : v ≤ 100 = ground (arith, e) in
      let q : batch (scaled total v) ≡ batch n = ground (arith, e) in
      (w, subst (IsShare total v) (batch-inj q) (scaled-IsShare total v w))
]

percentage-IsShare :
    (total n : ℕ) (o : Option (Bool × ℕ))
    → percentage total o ≡ batch n
    → (minus : Bool) × (v : ℕ) × (o ≡ some (minus, v)) × (v ≤ 100) × IsShare total v n
unfolding percentage
percentage-IsShare total n none h = ground arith
percentage-IsShare total n (some (true, suc v)) h = ground arith
percentage-IsShare total n (some (true, zero)) h =
    let (le, share) = tested_lem total n 0 h in (true, 0, refl, le, share)
percentage-IsShare total n (some (false, v)) h =
    let (le, share) = tested_lem total n v h in (false, v, refl, le, share)

parse_trimmed-IsShare :
    (c pct : Bytes) (total n : ℕ)
    → cut_percent c ≡ some pct
    → parse_trimmed total c ≡ batch n
    → (minus : Bool) × (v : ℕ) × (atoi (trim_space pct) ≡ some (minus, v))
      × (v ≤ 100)
      × IsShare total v n
unfolding parse_trimmed cut_percent
parse_trimmed-IsShare [] pct total n p h = ground arith
parse_trimmed-IsShare (c ∷ s) pct total n p h =
    percentage-IsShare total n (atoi (trim_space pct)) (sym (ap (by_suffix total (c ∷ s)) p) ∙ h)

-- A percentage that is accepted is a number v of at most 100, and gives as batch size the share of
-- the hosts rounded up, or one where that is zero. So the size is never zero and, unless there are
-- no hosts, never more than the number of hosts.
pub parse_concurrency-IsShare :
    (value pct : Bytes) (total n : ℕ)
    → cut_percent (trim_space value) ≡ some pct
    → parse_concurrency value total ≡ batch n
    → (minus : Bool) × (v : ℕ) × (atoi (trim_space pct) ≡ some (minus, v))
      × (v ≤ 100)
      × IsShare total v n
unfolding parse_concurrency
parse_concurrency-IsShare value pct total n p h =
    parse_trimmed-IsShare (trim_space value) pct total n p h
