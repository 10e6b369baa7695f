-- ===== src/Phase/Validation/Readings.antt =====
-- From the rounded clocks that `validateClockSkew` of pkg/phase/11_validate_hosts.go compares to the
-- clocks of the hosts.
use mathlib.Core.Path.{subst}
use mathlib.Core.Option.{some-injective}
use cargoship.Prelude.{
  ℕ, ◌≤◌, ◌≡◌, sym, inl, inr, some, List, [], ◌∷◌, All, All-mono, Option-cases, arith,
}
use cargoship.Prelude.Int.{ℤ, deviation}
use cargoship.Prelude.Durations.{IsModerate, IsSmall, saturate, saturate_small, round_second_near}
use cargoship.Phase.Validation.{Host, passes, read_skew, skews_of, by_skews}
use cargoship.Phase.Validation.Clocks.{AllWithin, compare_clocks-AllWithin}

-- A clock that can be read is within 4 * 10 ^ 18 nanoseconds of the local one, some 126 years.
abbrev pub HasModerateClock : Host → Type 0
HasModerateClock h = (a : ℤ) → h.skew ≡ some a → IsModerate a

-- The clocks of two hosts can be read, and are not further apart than `d` nanoseconds.
abbrev pub ClocksWithin : ℕ → Host → Host → Type 0
ClocksWithin d g h = (a : ℤ) × (b : ℤ) × (g.skew ≡ some a) × (h.skew ≡ some b) × (deviation a b ≤ d)

read_skew_near :
    (a : ℤ) → IsModerate a → (deviation (read_skew a) a ≤ 500000000) × IsSmall (read_skew a)
unfolding read_skew
read_skew_near a h =
    let same : saturate a ≡ a = saturate_small a (omega arith) in rw same (round_second_near a h)

-- The clock of a host can be read, and its rounded difference is such.
abbrev Reads : (ℤ → Type 0) → Host → Type 0
Reads P h = (a : ℤ) × (h.skew ≡ some a) × IsModerate a × P (read_skew a)

skews_cases :
    (h : Host) (hosts : List Host) (skews : List ℤ)
    → skews_of (h ∷ hosts) ≡ some skews
    → (a : ℤ) × (rest : List ℤ) × (h.skew ≡ some a)
      × (skews_of hosts ≡ some rest)
      × (skews ≡ read_skew a ∷ rest)
unfolding skews_of
skews_cases h hosts skews e = elim (Option-cases h.skew) [
  | inl n ↦ ground (arith, rw (n, skews_of) at e)
  | inr (a, s) ↦ elim (Option-cases (skews_of hosts)) [
    | inl n ↦ ground (arith, rw (s, n, skews_of) at e)
    | inr (rest, t) ↦ (a, rest, s, t, sym (some-injective _ _ (rw (s, t, skews_of) at e)))
  ]
]

skews_of-All :
    (P : ℤ → Type 0) (hosts : List Host) (skews : List ℤ)
    → skews_of hosts ≡ some skews
    → All HasModerateClock hosts
    → All P skews
    → All (Reads P) hosts
skews_of-All P [] skews e m ps = tt
skews_of-All P (h ∷ hosts) skews e (m, ms) ps =
    let (a, rest, s, t, f) = skews_cases h hosts skews e in
    let qs : All P (read_skew a ∷ rest) = subst (All P) f ps in
    ((a, s, m a s, qs.0), skews_of-All P hosts rest t ms qs.1)

skews_of-IsSmall :
    (hosts : List Host) (skews : List ℤ)
    → skews_of hosts ≡ some skews
    → All HasModerateClock hosts
    → All IsSmall skews
unfolding skews_of
skews_of-IsSmall [] skews e m = subst (All IsSmall) (some-injective [] skews e) tt
skews_of-IsSmall (h ∷ hosts) skews e (m, ms) =
    let (a, rest, s, t, f) = skews_cases h hosts skews e in
    subst (All IsSmall) (sym f) ((read_skew_near a (m a s)).1, skews_of-IsSmall hosts rest t ms)

pair_within :
    (a b : ℤ)
    → IsModerate a
    → IsModerate b
    → deviation (read_skew a) (read_skew b) ≤ 60000000000
    → deviation a b ≤ 61000000000
pair_within a b m n h = omega (arith, (read_skew_near a m).0, (read_skew_near b n).0)

hosts_within :
    (hosts : List Host) (skews : List ℤ)
    → skews_of hosts ≡ some skews
    → All HasModerateClock hosts
    → AllWithin 60000000000 skews
    → All (λ g. All (ClocksWithin 61000000000 g) hosts) hosts
hosts_within hosts skews e ms w =
    All-mono (Reads (λ a. All (λ b. deviation a b ≤ 60000000000) skews))
      (λ g. All (ClocksWithin 61000000000 g) hosts) hosts
      (λ g (a, s, m, near).
        All-mono (Reads (λ b. deviation (read_skew a) b ≤ 60000000000)) (ClocksWithin 61000000000 g)
          hosts (λ h (b, t, n, l). (a, b, s, t, pair_within a b m n l))
          (skews_of-All (λ b. deviation (read_skew a) b ≤ 60000000000) hosts skews e ms near))
      (skews_of-All (λ a. All (λ b. deviation a b ≤ 60000000000) skews) hosts skews e ms w)

pub by_skews-ClocksWithin :
    (hosts : List Host)
    → All HasModerateClock hosts
    → by_skews (skews_of hosts) ≡ passes
    → All (λ g. All (ClocksWithin 61000000000 g) hosts) hosts
unfolding by_skews
by_skews-ClocksWithin hosts ms h = elim (Option-cases (skews_of hosts)) [
  | inl n ↦ ground (arith, rw (n, by_skews) at h)
  | inr (skews, e) ↦
      hosts_within hosts skews e ms
        (compare_clocks-AllWithin skews (skews_of-IsSmall hosts skews e ms) (rw (e, by_skews) at h))
]
