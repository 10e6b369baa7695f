-- ===== src/Phase/Validation/Unique.antt =====
-- What an accepted validation of pkg/phase/11_validate_hosts.go says of the hosts.
use cargoship.Prelude.{
  ℕ, suc, ◌≤◌, ◌≡◌, ◌≢◌, ◌⊎◌, refl, ap, inl, inr, Bool, false, not, ◌&&◌, Option, none, some, List,
  [], ◌∷◌, Bytes, All, All-mono, Bool-cases, Option-cases, arith, ltb, if◌then◌else◌,
}
use cargoship.Values.Tree.{same_bytes}
use cargoship.Values.Tree.Keys.{same_bytes_iff, same_bytes_refl}
use cargoship.Cluster.Firewall.{Nets}
use cargoship.Phase.Validation.{
  Host, ValidationError, passes, hostname_count, address_count, is_nothing, first_error,
  check_unique_hostname, check_unique_address, check_alone, check_host, check_hosts, validate_hosts,
}
use cargoship.Phase.Validation.Readings.{HasModerateClock, ClocksWithin, by_skews-ClocksWithin}

-- How many hosts of the list are counted for a host.
abbrev tally : (Host → Host → Bool) → Host → List Host → ℕ
tally hit h [] = 0
tally hit h (g ∷ hosts) = if hit g h then suc (tally hit h hosts) else tally hit h hosts

-- No host is counted for one before it that counts itself.
abbrev Exclusive : (Host → Host → Bool) → List Host → Type 0
Exclusive hit [] = Unit {0}
Exclusive hit (h ∷ hosts) =
    All (λ g. (hit h h ≡ false) ⊎ (hit g h ≡ false)) hosts × Exclusive hit hosts

tally-zero :
    (hit : Host → Host → Bool) (h : Host) (hosts : List Host)
    → tally hit h hosts ≤ 0
    → All (λ g. (hit h h ≡ false) ⊎ (hit g h ≡ false)) hosts
tally-zero hit h [] l = tt
tally-zero hit h (g ∷ hosts) l = elim (Bool-cases (hit g h)) [
  | inl y ↦ absurd (omega (arith, rw y at l))
  | inr n ↦ (inr n, tally-zero hit h hosts (rw n at l))
]

uncounted :
    (hit : Host → Host → Bool) (h : Host) (hosts : List Host)
    → hit h h ≡ false
    → All (λ g. (hit h h ≡ false) ⊎ (hit g h ≡ false)) hosts
uncounted hit h [] n = tt
uncounted hit h (g ∷ hosts) n = (inl n, uncounted hit h hosts n)

tally_drop :
    (hit : Host → Host → Bool) (x h : Host) (hosts : List Host)
    → tally hit h (x ∷ hosts) ≤ 1
    → tally hit h hosts ≤ 1
tally_drop hit x h hosts l = elim (Bool-cases (hit x h)) [
  | inl y ↦ omega (arith, rw y at l)
  | inr n ↦ rw n at l
]

tally-Exclusive :
    (hit : Host → Host → Bool) (hosts : List Host)
    → All (λ h. tally hit h hosts ≤ 1) hosts
    → Exclusive hit hosts
tally-Exclusive hit [] ls = tt
tally-Exclusive hit (x ∷ hosts) (l, ls) = (
  elim (Bool-cases (hit x x)) [
    | inl y ↦ tally-zero hit x hosts (omega (arith, rw y at l))
    | inr n ↦ uncounted hit x hosts n
  ],
  tally-Exclusive hit hosts (
      All-mono (λ h. tally hit h (x ∷ hosts) ≤ 1) (λ h. tally hit h hosts ≤ 1) hosts
        (λ h. tally_drop hit x h hosts) ls),
)

abbrev same_hostname : Host → Host → Bool
same_hostname g h = same_bytes g.read_hostname h.read_hostname

abbrev same_address : Host → Host → Bool
same_address g h =
    not (is_nothing g.private_address) && same_bytes g.private_address h.private_address

hostname_count-tally :
    (h : Host) (hosts : List Host)
    → hostname_count h.read_hostname hosts ≡ tally same_hostname h hosts
unfolding hostname_count
hostname_count-tally h [] = refl
hostname_count-tally h (g ∷ hosts) =
    ap (λ n. if same_hostname g h then suc n else n) (hostname_count-tally h hosts)

address_count-tally :
    (h : Host) (hosts : List Host)
    → address_count h.private_address hosts ≡ tally same_address h hosts
unfolding address_count
address_count-tally h [] = refl
address_count-tally h (g ∷ hosts) =
    ap (λ n. if same_address g h then suc n else n) (address_count-tally h hosts)

-- What the checks of one host give, where none fails.
abbrev Checked : Nets → Option (List Bytes) → List Host → Host → Type 0
Checked nets carried hosts h =
    (tally same_hostname h hosts ≤ 1)
    × (tally same_address h hosts ≤ 1)
    × (check_alone nets carried h ≡ none)

first_error-none :
    (a b c : Option ValidationError)
    → first_error (a ∷ (b ∷ (c ∷ []))) ≡ none
    → (a ≡ none) × (b ≡ none) × (c ≡ none)
unfolding first_error
first_error-none none none none h = (refl, refl, refl)
first_error-none none none (some e) h = ground (arith, h)
first_error-none none (some e) c h = ground (arith, h)
first_error-none (some e) b c h = ground (arith, h)

few : (n : ℕ) (e : ValidationError) → (if ltb 1 n then some e else none) ≡ none → n ≤ 1
few n e h = ground (arith, h)

host-Checked :
    (nets : Nets) (carried : Option (List Bytes)) (hosts : List Host) (h : Host)
    → check_host nets carried hosts h ≡ none
    → Checked nets carried hosts h
unfolding check_host check_unique_hostname check_unique_address
host-Checked nets carried hosts h e =
    let (a, b, c) =
      first_error-none (check_unique_hostname hosts h) (check_unique_address hosts h)
        (check_alone nets carried h) e in
    (
      omega (arith, few (hostname_count h.read_hostname hosts) _ a, hostname_count-tally h hosts),
      omega (arith, few (address_count h.private_address hosts) _ b, address_count-tally h hosts),
      c,
    )

hosts-Checked :
    (nets : Nets) (carried : Option (List Bytes)) (hosts rest : List Host)
    → check_hosts nets carried hosts rest ≡ none
    → All (Checked nets carried hosts) rest
unfolding check_hosts
hosts-Checked nets carried hosts [] e = tt
hosts-Checked nets carried hosts (h ∷ rest) e =
    elim (Option-cases (check_host nets carried hosts h)) [
      | inl n ↦ (
        host-Checked nets carried hosts h n,
        hosts-Checked nets carried hosts rest (rw (n, check_hosts) at e),
      )
      | inr (x, s) ↦ ground (arith, rw (s, check_hosts) at e)
    ]

-- Another hostname and, unless there is none, another private address than every host before it.
abbrev pub Differs : Host → Host → Type 0
Differs h g =
    (g.read_hostname ≢ h.read_hostname)
    × ((h.private_address ≡ []) ⊎ (g.private_address ≢ h.private_address))

abbrev pub AllDistinct : List Host → Type 0
AllDistinct [] = Unit {0}
AllDistinct (h ∷ hosts) = All (Differs h) hosts × AllDistinct hosts

other_hostname :
    (h g : Host)
    → (same_hostname h h ≡ false) ⊎ (same_hostname g h ≡ false)
    → g.read_hostname ≢ h.read_hostname
other_hostname h g (inl e) p = ground (arith, e, same_bytes_refl h.read_hostname)
other_hostname h g (inr e) p = ground (arith, e, same_bytes_iff g.read_hostname h.read_hostname, p)

address_apart :
    (s t : Bytes)
    → ((not (is_nothing s) && same_bytes s s) ≡ false)
      ⊎ ((not (is_nothing t) && same_bytes t s) ≡ false)
    → (s ≡ []) ⊎ (t ≢ s)
address_apart [] t e = inl refl
address_apart (c ∷ s) t (inl e) = absurd (ground (arith, e, same_bytes_refl (c ∷ s)))
address_apart (c ∷ s) [] (inr e) = inr (λ p. ground (arith, p))
address_apart (c ∷ s) (d ∷ t) (inr e) =
    inr (λ p. ground (arith, e, same_bytes_iff (d ∷ t) (c ∷ s), p))

others_differ :
    (h : Host) (hosts : List Host)
    → All (λ g. (same_hostname h h ≡ false) ⊎ (same_hostname g h ≡ false)) hosts
    → All (λ g. (same_address h h ≡ false) ⊎ (same_address g h ≡ false)) hosts
    → All (Differs h) hosts
others_differ h [] ns as' = tt
others_differ h (g ∷ hosts) (n, ns) (a, as') = (
  (other_hostname h g n, address_apart h.private_address g.private_address a),
  others_differ h hosts ns as',
)

Exclusive-AllDistinct :
    (hosts : List Host)
    → Exclusive same_hostname hosts
    → Exclusive same_address hosts
    → AllDistinct hosts
Exclusive-AllDistinct [] ns as' = tt
Exclusive-AllDistinct (h ∷ hosts) (n, ns) (a, as') =
    (others_differ h hosts n a, Exclusive-AllDistinct hosts ns as')

-- Of hosts that pass the validation each passes its own checks, its firewall rules and architecture
-- among them; no two have the same hostname, or the same private address unless it is empty; and the
-- clocks of all could be read, no two of them being more than 61 seconds apart (each is rounded to a
-- second and may then be 30 seconds off the median), if each is within 4 * 10 ^ 18 nanoseconds,
-- some 126 years, of the local one.
pub validate_hosts-AllDistinct :
    (nets : Nets) (carried : Option (List Bytes)) (hosts : List Host)
    → All HasModerateClock hosts
    → validate_hosts nets carried hosts ≡ passes
    → AllDistinct hosts
      × All (λ h. check_alone nets carried h ≡ none) hosts
      × All (λ g. All (ClocksWithin 61000000000 g) hosts) hosts
unfolding validate_hosts
validate_hosts-AllDistinct nets carried hosts moderate h =
    elim (Option-cases (check_hosts nets carried hosts hosts)) [
      | inr (e, s) ↦ ground (arith, rw (s, validate_hosts) at h)
      | inl n ↦
          let each = hosts-Checked nets carried hosts hosts n in
          (
            Exclusive-AllDistinct hosts
                (tally-Exclusive same_hostname hosts (
                  All-mono (Checked nets carried hosts) (λ g. tally same_hostname g hosts ≤ 1) hosts
                    (λ g c. c.0) each))
                (tally-Exclusive same_address hosts (
                  All-mono (Checked nets carried hosts) (λ g. tally same_address g hosts ≤ 1) hosts
                    (λ g c. c.1) each)),
            All-mono (Checked nets carried hosts) (λ g. check_alone nets carried g ≡ none) hosts
                (λ g c. c.2) each,
            by_skews-ClocksWithin hosts moderate (rw (n, validate_hosts) at h),
          )
    ]
