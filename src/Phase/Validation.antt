-- ===== src/Phase/Validation.antt =====
-- pkg/phase/11_validate_hosts.go: what each host has to pass before a run touches any, and the
-- comparison of their clocks; of pkg/phase/10_gather_facts.go and api/arch.go the architectures.
-- What the hosts answer is in their records. A text is the list of its bytes.
mod Unique
mod Clocks
mod Readings
mod Examples
use cargoship.Prelude.{
  ℕ, zero, suc, ◌+◌, ◌-◌, ◌*◌, ◌/◌, Bool, true, false, not, ◌&&◌, ◌||◌, Option, none, some, List,
  [], ◌∷◌, ◌++◌, any, Bytes, codes, ltb, leb, length, get_elem?, if◌then◌else◌,
}
use cargoship.Prelude.Int.{ℤ, leb_int}
use cargoship.Prelude.Durations.{saturate, round_second, wrap, difference, abs_duration, second}
use cargoship.Values.Tree.{same_bytes}
use cargoship.Cluster.Firewall.{FirewallRule, FirewallError, Nets}
use cargoship.Cluster.Firewall

-- `arch` is none where the host does not answer, `validator` where the configurer has none; `skew` is
-- by how many nanoseconds the local clock is ahead, none where the time cannot be read.
pub record Host : Type 0 where
  pub read_hostname : Bytes
  pub private_address : Bytes
  pub has_sudo : Bool
  pub validator : Option Bool
  pub rules : List FirewallRule
  pub arch : Option Bytes
  pub skew : Option ℤ

pub data ValidationError : Type 0 where
  hostname_not_unique address_not_unique no_sudo invalid_host : ValidationError
  arch_unknown arch_unsupported arch_not_carried time_failed : ValidationError
  firewall : FirewallError → ValidationError
  skew_exceeds : ℕ → ValidationError

-- `index out of range` is a panic.
pub data Outcome : Type 0 where
  passes panics : Outcome
  fails : ValidationError → Outcome

-- `arches` of api/arch.go.
abbrev pub arches : List Bytes
arches = codes "amd64" ∷ codes "arm64" ∷ codes "riscv64" ∷ []

abbrev pub lists : List Bytes → Bytes → Bool
lists texts s = any (λ t. same_bytes t s) texts

pub parse_arch : Bytes → Option Bytes
parse_arch s = if lists arches s then some s else none

-- `m[key]` of `hncount` and of `privateaddrcount`, which counts no empty address.
pub hostname_count : Bytes → List Host → ℕ
hostname_count name [] = 0
hostname_count name (h ∷ hosts) =
    if same_bytes h.read_hostname name
    then suc (hostname_count name hosts)
    else hostname_count name hosts

abbrev is_nothing : Bytes → Bool
is_nothing [] = true
is_nothing (c ∷ s) = false

pub address_count : Bytes → List Host → ℕ
address_count address [] = 0
address_count address (h ∷ hosts) =
    if not (is_nothing h.private_address) && same_bytes h.private_address address
    then suc (address_count address hosts)
    else address_count address hosts

check_unique_hostname : List Host → Host → Option ValidationError
unfolding hostname_count
check_unique_hostname hosts h =
    if ltb 1 (hostname_count h.read_hostname hosts) then some hostname_not_unique else none

check_unique_address : List Host → Host → Option ValidationError
unfolding address_count
check_unique_address hosts h =
    if ltb 1 (address_count h.private_address hosts) then some address_not_unique else none

check_sudo : Host → Option ValidationError
check_sudo h = if h.has_sudo then none else some no_sudo

by_validator : Option Bool → Option ValidationError
by_validator none = none
by_validator (some answer) = if answer then none else some invalid_host

by_rules : Option FirewallError → Option ValidationError
by_rules none = none
by_rules (some e) = some (firewall e)

by_parsed : List Bytes → Option Bytes → Option ValidationError
by_parsed carried none = some arch_unsupported
by_parsed carried (some arch) = if lists carried arch then none else some arch_not_carried

by_arch : List Bytes → Option Bytes → Option ValidationError
unfolding parse_arch by_parsed
by_arch carried none = some arch_unknown
by_arch carried (some raw) = by_parsed carried (parse_arch raw)

-- `validateHostArch`, from what the package carries; there may be no package.
check_arch : Option (List Bytes) → Host → Option ValidationError
unfolding by_arch
check_arch none h = none
check_arch (some []) h = none
check_arch (some (a ∷ carried)) h = by_arch (a ∷ carried) h.arch

first_error : List (Option ValidationError) → Option ValidationError
first_error [] = none
first_error (none ∷ checks) = first_error checks
first_error (some e ∷ checks) = some e

-- The checks of one host on its own.
pub check_alone : Nets → Option (List Bytes) → Host → Option ValidationError
unfolding first_error check_sudo by_validator by_rules check_arch Firewall.validate
check_alone nets carried h = first_error (
    check_sudo h
    ∷ (by_validator h.validator
        ∷ (by_rules (Firewall.validate nets h.rules) ∷ (check_arch carried h ∷ []))))

pub check_host : Nets → Option (List Bytes) → List Host → Host → Option ValidationError
unfolding first_error check_unique_hostname check_unique_address check_alone
check_host nets carried hosts h = first_error (
    check_unique_hostname hosts h
    ∷ (check_unique_address hosts h ∷ (check_alone nets carried h ∷ [])))

check_hosts : Nets → Option (List Bytes) → List Host → List Host → Option ValidationError
unfolding check_host
check_hosts nets carried hosts [] = none
check_hosts nets carried hosts (h ∷ rest) = elim (check_host nets carried hosts h) [
  | some e ↦ some e
  | none ↦ check_hosts nets carried hosts rest
]

-- `time.Now().UTC().Sub(remote).Round(time.Second)`.
unfoldable pub read_skew : ℤ → ℤ
unfolding saturate round_second
read_skew ahead = round_second (saturate ahead)

pub skews_of : List Host → Option (List ℤ)
unfolding read_skew
skews_of [] = some []
skews_of (h ∷ hosts) = elim h.skew [
  | none ↦ none
  | some s ↦ elim (skews_of hosts) [ none ↦ none | some skews ↦ some (read_skew s ∷ skews) ]
]

insert_skew : ℤ → List ℤ → List ℤ
insert_skew s [] = s ∷ []
insert_skew s (t ∷ ts) =
    let rest = insert_skew s ts in if leb_int s t then s ∷ (t ∷ ts) else t ∷ rest

-- `slices.Sort`.
sort_skews : List ℤ → List ℤ
unfolding insert_skew
sort_skews [] = []
sort_skews (s ∷ skews) = insert_skew s (sort_skews skews)

abbrev pub max_skew : ℕ
max_skew = 30 * second

-- `(skew - median).Abs()`.
unfoldable pub apart : ℤ → ℤ → ℕ
unfolding abs_duration wrap difference
apart skew median = abs_duration (wrap (difference skew median))

exceeding : ℤ → List ℤ → ℕ
unfolding apart
exceeding median [] = 0
exceeding median (s ∷ skews) =
    let rest = exceeding median skews in if ltb max_skew (apart s median) then suc rest else rest

report_exceeding : ℕ → Outcome
report_exceeding zero = passes
report_exceeding (suc n) = fails (skew_exceeds (suc n))

by_median : List ℤ → Option ℤ → Outcome
unfolding exceeding report_exceeding
by_median skews none = panics
by_median skews (some median) = report_exceeding (exceeding median skews)

-- `validateClockSkew`, from the skews that were read.
pub compare_clocks : List ℤ → Outcome
unfolding by_median sort_skews
compare_clocks skews = by_median skews (get_elem? (sort_skews skews) (length skews / 2))

pub by_skews : Option (List ℤ) → Outcome
unfolding compare_clocks
by_skews none = fails time_failed
by_skews (some skews) = compare_clocks skews

-- `Run`. Where several checks fail, the sweep reports more of them than the first.
pub validate_hosts : Nets → Option (List Bytes) → List Host → Outcome
unfolding check_hosts by_skews skews_of
validate_hosts nets carried hosts = elim (check_hosts nets carried hosts hosts) [
  | some e ↦ fails e
  | none ↦ by_skews (skews_of hosts)
]
