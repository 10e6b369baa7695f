-- ===== src/Phase/Validation/Examples.antt =====
-- The validation of hosts at concrete inputs.
use mathlib.Core.Path.{subst}
use mathlib.Core.Option.{some-injective}
use cargoship.Prelude.{
  ◌≡◌, refl, arith, true, String, none, some, List, [], ◌∷◌, Bytes, codes, All, Option,
}
use cargoship.Prelude.Int.{ℤ, pos, negsuc}
use cargoship.Cluster.Firewall.{Nets}
use cargoship.Phase.Validation.{
  Host, passes, panics, fails, skew_exceeds, hostname_not_unique, arch_not_carried, compare_clocks,
  check_alone, read_skew, validate_hosts,
}
use cargoship.Prelude.Durations.{second, IsModerate}
use cargoship.Phase.Validation.Readings.{HasModerateClock, ClocksWithin}
use cargoship.Phase.Validation.Unique.{AllDistinct, validate_hosts-AllDistinct}

abbrev nets : Nets
nets = record { is_ip = λ s. true; is_cidr = λ s. true }

abbrev host : String → String → ℤ → Host
host name address skew = record {
  read_hostname = codes name;
  private_address = codes address;
  has_sudo = true;
  validator = none;
  rules = [];
  arch = some (codes "amd64");
  skew = some skew;
}

abbrev carried : Option (List Bytes)
carried = some (codes "amd64" ∷ [])

-- Ahead by this many nanoseconds, or behind.
abbrev hosts : List Host
hosts =
    host "a" "" (pos 300000000)
    ∷ host "b" "" (negsuc 30400000000)
    ∷ host "c" "10.0.0.3" (pos 30400000000)
    ∷ []

valid : validate_hosts nets carried hosts ≡ passes
unfolding validate_hosts
valid = refl

twice : validate_hosts nets carried (host "a" "" (pos 0) ∷ hosts) ≡ fails hostname_not_unique
unfolding validate_hosts
twice = refl

not_carried : validate_hosts nets (some (codes "arm64" ∷ [])) hosts ≡ fails arch_not_carried
unfolding validate_hosts
not_carried = refl

far_off : compare_clocks (pos 0 ∷ pos second ∷ negsuc 40000000000 ∷ []) ≡ fails (skew_exceeds 1)
unfolding compare_clocks
far_off = refl

-- Without hosts there is no median to take.
no_clocks : validate_hosts nets carried [] ≡ panics
unfolding validate_hosts
no_clocks = refl

-- Half a second is rounded away from zero.
rounded : read_skew (negsuc 499999999) ≡ negsuc 999999999
unfolding read_skew
rounded = refl

-- Two clocks that are off by more than 292 years, in opposite directions: the difference wraps.
opposite_ends :
    validate_hosts nets carried
      (host "a" "" (pos 10000000000000000000) ∷ host "b" "" (negsuc 10000000000000000000) ∷ [])
    ≡ passes
unfolding validate_hosts
opposite_ends = refl

known : (b a : ℤ) → some b ≡ some a → IsModerate b → IsModerate a
known b a e m = subst IsModerate (some-injective b a e) m

moderate : All HasModerateClock hosts
moderate = (
  λ a e. known _ a e (omega arith, omega arith),
  (
    λ a e. known _ a e (omega arith, omega arith),
    (λ a e. known _ a e (omega arith, omega arith), tt),
  ),
)

validate_hosts-AllDistinct_example :
    AllDistinct hosts
    × All (λ h. check_alone nets carried h ≡ none) hosts
    × All (λ g. All (ClocksWithin 61000000000 g) hosts) hosts
validate_hosts-AllDistinct_example = validate_hosts-AllDistinct nets carried hosts moderate valid
