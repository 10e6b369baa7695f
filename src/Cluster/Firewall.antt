-- ===== src/Cluster/Firewall.antt =====
-- The firewall rules of a host, api/colonel-byte.dev/v1alpha1/cluster/firewall.go: the name of a
-- rule, its validation, and the merge with the rules of a profile. A text is the list of its bytes,
-- taken to be ASCII. The parsers of package net are a record of tests.
mod Merging
mod Validity
mod Ports
mod Names
mod Examples
use cargoship.Prelude.{
  ℕ, suc, String, Bool, true, false, not, ◌&&◌, ◌||◌, Option, none, some, List, [], ◌∷◌, ◌++◌, map,
  any, Bytes, codes, ltb, leb, ◌==◌, length, All, if◌then◌else◌,
}
use cargoship.Values.Text.{atoi, cut}
use cargoship.Values.Text.Numbers.{is_digit}
use cargoship.Values.Tree.{same_bytes}
use cargoship.Overrides.{equal_fold}
use cargoship.Phase.Removed.{to_lower}
use cargoship.Cluster.Concurrency.{trim_space}

pub record FirewallRule : Type 0 where
  pub name : Bytes
  pub action : Bytes
  pub direction : Bytes
  pub source : Bytes
  pub destination : Bytes
  pub ingress : Bytes
  pub egress : Bytes
  pub port : Bytes
  pub protocol : Bytes

-- Whether `net.ParseIP` and `net.ParseCIDR` accept a text.
pub record Nets : Type 0 where
  pub is_ip : Bytes → Bool
  pub is_cidr : Bytes → Bool

pub data FirewallError : Type 0 where
  action_required unknown_action forward_only forward_needs_both unknown_direction : FirewallError
  unknown_protocol invalid_port port_out_of_range port_not_ascending : FirewallError
  port_needs_protocol invalid_address name_not_unique : FirewallError

abbrev is_nothing : Bytes → Bool
is_nothing [] = true
is_nothing (c ∷ s) = false

abbrev is_text : String → Bytes → Bool
is_text t s = same_bytes s (codes t)

abbrev or_default : Bytes → Bytes → Bytes
or_default default [] = default
or_default default (c ∷ s) = c ∷ s

pub normalized_action : FirewallRule → Bytes
unfolding trim_space to_lower
normalized_action r = to_lower (trim_space r.action)

pub normalized_direction : FirewallRule → Bytes
unfolding trim_space to_lower
normalized_direction r = or_default (codes "in") (to_lower (trim_space r.direction))

pub normalized_protocol : FirewallRule → Bytes
unfolding trim_space to_lower
normalized_protocol r = to_lower (trim_space r.protocol)

abbrev pub is_safe : ℕ → Bool
is_safe c = (leb 97 c && leb c 122) || ((leb 48 c && leb c 57) || ((c == 45) || (c == 95)))

abbrev becomes_dash : ℕ → Bool
becomes_dash c = (c == 46) || ((c == 47) || ((c == 32) || (c == 58)))

-- The loop of `sanitizeName`.
safe_bytes : Bytes → Bytes
safe_bytes [] = []
safe_bytes (c ∷ s) =
    let rest = safe_bytes s in
    if is_safe c then c ∷ rest else if becomes_dash c then 45 ∷ rest else rest

-- `strings.Trim(s, "-")`
trim_front : Bytes → Bytes
trim_front [] = []
trim_front (c ∷ s) = let rest = trim_front s in if c == 45 then rest else c ∷ s

keep_end : ℕ → Bytes → Bytes
keep_end c [] = if c == 45 then [] else c ∷ []
keep_end c (d ∷ s) = c ∷ (d ∷ s)

trim_back : Bytes → Bytes
unfolding keep_end
trim_back [] = []
trim_back (c ∷ s) = keep_end c (trim_back s)

pub sanitize_name : Bytes → Bytes
unfolding to_lower safe_bytes trim_front trim_back
sanitize_name s = trim_back (trim_front (safe_bytes (to_lower s)))

-- `strings.Join(parts, "-")`, of parts that are not empty.
dashed : Bytes → List Bytes → Bytes
dashed s [] = s
dashed s ([] ∷ parts) = dashed s parts
dashed s ((c ∷ p) ∷ parts) = s ++ (45 ∷ dashed (c ∷ p) parts)

-- The name that a rule without one gets, before it is made safe.
derived_name : FirewallRule → Bytes
unfolding dashed normalized_action normalized_direction normalized_protocol
derived_name r =
    normalized_direction r
    ++ (45
        ∷ dashed (normalized_action r) (
            r.source
            ∷ (r.destination ∷ (r.ingress ∷ (r.egress ∷ (r.port ∷ (normalized_protocol r ∷ [])))))))

key_of : Bytes → FirewallRule → Bytes
unfolding sanitize_name derived_name
key_of (c ∷ name) r = sanitize_name (c ∷ name)
key_of [] r = sanitize_name (derived_name r)

pub key : FirewallRule → Bytes
unfolding key_of
key r = key_of r.name r

-- The first of the checks that fails.
first_error : List (Option FirewallError) → Option FirewallError
first_error [] = none
first_error (none ∷ checks) = first_error checks
first_error (some e ∷ checks) = some e

check_action : Bytes → Option FirewallError
check_action [] = some action_required
check_action (c ∷ s) =
    if any (λ t. is_text t (c ∷ s)) ("allow" ∷ ("deny" ∷ ("reject" ∷ [])))
    then none
    else some unknown_action

check_direction : Bytes → FirewallRule → Option FirewallError
check_direction d r =
    if is_text "in" d || is_text "out" d
    then (if not (is_nothing r.ingress) || not (is_nothing r.egress)
        then some forward_only
        else none)
    else if is_text "forward" d
    then (if is_nothing r.ingress || is_nothing r.egress then some forward_needs_both else none)
    else some unknown_direction

check_protocol : Bytes → Option FirewallError
check_protocol [] = none
check_protocol (c ∷ s) =
    if any (λ t. is_text t (c ∷ s)) ("tcp" ∷ ("udp" ∷ ("sctp" ∷ ("dccp" ∷ []))))
    then none
    else some unknown_protocol

abbrev all_digits : Bytes → Bool
all_digits [] = true
all_digits (c ∷ s) = is_digit c && all_digits s

-- `\d{1,5}`, as a whole.
abbrev short_number : Bytes → Bool
short_number s = (leb 1 (length s) && leb (length s) 5) && all_digits s

-- `portPattern`: a dash can only be the one between two numbers.
port_pattern : Bytes → Option (Bytes × Bytes) → Bool
port_pattern port none = short_number port
port_pattern port (some (low, high)) = short_number low && short_number high

-- The value, if it is one of a port.
port_number : Option (Bool × ℕ) → Option ℕ
port_number none = none
port_number (some (true, suc n)) = none
port_number (some (minus, n)) = if ltb n 1 || ltb 65535 n then none else some n

ascending : ℕ → Option ℕ → Option FirewallError
ascending low none = some port_out_of_range
ascending low (some high) = if leb high low then some port_not_ascending else none

high_part : Option ℕ → Bytes → Option FirewallError
unfolding port_number ascending atoi
high_part none high = some port_out_of_range
high_part (some low) high = ascending low (port_number (atoi high))

single_part : Option ℕ → Option FirewallError
single_part none = some port_out_of_range
single_part (some n) = none

-- What follows the match of the pattern, with `strings.Cut(port, "-")`.
check_numbers : Bytes → Option (Bytes × Bytes) → Option FirewallError
unfolding port_number high_part single_part atoi
check_numbers port (some (low, high)) = high_part (port_number (atoi low)) high
check_numbers port none = single_part (port_number (atoi port))

pub validate_port : Bytes → Option FirewallError
unfolding port_pattern check_numbers cut
validate_port [] = none
validate_port (c ∷ s) =
    if port_pattern (c ∷ s) (cut 45 (c ∷ s))
    then check_numbers (c ∷ s) (cut 45 (c ∷ s))
    else some invalid_port

validate_address : Nets → Bytes → Option FirewallError
unfolding equal_fold
validate_address nets [] = none
validate_address nets (c ∷ s) =
    if equal_fold (c ∷ s) (codes "any")
    then none
    else if any (λ d. d == 47) (c ∷ s)
    then (if nets.is_cidr (c ∷ s) then none else some invalid_address)
    else if nets.is_ip (c ∷ s)
    then none
    else some invalid_address

check_port_protocol : Bytes → Bytes → Option FirewallError
check_port_protocol port protocol =
    if not (is_nothing port) && is_nothing protocol then some port_needs_protocol else none

-- `FirewallRule.Validate`. Which of the two addresses comes first is up to the map; the errors are
-- of one kind.
pub validate_rule : Nets → FirewallRule → Option FirewallError
unfolding first_error normalized_action normalized_direction normalized_protocol check_action
    check_direction check_protocol check_port_protocol validate_port validate_address
validate_rule nets r = first_error (
    check_action (normalized_action r)
    ∷ (check_direction (normalized_direction r) r
        ∷ (check_protocol (normalized_protocol r)
            ∷ (validate_port r.port
                ∷ (check_port_protocol r.port (normalized_protocol r)
                    ∷ (validate_address nets r.source
                        ∷ (validate_address nets r.destination ∷ [])))))))

abbrev pub has_key : Bytes → List Bytes → Bool
has_key k ks = any (λ j. same_bytes j k) ks

-- What a rule's own error, or a key that was seen before, makes of the rest.
after_rule : Option FirewallError → Bool → Option FirewallError → Option FirewallError
after_rule (some e) seen rest = some e
after_rule none true rest = some name_not_unique
after_rule none false rest = rest

-- The loop of `FirewallConfig.Validate`.
validate_loop : Nets → List Bytes → List FirewallRule → Option FirewallError
unfolding after_rule validate_rule key
validate_loop nets seen [] = none
validate_loop nets seen (r ∷ rules) =
    after_rule (validate_rule nets r) (has_key (key r) seen)
      (validate_loop nets (key r ∷ seen) rules)

unfoldable pub validate : Nets → List FirewallRule → Option FirewallError
unfolding validate_loop
validate nets rules = validate_loop nets [] rules

-- The second loop of `FirewallConfig.Merge`.
pub merge_loop : List Bytes → List FirewallRule → List FirewallRule → List FirewallRule
unfolding key
merge_loop defined rules [] = rules
merge_loop defined rules (r ∷ update) = elim (has_key (key r) defined) [
  | true ↦ merge_loop defined rules update
  | false ↦ merge_loop (key r ∷ defined) (rules ++ r ∷ []) update
]

pub merge : List FirewallRule → List FirewallRule → List FirewallRule
unfolding merge_loop
merge rules [] = rules
merge rules (r ∷ update) = merge_loop (map key rules) rules (r ∷ update)
