-- ===== src/Cluster/Firewall/Examples.antt =====
-- The firewall rules at concrete inputs.
use cargoship.Prelude.{◌≡◌, refl, true, String, none, some, List, [], ◌∷◌, ◌++◌, codes}
use cargoship.Cluster.Firewall.{
  FirewallRule, Nets, port_not_ascending, key, validate_port, validate_rule, validate, merge,
}
use cargoship.Cluster.Firewall.Merging.{rule_at, or_else, rule_at-merge}
use cargoship.Cluster.Firewall.Validity.{validate-merge}
use cargoship.Cluster.Firewall.Names.{IsSafeName, key-IsSafeName}

abbrev nets : Nets
nets = record { is_ip = λ s. true; is_cidr = λ s. true }

abbrev allow : String → String → String → String → FirewallRule
allow name source destination port = record {
  name = codes name;
  action = codes "Allow";
  direction = [];
  source = codes source;
  destination = codes destination;
  ingress = [];
  egress = [];
  port = codes port;
  protocol = codes "tcp";
}

abbrev host_rules : List FirewallRule
host_rules = allow "Metrics (node)" "10.0.0.0/8" "" "9100" ∷ []

abbrev profile_rules : List FirewallRule
profile_rules = allow "metrics node" "" "" "9100" ∷ allow "" "10.0.0.1" "" "80-90" ∷ []

given_key : key (allow "-Metrics (node)" "" "" "") ≡ codes "metrics-node"
unfolding key
given_key = refl

derived_key : key (allow "" "10.0.0.1" "" "80-90") ≡ codes "in-allow-10-0-0-1-80-90-tcp"
unfolding key
derived_key = refl

-- A source and a destination of the same address give the same name.
same_derived_key : key (allow "" "10.0.0.1" "" "") ≡ key (allow "" "" "10.0.0.1" "")
unfolding key
same_derived_key = refl

descending : validate_port (codes "90-80") ≡ some port_not_ascending
unfolding validate_port
descending = refl

valid_rules : validate nets host_rules ≡ none
unfolding validate
valid_rules = refl

rule_at-merge_example :
    (rule_at (codes "metrics-node") (merge host_rules profile_rules)
      ≡ or_else
          (rule_at (codes "metrics-node") host_rules)
          (rule_at (codes "metrics-node") profile_rules))
    × ((added : List FirewallRule) × (merge host_rules profile_rules ≡ host_rules ++ added))
rule_at-merge_example = rule_at-merge (codes "metrics-node") host_rules profile_rules

validate-merge_example : validate nets (merge host_rules profile_rules) ≡ none
unfolding validate_rule
validate-merge_example = validate-merge nets host_rules profile_rules valid_rules (refl, (refl, tt))

key-IsSafeName_example : IsSafeName (key (allow "-Metrics (node)" "" "" ""))
key-IsSafeName_example = key-IsSafeName (allow "-Metrics (node)" "" "" "")
