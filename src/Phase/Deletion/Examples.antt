-- ===== src/Phase/Deletion/Examples.antt =====
-- The deletion of nodes at concrete inputs: three controllers and a worker, of which a controller
-- and the worker are to go, and the same hosts without configured hostnames.
use mathlib.Core.List.{Perm}
use cargoship.Prelude.{
  ◌-◌, ◌*◌, ◌≤◌, ◌<◌, ◌≡◌, ◌↔◌, ◌⊎◌, refl, Bool, true, false, String, none, some, List, [], ◌∷◌,
  ◌++◌, Bytes, codes, length, map, All, is_some, arith,
}
use cargoship.Phase.Deletion.Nodes.{
  Host, lookup_node, split_lines, fields_of, match_nodes_to_hosts, resolve_node_names,
}
use cargoship.Phase.Deletion.Nodes.Matching.{node_for, lookup-match_nodes}
use cargoship.Phase.Deletion.{
  Plan, planned, refused, controllers_not_one_at_a_time, filter, filter_target_hosts,
  matches_target_host, is_running_controller, prepare, Distro, NodeNames, doomed_workers,
  doomed_controllers, check_target_hosts,
}
use cargoship.Phase.Deletion.Leader.{control_of, RemovesAll, prepare_leader_stays}
use cargoship.Phase.Deletion.Members.{stopped, stopped_majority}
use cargoship.Phase.Deletion.Doomed.{doomed_workers-perm}
use cargoship.Phase.Deletion.Targets.{EmptyOr, is_named, check_target_hosts_lem}

abbrev host : String → String → String → Bool → Host
host name role hostname running = record {
  entry = record { name = name; role = role; profile = "" };
  hostname = codes hostname;
  read_hostname = codes name;
  private_address = [];
  address = [];
  ssh_address = none;
  machine_hostname = none;
  running = running;
}

abbrev hosts : List Host
hosts =
    host "c1" "controller" "c1" true
    ∷ host "c2" "controller" "c2" true
    ∷ host "c3" "controller+worker" "c3" true
    ∷ host "w1" "worker" "w1" true
    ∷ []

abbrev unnamed_hosts : List Host
unnamed_hosts =
    host "c1" "controller" "" true
    ∷ host "c2" "controller" "" true
    ∷ host "c3" "controller" "" true
    ∷ []

abbrev targets : List Bytes
targets = codes "C1" ∷ codes "w1" ∷ []

abbrev listed : Bytes
listed = codes "c1 10.0.0.1,C1.example\nc2 10.0.0.2\nw1 10.0.0.4"

abbrev leader : Host
leader = host "c2" "controller" "c2" true

abbrev plan : Plan
plan = record { leader = some leader; keep_engine = false }

abbrev names : NodeNames
names = resolve_node_names (some leader) (some listed) hosts

abbrev distro : Distro
distro = record { pre_uninstall_reset = none; stop_controller_service = λ h. none }

plans : prepare false hosts targets ≡ planned plan
unfolding prepare
plans = refl

-- Of two controllers that are to go, both run.
two_at_once :
    prepare false hosts (codes "c1" ∷ codes "c2" ∷ []) ≡ refused (controllers_not_one_at_a_time 2 3)
unfolding prepare
two_at_once = refl

-- Without configured hostnames, no controller is gone through: all have the leader's.
left_out :
    doomed_controllers
      (λ name. some (codes name))
      (host "c1" "controller" "" true)
      unnamed_hosts
      (codes "c2" ∷ [])
    ≡ []
unfolding doomed_controllers
left_out = refl

-- Targets that are the empty text are accepted, and no host is selected.
nothing_selected :
    (check_target_hosts hosts ([] ∷ []) ≡ none) × (filter_target_hosts hosts ([] ∷ []) ≡ [])
unfolding check_target_hosts filter_target_hosts
nothing_selected = (refl, refl)

unknown_target :
    check_target_hosts (host "c1" "controller" "C1" true ∷ []) (codes "c9" ∷ [])
    ≡ some (codes "c9" ∷ [], codes "C1" ∷ codes "c1" ∷ [])
unfolding check_target_hosts
unknown_target = refl

prepare_leader_stays_example :
    ((before after : List Host) × (hosts ≡ before ++ leader ∷ after))
    × (is_running_controller leader ≡ true)
    × (((matches_target_host leader targets ≡ false)
          × (length (filter (λ h. matches_target_host h targets) (control_of hosts)) ≤ 1))
        ⊎ RemovesAll hosts targets)
prepare_leader_stays_example = prepare_leader_stays false hosts targets plan leader plans refl

stopped_majority_example :
    length (control_of hosts)
    < 2
      * (length (control_of hosts)
          - length
              (stopped distro plan.keep_engine (doomed_controllers names leader hosts targets)))
unfolding matches_target_host
stopped_majority_example =
    stopped_majority false hosts targets plan leader distro names plans refl refl
      (λ e. ground (arith, e)) refl

doomed_workers-perm_example :
    Perm
      (doomed_workers names hosts targets ++ doomed_controllers names leader hosts targets)
      (filter (λ h. is_some (names h.entry.name)) (filter_target_hosts hosts targets))
unfolding filter_target_hosts
doomed_workers-perm_example =
    doomed_workers-perm names leader hosts targets
      ((λ e. ground (arith, e)), ((λ e. ground (arith, e)), tt))

check_target_hosts_lem_example :
    (check_target_hosts hosts targets ≡ none)
    ↔ All (EmptyOr (is_named (filter_target_hosts hosts targets))) targets
check_target_hosts_lem_example = check_target_hosts_lem hosts targets

lookup-match_nodes_example :
    lookup_node "c1" (match_nodes_to_hosts listed hosts)
    ≡ node_for "c1" hosts (map fields_of (split_lines listed))
lookup-match_nodes_example = lookup-match_nodes "c1" listed hosts

matched : names "c1" ≡ some (codes "c1")
unfolding resolve_node_names match_nodes_to_hosts lookup_node
matched = refl
