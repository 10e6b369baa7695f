-- ===== src/Phase/Removed/Examples.antt =====
-- The theorems on pkg/phase/13_detect_removed_hosts.go at concrete inputs, and a test.
use mathlib.Core.List.{Perm}
use cargoship.Prelude.{◌≡◌, refl, false, some, List, [], ◌∷◌, map, codes}
use cargoship.Phase.Removed.{
  Identity, KubectlNode, to_lower, is_known_node, node_role, described, unmanaged_nodes, detect,
}
use cargoship.Phase.Removed.Detection.{unaccounted, unmanaged_nodes-perm}

abbrev hosts : List Identity
hosts =
    record {
      read_hostname = codes "Node-A";
      hostname = [];
      private_address = codes "10.0.0.1";
      address = codes "192.0.2.1";
    }
    ∷ []

abbrev nodes : List KubectlNode
nodes =
    record { name = codes "node-a"; labels = []; addresses = [] }
    ∷ record {
      name = codes "other";
      labels = codes "node-role.kubernetes.io/master" ∷ [];
      addresses = codes "10.0.0.9" ∷ [];
    }
    ∷ []

reports : detect false hosts (some nodes) ≡ some (codes "other (controller)" ∷ [])
unfolding detect unmanaged_nodes is_known_node node_role described to_lower
reports = refl

unmanaged_nodes-perm_example :
    Perm (unmanaged_nodes hosts nodes) (map described (unaccounted hosts nodes))
unmanaged_nodes-perm_example = unmanaged_nodes-perm hosts nodes
