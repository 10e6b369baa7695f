-- ===== src/Ansible/Vars/Examples.antt =====
-- The translation of an inventory at a concrete input.
use cargoship.Prelude.{
  ◌≡◌, refl, true, false, inl, inr, none, some, List, [], ◌∷◌, Bytes, codes, if◌then◌else◌,
}
use cargoship.Values.Tree.{same_bytes}
use cargoship.Ansible.Roles.{role_controller, role_worker, Groups, Assignment, derive_roles}
use cargoship.Ansible.Vars.{
  Vars, text, Decoder, Structure, unknown_variables, of_vars, Host, translate,
}
use cargoship.Ansible.Vars.Hosts.{Translated, translate-Translated}

abbrev accepts : Decoder
accepts name v = true

abbrev inventory : Groups
inventory g =
    if same_bytes g role_controller
    then some (codes "m1" ∷ [])
    else if same_bytes g role_worker
    then some (codes "w1" ∷ [])
    else none

abbrev vars_of : Bytes → Vars
vars_of host =
    if same_bytes host (codes "m1")
    then (codes "ansible_host", text (codes "10.0.0.1"))
      ∷ (codes "ansible_port", text (codes "2222"))
      ∷ []
    else (codes "cargoship_profile", text (codes "gpu")) ∷ (codes "inventory_dir", text []) ∷ []

abbrev structure : Structure
structure = record {
  environment = none;
  files = none;
  host = none;
  node_labels = none;
  node_taints = none;
}

abbrev hosts : List Host
hosts =
    record {
      role = role_controller;
      connection = record {
        address = codes "10.0.0.1";
        user = codes "root";
        port = (false, 2222);
        key_path = none;
        bastion = none;
      };
      naming = record {
        hostname = codes "m1";
        profile = role_controller;
        private_address = [];
        private_interface = [];
      };
      structure = structure;
    }
    ∷ record {
      role = role_worker;
      connection = record {
        address = codes "w1";
        user = codes "root";
        port = (false, 22);
        key_path = none;
        bastion = none;
      };
      naming = record {
        hostname = codes "w1";
        profile = codes "gpu";
        private_address = [];
        private_interface = [];
      };
      structure = structure;
    }
    ∷ []

translates : translate accepts (codes "prod") (codes "lb") inventory [] vars_of ≡ inr hosts
unfolding translate
translates = refl

misspelled :
    translate accepts
      (codes "prod")
      (codes "lb")
      inventory
      []
      (λ host. (codes "cargoship_profil", text []) ∷ [])
    ≡ inl (of_vars (unknown_variables (codes "m1") (codes "cargoship_profil" ∷ [])))
unfolding translate
misspelled = refl

translate-Translated_example :
    ((out : List Assignment) × (derive_roles inventory [] ≡ inr out) × Translated vars_of out hosts)
    × ((leader : Host) × (others : List Host) × (hosts ≡ leader ∷ others)
        × (leader.role ≡ role_controller))
translate-Translated_example =
    translate-Translated accepts (codes "prod") (codes "lb") inventory [] vars_of hosts translates
