-- ===== src/Ansible/Roles/Examples.antt =====
-- The derivation of roles at concrete inputs.
use cargoship.Prelude.{◌≡◌, refl, inl, inr, none, some, List, [], ◌∷◌, Bytes, codes, if◌then◌else◌}
use cargoship.Values.Tree.{same_bytes}
use cargoship.Ansible.Roles.{
  role_controller, role_worker, Groups, RoleGroups, Assignment, two_roles, unknown_role, visits,
  derive_roles,
}
use cargoship.Ansible.Roles.Assignments.{mapping, Derived, derive_roles-Derived}

abbrev inventory : Groups
inventory g =
    if same_bytes g (codes "masters")
    then some (codes "m1" ∷ codes "m2" ∷ [])
    else if same_bytes g (codes "all")
    then some (codes "w1" ∷ codes "m2" ∷ [])
    else if same_bytes g (codes "etcd")
    then some (codes "m2" ∷ codes "m3" ∷ [])
    else if same_bytes g (codes "nodes")
    then some (codes "w1" ∷ [])
    else none

abbrev role_groups : RoleGroups
role_groups =
    (role_worker, codes "nodes" ∷ []) ∷ (role_controller, codes "masters" ∷ codes "etcd" ∷ []) ∷ []

abbrev assignment : Bytes → Bytes → Bytes → Assignment
assignment host role group = record { host = host; role = role; group = group }

abbrev assignments : List Assignment
assignments =
    assignment (codes "m1") role_controller (codes "masters")
    ∷ assignment (codes "m2") role_controller (codes "masters")
    ∷ assignment (codes "m3") role_controller (codes "etcd")
    ∷ assignment (codes "w1") role_worker (codes "nodes")
    ∷ []

derives : derive_roles inventory role_groups ≡ inr assignments
unfolding derive_roles
derives = refl

conflict :
    derive_roles inventory
      ((role_controller, codes "masters" ∷ []) ∷ (role_worker, codes "all" ∷ []) ∷ [])
    ≡ inl (
        two_roles
          (assignment (codes "m2") role_controller (codes "masters"))
          (assignment (codes "m2") role_worker (codes "all")))
unfolding derive_roles
conflict = refl

third_role :
    derive_roles inventory ((codes "etcd", codes "etcd" ∷ []) ∷ [])
    ≡ inl (unknown_role (codes "etcd"))
unfolding derive_roles
third_role = refl

derive_roles-Derived_example : Derived (visits inventory (mapping role_groups)) assignments
derive_roles-Derived_example = derive_roles-Derived inventory role_groups assignments derives
