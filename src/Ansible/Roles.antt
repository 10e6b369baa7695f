-- ===== src/Ansible/Roles.antt =====
-- internal/ansibleinv/roles.go: which hosts an inventory gives which roles. A text is the list of its
-- bytes, taken to be ASCII. The groups of an inventory are a function, a role mapping is the list of
-- its entries, in any order and with different keys.
mod Rounds
pub mod Assignments
mod Examples
use cargoship.Prelude.{
  ℕ, Bool, true, false, not, ◌&&◌, ◌⊎◌, inl, inr, Option, none, some, List, [], ◌∷◌, ◌++◌, any,
  Bytes, codes, if◌then◌else◌,
}
use cargoship.Values.Tree.{same_bytes}
use cargoship.Phase.Removed.{text_le}
use cargoship.Cluster.Concurrency.{trim_space}

abbrev pub role_controller : Bytes
role_controller = codes "controller"

abbrev pub role_worker : Bytes
role_worker = codes "worker"

abbrev pub role_order : List Bytes
role_order = role_controller ∷ role_worker ∷ []

abbrev pub Groups : Type 0
Groups = Bytes → Option (List Bytes)

abbrev pub RoleGroups : Type 0
RoleGroups = List (Bytes × List Bytes)

pub record Assignment : Type 0 where
  pub host : Bytes
  pub role : Bytes
  pub group : Bytes

pub data RoleError : Type 0 where
  unknown_role no_groups empty_group : Bytes → RoleError
  undefined_group : Bytes → Bytes → RoleError
  empty_host : Bytes → RoleError
  two_roles : Assignment → Assignment → RoleError
  no_hosts no_controller : RoleError

pub default_role_groups : RoleGroups
default_role_groups = (role_controller, role_controller ∷ []) ∷ (role_worker, role_worker ∷ []) ∷ []

-- `m[key]` of a map of slices.
pub groups_of_role : RoleGroups → Bytes → List Bytes
groups_of_role [] role = []
groups_of_role ((r, gs) ∷ entries) role =
    if same_bytes r role then gs else groups_of_role entries role

abbrev hosts_of_group : Option (List Bytes) → List Bytes
hosts_of_group none = []
hosts_of_group (some hosts) = hosts

insert_entry : Bytes × List Bytes → RoleGroups → RoleGroups
insert_entry e [] = e ∷ []
insert_entry e (f ∷ entries) =
    let rest = insert_entry e entries in if text_le e.0 f.0 then e ∷ (f ∷ entries) else f ∷ rest

-- The entries by `sortedKeys`.
sorted_entries : RoleGroups → RoleGroups
unfolding insert_entry
sorted_entries [] = []
sorted_entries (e ∷ entries) = insert_entry e (sorted_entries entries)

abbrev is_nothing : Bytes → Bool
is_nothing [] = true
is_nothing (c ∷ s) = false

pub is_blank : Bytes → Bool
unfolding trim_space
is_blank s = is_nothing (trim_space s)

-- One round of the loop of `checkRoles`.
check_role : Bytes → List Bytes → Option RoleError
unfolding is_blank
check_role role [] =
    if any (λ r. same_bytes r role) role_order
    then some (no_groups role)
    else some (unknown_role role)
check_role role (g ∷ gs) =
    if any (λ r. same_bytes r role) role_order
    then (if any is_blank (g ∷ gs) then some (empty_group role) else none)
    else some (unknown_role role)

check_entries : RoleGroups → Option RoleError
unfolding check_role
check_entries [] = none
check_entries ((role, gs) ∷ entries) = elim (check_role role gs) [
  | some e ↦ some e
  | none ↦ check_entries entries
]

pub check_roles : RoleGroups → Option RoleError
unfolding check_entries sorted_entries
check_roles role_groups = check_entries (sorted_entries role_groups)

check_defined : Groups → Bytes → List Bytes → Option RoleError
check_defined groups role [] = none
check_defined groups role (g ∷ gs) = elim (groups g) [
  | none ↦ some (undefined_group role g)
  | some hosts ↦ check_defined groups role gs
]

first_error : Option RoleError → Option RoleError → Option RoleError
first_error none e = e
first_error (some e) f = some e

-- `checkGroupsExist`: the two roles in their order.
pub check_groups_exist : Groups → RoleGroups → Option RoleError
unfolding check_defined first_error groups_of_role
check_groups_exist groups role_groups =
    first_error (check_defined groups role_controller (groups_of_role role_groups role_controller))
      (check_defined groups role_worker (groups_of_role role_groups role_worker))

-- What the three loops of `deriveRoles` go through, in their order.
group_visits : Bytes → Bytes → List Bytes → List Assignment
group_visits role group [] = []
group_visits role group (h ∷ hosts) =
    record { host = h; role = role; group = group } ∷ group_visits role group hosts

role_visits : Groups → Bytes → List Bytes → List Assignment
unfolding group_visits
role_visits groups role [] = []
role_visits groups role (g ∷ gs) =
    group_visits role g (hosts_of_group (groups g)) ++ role_visits groups role gs

pub visits : Groups → RoleGroups → List Assignment
unfolding role_visits groups_of_role
visits groups role_groups =
    role_visits groups role_controller (groups_of_role role_groups role_controller)
    ++ role_visits groups role_worker (groups_of_role role_groups role_worker)

-- The map `claimed`: it holds the assignments of `out`, by their hosts.
pub claimed : Bytes → List Assignment → Option Assignment
claimed host [] = none
claimed host (a ∷ out) = if same_bytes a.host host then some a else claimed host out

-- A round for a host that is not empty, by what the map has for it.
claim : Option Assignment → Assignment → List Assignment → RoleError ⊎ List Assignment
claim none next out = inr (out ++ next ∷ [])
claim (some previous) next out =
    if same_bytes previous.role next.role then inr out else inl (two_roles previous next)

visit : Assignment → List Assignment → RoleError ⊎ List Assignment
unfolding is_blank claim claimed
visit next out =
    if is_blank next.host
    then inl (empty_host next.group)
    else claim (claimed next.host out) next out

pub visit_all : List Assignment → List Assignment → RoleError ⊎ List Assignment
unfolding visit
visit_all [] out = inr out
visit_all (next ∷ rest) out = elim (visit next out) [
  | inl e ↦ inl e
  | inr out' ↦ visit_all rest out'
]

-- The tests behind the loops.
check_assignments : RoleError ⊎ List Assignment → RoleError ⊎ List Assignment
check_assignments (inl e) = inl e
check_assignments (inr []) = inl no_hosts
check_assignments (inr (a ∷ out)) =
    if any (λ b. same_bytes b.role role_controller) (a ∷ out)
    then inr (a ∷ out)
    else inl no_controller

derive_checked : Option RoleError → Groups → RoleGroups → RoleError ⊎ List Assignment
unfolding visit_all check_assignments visits
derive_checked (some e) groups role_groups = inl e
derive_checked none groups role_groups =
    check_assignments (visit_all (visits groups role_groups) [])

unfoldable pub derive_roles : Groups → RoleGroups → RoleError ⊎ List Assignment
unfolding derive_checked default_role_groups check_roles check_groups_exist first_error
derive_roles groups [] = derive_checked (check_roles default_role_groups) groups default_role_groups
derive_roles groups (e ∷ entries) =
    derive_checked
      (first_error (check_roles (e ∷ entries)) (check_groups_exist groups (e ∷ entries))) groups
      (e ∷ entries)
