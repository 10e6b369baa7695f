-- ===== src/Cluster/Hosts.antt =====
-- The selections of api/colonel-byte.dev/v1alpha1/cluster/hosts.go.
pub mod Groups
use cargoship.Prelude.{
  String, Bool, ◌||◌, Option, none, some, List, [], ◌∷◌, ◌++◌, str_eq, if◌then◌else◌,
}

-- The fields that the selections read; `name` tells the hosts apart.
pub record Host : Type 0 where
  pub name : String
  pub role : String
  pub profile : String

abbrev pub role_controller : String
role_controller = "controller"

abbrev pub role_controller_worker : String
role_controller_worker = "controller+worker"

abbrev pub role_single : String
role_single = "single"

abbrev pub role_worker : String
role_worker = "worker"

unfoldable pub is_controller : Host → Bool
is_controller h =
    str_eq h.role role_controller
    || (str_eq h.role role_controller_worker || str_eq h.role role_single)

pub first : List Host → Option Host
first [] = none
first (h ∷ hs) = some h

pub last : List Host → Option Host
last [] = none
last (h ∷ []) = some h
last (h ∷ g ∷ hs) = last (g ∷ hs)

pub find : (Host → Bool) → List Host → Option Host
find test [] = none
find test (h ∷ hs) = if test h then some h else find test hs

unfoldable pub filter : (Host → Bool) → List Host → List Host
filter test [] = []
filter test (h ∷ hs) = if test h then h ∷ filter test hs else filter test hs

pub with_role : String → List Host → List Host
unfolding filter
with_role s = filter (λ h. str_eq h.role s)

pub controllers : List Host → List Host
unfolding filter is_controller
controllers = filter is_controller

pub workers : List Host → List Host
unfolding with_role
workers = with_role role_worker

pub record HostGroup : Type 0 where
  pub profile : String
  pub hosts : List Host

-- One round of `GroupByProfile`. The source's map `index` holds the position of each profile's
-- group; here the group is found in the list itself.
add_to_group : Host → List HostGroup → List HostGroup
add_to_group h [] = record { profile = h.profile; hosts = h ∷ [] } ∷ []
add_to_group h (g ∷ groups) =
    if str_eq g.profile h.profile
    then record g { hosts = g.hosts ++ h ∷ [] } ∷ groups
    else g ∷ add_to_group h groups

group_loop : List Host → List HostGroup → List HostGroup
group_loop [] groups = groups
group_loop (h ∷ hs) groups = group_loop hs (add_to_group h groups)

pub group_by_profile : List Host → List HostGroup
unfolding group_loop add_to_group
group_by_profile hs = group_loop hs []
