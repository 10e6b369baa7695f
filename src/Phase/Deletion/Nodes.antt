-- ===== src/Phase/Deletion/Nodes.antt =====
-- `matchNodesToHosts` of pkg/phase/04_node_names.go: which node belongs to which host, from the
-- lines that kubectl printed.
pub mod Matching
use cargoship.Prelude.{
  ℕ, String, Bool, true, false, ◌&&◌, ◌||◌, Option, none, some, List, [], ◌∷◌, Bytes, ◌==◌, str_eq,
  is_some, map, any, if◌then◌else◌,
}
use cargoship.Phase.Removed.{to_lower, contains}
use cargoship.Cluster.Hosts

-- `entry.name` is what `Host.String` returns.
pub record Host : Type 0 where
  pub entry : Hosts.Host
  pub hostname : Bytes
  pub read_hostname : Bytes
  pub private_address : Bytes
  pub address : Bytes
  pub ssh_address : Option Bytes
  pub machine_hostname : Option Bytes
  pub running : Bool

-- `strings.FieldsFunc`: the field that is under way, and the fields behind it.
is_separator : ℕ → Bool
is_separator c = (c == 44) || ((c == 32) || (c == 9))

add_field : Bytes → List Bytes → List Bytes
add_field [] fields = fields
add_field (c ∷ s) fields = (c ∷ s) ∷ fields

step_field : ℕ → Bytes × List Bytes → Bytes × List Bytes
unfolding is_separator add_field
step_field c (word, fields) =
    if is_separator c then ([], add_field word fields) else (c ∷ word, fields)

split_fields : Bytes → Bytes × List Bytes
unfolding step_field
split_fields [] = ([], [])
split_fields (c ∷ s) = step_field c (split_fields s)

pub fields_of : Bytes → List Bytes
unfolding split_fields add_field
fields_of line = let (word, fields) = split_fields line in add_field word fields

-- `strings.SplitSeq(listed, "\n")`
step_line : ℕ → List Bytes → List Bytes
step_line c [] = (c ∷ []) ∷ []
step_line c (line ∷ lines) = if c == 10 then [] ∷ (line ∷ lines) else (c ∷ line) ∷ lines

pub split_lines : Bytes → List Bytes
unfolding step_line
split_lines [] = [] ∷ []
split_lines (c ∷ s) = step_line c (split_lines s)

pub known_by : Host → List Bytes
known_by h = h.read_hostname ∷ (h.hostname ∷ (h.private_address ∷ (h.address ∷ [])))

identity_loop : List Bytes → List Bytes → Bool
unfolding to_lower
identity_loop [] identities = false
identity_loop ([] ∷ ids) identities = identity_loop ids identities
identity_loop ((c ∷ id) ∷ ids) identities =
    let rest = identity_loop ids identities in
    if contains (to_lower (c ∷ id)) identities then true else rest

host_matches_identities : Host → List Bytes → Bool
unfolding identity_loop known_by
host_matches_identities h identities = identity_loop (known_by h) identities

-- The map from a host's name to its node, as an association list.
unfoldable pub lookup_node : String → List (String × Bytes) → Option Bytes
lookup_node k [] = none
lookup_node k ((j, node) ∷ by_host) = if str_eq j k then some node else lookup_node k by_host

-- One round of the inner loop.
match_host : Bytes → List Bytes → Host → List (String × Bytes) → List (String × Bytes)
unfolding lookup_node host_matches_identities
match_host node identities h by_host =
    if is_some (lookup_node h.entry.name by_host)
    then by_host
    else if host_matches_identities h identities
    then (h.entry.name, node) ∷ by_host
    else by_host

match_hosts : Bytes → List Bytes → List Host → List (String × Bytes) → List (String × Bytes)
unfolding match_host
match_hosts node identities [] by_host = by_host
match_hosts node identities (h ∷ hosts) by_host =
    match_hosts node identities hosts (match_host node identities h by_host)

match_line : List Bytes → List Host → List (String × Bytes) → List (String × Bytes)
unfolding match_hosts to_lower
match_line [] hosts by_host = by_host
match_line (node ∷ fields) hosts by_host =
    match_hosts node (map to_lower (node ∷ fields)) hosts by_host

match_lines : List Bytes → List Host → List (String × Bytes) → List (String × Bytes)
unfolding match_line fields_of
match_lines [] hosts by_host = by_host
match_lines (line ∷ lines) hosts by_host =
    match_lines lines hosts (match_line (fields_of line) hosts by_host)

unfoldable pub match_nodes_to_hosts : Bytes → List Host → List (String × Bytes)
unfolding match_lines split_lines
match_nodes_to_hosts listed hosts = match_lines (split_lines listed) hosts []

-- `resolveNodeNames`: without a leader, without hosts or without an answer there are no names.
resolve_by : Option Bytes → List Host → List (String × Bytes)
resolve_by none hosts = []
resolve_by (some listed) hosts = match_nodes_to_hosts listed hosts

unfoldable pub resolve_node_names : Option Host → Option Bytes → List Host → String → Option Bytes
unfolding resolve_by lookup_node match_nodes_to_hosts
resolve_node_names none listed hosts name = none
resolve_node_names (some leader) listed [] name = none
resolve_node_names (some leader) listed (h ∷ hosts) name =
    lookup_node name (resolve_by listed (h ∷ hosts))

-- `nodeNameFor`, which falls back to what the machine reports.
pub node_name_for : (String → Option Bytes) → Host → Bytes → Bytes
node_name_for names h reported = elim (names h.entry.name) [ none ↦ reported | some node ↦ node ]
