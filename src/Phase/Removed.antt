-- ===== src/Phase/Removed.antt =====
-- pkg/phase/13_detect_removed_hosts.go: the nodes of a cluster that no host of the configuration
-- accounts for. A text is the list of its bytes, which are taken to be ASCII; what a host is known by
-- stands for the four identifiers that the source reads.
pub mod Detection
mod Examples
use cargoship.Prelude.{
  ℕ, ◌+◌, Bool, true, false, not, ◌&&◌, Option, none, some, List, [], ◌∷◌, ◌++◌, map, any, Bytes,
  codes, leb, ltb, if◌then◌else◌,
}
use cargoship.Values.Tree.{same_bytes}

pub record Identity : Type 0 where
  pub read_hostname : Bytes
  pub hostname : Bytes
  pub private_address : Bytes
  pub address : Bytes

pub record KubectlNode : Type 0 where
  pub name : Bytes
  pub labels : List Bytes
  pub addresses : List Bytes

abbrev pub control_plane_labels : List Bytes
control_plane_labels =
    codes "node-role.kubernetes.io/control-plane"
    ∷ codes "node-role.kubernetes.io/master"
    ∷ codes "node-role.kubernetes.io/etcd"
    ∷ []

lower_byte : ℕ → ℕ
lower_byte c = if leb 65 c && leb c 90 then c + 32 else c

-- `strings.ToLower`.
unfoldable pub to_lower : Bytes → Bytes
unfolding lower_byte
to_lower s = map lower_byte s

abbrev pub contains : Bytes → List Bytes → Bool
contains k ks = any (λ l. same_bytes l k) ks

abbrev pub identifiers : Identity → List Bytes
identifiers h = h.read_hostname ∷ (h.hostname ∷ (h.private_address ∷ (h.address ∷ [])))

known_ids : List Bytes → List Bytes
known_ids [] = []
known_ids ([] ∷ ids) = known_ids ids
known_ids ((c ∷ id) ∷ ids) = to_lower (c ∷ id) ∷ known_ids ids

known_of : List Identity → List Bytes
unfolding known_ids
known_of [] = []
known_of (h ∷ hosts) = known_ids (identifiers h) ++ known_of hosts

-- The loop over the addresses in `isKnownNode`.
known_address : List Bytes → List Bytes → Bool
known_address known [] = false
known_address known ([] ∷ addresses) = known_address known addresses
known_address known ((c ∷ a) ∷ addresses) =
    let rest = known_address known addresses in
    if contains (to_lower (c ∷ a)) known then true else rest

pub is_known_node : KubectlNode → List Bytes → Bool
unfolding known_address
is_known_node node known =
    if contains (to_lower node.name) known then true else known_address known node.addresses

role_loop : KubectlNode → List Bytes → Bytes
role_loop node [] = codes "worker"
role_loop node (label ∷ labels) =
    let rest = role_loop node labels in
    if contains label node.labels then codes "controller" else rest

pub node_role : KubectlNode → Bytes
unfolding role_loop
node_role node = role_loop node control_plane_labels

-- `fmt.Sprintf("%s (%s)", …)`.
pub described : KubectlNode → Bytes
described node = node.name ++ (codes " (" ++ (node_role node ++ codes ")"))

-- The loop over the nodes.
unmanaged_loop : List Bytes → List KubectlNode → List Bytes
unmanaged_loop known [] = []
unmanaged_loop known (node ∷ nodes) =
    let rest = unmanaged_loop known nodes in
    if is_known_node node known then rest else described node ∷ rest

-- The order of texts by their bytes.
abbrev pub text_le : Bytes → Bytes → Bool
text_le [] t = true
text_le (c ∷ s) [] = false
text_le (c ∷ s) (d ∷ t) = if ltb c d then true else if ltb d c then false else text_le s t

insert_text : Bytes → List Bytes → List Bytes
insert_text s [] = s ∷ []
insert_text s (t ∷ ts) =
    let rest = insert_text s ts in if text_le s t then s ∷ (t ∷ ts) else t ∷ rest

-- `sort.Strings`.
unfoldable pub sort_texts : List Bytes → List Bytes
unfolding insert_text
sort_texts [] = []
sort_texts (t ∷ ts) = insert_text t (sort_texts ts)

pub unmanaged_nodes : List Identity → List KubectlNode → List Bytes
unfolding unmanaged_loop known_of sort_texts
unmanaged_nodes hosts nodes = sort_texts (unmanaged_loop (known_of hosts) nodes)

-- The end of `Run`: the error names the nodes.
refuse : Bool → List Bytes → Option (List Bytes)
refuse allow [] = none
refuse allow (u ∷ us) = if allow then none else some (u ∷ us)

-- `Run`, from the list of the nodes, none where it could not be read.
pub detect : Bool → List Identity → Option (List KubectlNode) → Option (List Bytes)
unfolding refuse
detect allow hosts none = none
detect allow hosts (some nodes) = refuse allow (unmanaged_nodes hosts nodes)
