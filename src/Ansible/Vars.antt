-- ===== src/Ansible/Vars.antt =====
-- internal/ansibleinv/vars.go and the hosts of `Translate` of ansibleinv.go: a host of the cluster
-- from the variables of an inventory host. A text is the list of its bytes; a number is its sign, true
-- for minus, and its magnitude, in the range of an `int`. Whether a structured variable can be
-- decoded, which is a call of the JSON library, is a parameter.
mod Hosts
mod Examples
use cargoship.Prelude.{
  ℕ, Bool, true, false, not, ◌&&◌, ◌||◌, ◌⊎◌, inl, inr, String, Option, none, some, List, [], ◌∷◌,
  ◌++◌, any, Bytes, codes, ◌==◌, if◌then◌else◌,
}
use cargoship.Values.Text.{atoi}
use cargoship.Values.Tree.{same_bytes}
use cargoship.Overrides.{has_prefix}
use cargoship.Phase.Removed.{sort_texts}
use cargoship.Ansible.Roles.{Assignment, RoleError, Groups, RoleGroups, derive_roles}

pub data Var : Type 0 where
  null fraction other : Var
  text : Bytes → Var
  whole : Bool → ℕ → Var

abbrev pub Vars : Type 0
Vars = List (Bytes × Var)

pub data VarError : Type 0 where
  unknown_variables : Bytes → List Bytes → VarError
  not_a_string not_a_port unreadable : Bytes → Bytes → VarError

-- `decodeVar` on the variable of this name.
abbrev pub Decoder : Type 0
Decoder = Bytes → Var → Bool

infixl 5 ◌>>=◌ ◌>>◌
abbrev pub ◌>>=◌ : {A B : Type 0} → VarError ⊎ A → (A → VarError ⊎ B) → VarError ⊎ B
inl e >>= f = inl e
inr a >>= f = f a

abbrev ◌>>◌ : {B : Type 0} → Option VarError → VarError ⊎ B → VarError ⊎ B
none >> m = m
some e >> m = inl e

abbrev pub prefix : Bytes
prefix = codes "cargoship_"

abbrev pub known : List Bytes
known =
    codes "cargoship_bastion"
    ∷ codes "cargoship_environment"
    ∷ codes "cargoship_files"
    ∷ codes "cargoship_host"
    ∷ codes "cargoship_hostname"
    ∷ codes "cargoship_node_labels"
    ∷ codes "cargoship_node_taints"
    ∷ codes "cargoship_private_address"
    ∷ codes "cargoship_private_interface"
    ∷ codes "cargoship_profile"
    ∷ []

abbrev pub is_known : Bytes → Bool
is_known name = any (λ k. same_bytes k name) known

-- The loop of `checkUnknown`.
unknown_names : Vars → List Bytes
unfolding has_prefix
unknown_names [] = []
unknown_names ((name, v) ∷ vars) =
    let rest = unknown_names vars in
    if has_prefix prefix name && not (is_known name) then name ∷ rest else rest

unknown_error : Bytes → List Bytes → Option VarError
unfolding sort_texts
unknown_error host [] = none
unknown_error host (name ∷ names) = some (unknown_variables host (sort_texts (name ∷ names)))

pub check_unknown : Bytes → Vars → Option VarError
unfolding unknown_names unknown_error
check_unknown host vars = unknown_error host (unknown_names vars)

find_var : Bytes → Vars → Option Var
find_var name [] = none
find_var name ((n, v) ∷ vars) = if same_bytes n name then some v else find_var name vars

as_string : Bytes → Bytes → Option Var → VarError ⊎ Bytes
as_string host name none = inr []
as_string host name (some null) = inr []
as_string host name (some (text s)) = inr s
as_string host name (some fraction) = inl (not_a_string host name)
as_string host name (some other) = inl (not_a_string host name)
as_string host name (some (whole minus n)) = inl (not_a_string host name)

pub string_var : Bytes → Vars → Bytes → VarError ⊎ Bytes
unfolding find_var as_string
string_var host vars name = as_string host name (find_var name vars)

read_port : Bytes → Bytes → Option (Bool × ℕ) → VarError ⊎ (Bool × ℕ)
read_port host name none = inl (not_a_port host name)
read_port host name (some n) = inr n

as_port : Bytes → Bytes → Option Var → VarError ⊎ (Bool × ℕ)
unfolding atoi read_port
as_port host name none = inr (false, 0)
as_port host name (some null) = inr (false, 0)
as_port host name (some (whole minus n)) = inr (minus, n)
as_port host name (some (text s)) = read_port host name (atoi s)
as_port host name (some fraction) = inl (not_a_port host name)
as_port host name (some other) = inl (not_a_port host name)

pub port_var : Bytes → Vars → Bytes → VarError ⊎ (Bool × ℕ)
unfolding find_var as_port
port_var host vars name = as_port host name (find_var name vars)

-- What is decoded is kept as the variable that it was decoded from.
decoded : Decoder → Bytes → Bytes → Option Var → VarError ⊎ Option Var
decoded accepts host name none = inr none
decoded accepts host name (some null) = inr none
decoded accepts host name (some v) =
    if accepts name v then inr (some v) else inl (unreadable host name)

pub decode_var : Decoder → Bytes → Vars → Bytes → VarError ⊎ Option Var
unfolding find_var decoded
decode_var accepts host vars name = decoded accepts host name (find_var name vars)

abbrev pub or_default : Bytes → Bytes → Bytes
or_default default [] = default
or_default default (c ∷ s) = c ∷ s

abbrev or_none : Bytes → Option Bytes
or_none [] = none
or_none (c ∷ s) = some (c ∷ s)

abbrev default_port : Bool × ℕ → Bool × ℕ
default_port (minus, n) = if n == 0 then (false, 22) else (minus, n)

pub record Connection : Type 0 where
  pub address : Bytes
  pub user : Bytes
  pub port : Bool × ℕ
  pub key_path : Option Bytes
  pub bastion : Option Var

pub record Naming : Type 0 where
  pub hostname : Bytes
  pub profile : Bytes
  pub private_address : Bytes
  pub private_interface : Bytes

pub record Structure : Type 0 where
  pub environment : Option Var
  pub files : Option Var
  pub host : Option Var
  pub node_labels : Option Var
  pub node_taints : Option Var

pub record Host : Type 0 where
  pub role : Bytes
  pub connection : Connection
  pub naming : Naming
  pub structure : Structure

-- `hostFromVars`, in three parts.
connection_from : Decoder → Assignment → Vars → VarError ⊎ Connection
unfolding string_var port_var decode_var
connection_from accepts a vars = do
  address ← string_var a.host vars (codes "ansible_host")
  user ← string_var a.host vars (codes "ansible_user")
  port ← port_var a.host vars (codes "ansible_port")
  key_path ← string_var a.host vars (codes "ansible_ssh_private_key_file")
  bastion ← decode_var accepts a.host vars (codes "cargoship_bastion")
  inr (record {
    address = or_default a.host address;
    user = or_default (codes "root") user;
    port = default_port port;
    key_path = or_none key_path;
    bastion = bastion;
  })

naming_from : Assignment → Vars → VarError ⊎ Naming
unfolding string_var
naming_from a vars = do
  given ← string_var a.host vars (codes "cargoship_hostname")
  profile ← string_var a.host vars (codes "cargoship_profile")
  private_address ← string_var a.host vars (codes "cargoship_private_address")
  private_interface ← string_var a.host vars (codes "cargoship_private_interface")
  inr (record {
    hostname = or_default a.host given;
    profile = or_default a.role profile;
    private_address = private_address;
    private_interface = private_interface;
  })

structure_from : Decoder → Assignment → Vars → VarError ⊎ Structure
unfolding decode_var
structure_from accepts a vars = do
  environment ← decode_var accepts a.host vars (codes "cargoship_environment")
  files ← decode_var accepts a.host vars (codes "cargoship_files")
  host ← decode_var accepts a.host vars (codes "cargoship_host")
  node_labels ← decode_var accepts a.host vars (codes "cargoship_node_labels")
  node_taints ← decode_var accepts a.host vars (codes "cargoship_node_taints")
  inr (record {
    environment = environment;
    files = files;
    host = host;
    node_labels = node_labels;
    node_taints = node_taints;
  })

pub host_from_vars : Decoder → Assignment → Vars → VarError ⊎ Host
unfolding check_unknown connection_from naming_from structure_from
host_from_vars accepts a vars = do
  check_unknown a.host vars
  connection ← connection_from accepts a vars
  naming ← naming_from a vars
  structure ← structure_from accepts a vars
  inr (record { role = a.role; connection = connection; naming = naming; structure = structure })

-- The loop of `Translate`; a host without variables has none.
pub hosts_from : Decoder → (Bytes → Vars) → List Assignment → VarError ⊎ List Host
unfolding host_from_vars
hosts_from accepts host_vars [] = inr []
hosts_from accepts host_vars (a ∷ assignments) = do
  h ← host_from_vars accepts a (host_vars a.host)
  hosts ← hosts_from accepts host_vars assignments
  inr (h ∷ hosts)

pub data TranslateError : Type 0 where
  name_required loadbalancer_required : TranslateError
  of_roles : RoleError → TranslateError
  of_vars : VarError → TranslateError

lift_vars : VarError ⊎ List Host → TranslateError ⊎ List Host
lift_vars (inl e) = inl (of_vars e)
lift_vars (inr hosts) = inr hosts

lift_roles : Decoder → (Bytes → Vars) → RoleError ⊎ List Assignment → TranslateError ⊎ List Host
unfolding lift_vars hosts_from
lift_roles accepts host_vars (inl e) = inl (of_roles e)
lift_roles accepts host_vars (inr assignments) =
    lift_vars (hosts_from accepts host_vars assignments)

-- The hosts of `Translate`, from the name and the load balancer of the cluster; the check of the
-- document against the schema comes behind this.
pub translate :
    Decoder → Bytes → Bytes → Groups → RoleGroups → (Bytes → Vars) → TranslateError ⊎ List Host
unfolding lift_roles derive_roles
translate accepts [] loadbalancer groups role_groups host_vars = inl name_required
translate accepts (c ∷ name) [] groups role_groups host_vars = inl loadbalancer_required
translate accepts (c ∷ name) (d ∷ loadbalancer) groups role_groups host_vars =
    lift_roles accepts host_vars (derive_roles groups role_groups)
