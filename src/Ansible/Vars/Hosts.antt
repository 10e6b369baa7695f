-- ===== src/Ansible/Vars/Hosts.antt =====
-- The hosts that `Translate` of internal/ansibleinv/ansibleinv.go returns.
use mathlib.Core.Path.{subst}
use cargoship.Prelude.{
  ℕ, ◌≡◌, ◌≢◌, refl, ◌∙◌, ap, ◌⊎◌, inl, inr, Bool, false, not, ◌&&◌, Option, none, some, List, [],
  ◌∷◌, Bytes, codes, All, Bool-cases, ◌==◌, arith,
}
use cargoship.Overrides.{has_prefix}
use cargoship.Ansible.Roles.{
  Assignment, Groups, RoleGroups, RoleError, role_controller, derive_roles,
}
use cargoship.Ansible.Roles.Assignments.{derive_roles-Derived, derive_roles_given}
use cargoship.Ansible.Vars.{
  Var, Vars, VarError, Decoder, ◌>>=◌, ◌>>◌, default_port, prefix, is_known, unknown_names,
  unknown_error, check_unknown, string_var, port_var, decode_var, or_default, Connection, Naming,
  Host, connection_from, naming_from, structure_from, host_from_vars, hosts_from, lift_vars,
  lift_roles, translate,
}

>>=-inr :
    {A B : Type 0} (m : VarError ⊎ A) (f : A → VarError ⊎ B) {b : B}
    → (m >>= f) ≡ inr b
    → (a : A) × (m ≡ inr a) × (f a ≡ inr b)
>>=-inr (inl e) f h = ground (arith, h)
>>=-inr (inr a) f h = (a, refl, h)

or_default_given : (d s : Bytes) → d ≢ [] → or_default d s ≢ []
or_default_given d [] h = h
or_default_given d (e ∷ s) h = λ p. ground (arith, p)

abbrev IsConnected : Connection → Type 0
IsConnected c = (c.address ≢ []) × (c.user ≢ []) × (c.port.1 ≢ 0)

inr-inj : {A : Type 0} (a b : A) → ◌≡◌ {A = VarError ⊎ A} (inr a) (inr b) → a ≡ b
inr-inj {A} a b h = ap (λ (m : VarError ⊎ A). elim m [ inl e ↦ a | inr c ↦ c ]) h

default_port_given : (n : Bool × ℕ) → (default_port n).1 ≢ 0
default_port_given (minus, n) = elim (Bool-cases (n == 0)) [
  | inl y ↦ rw y (λ e. ground (arith, e))
  | inr f ↦ rw f (λ e. ground (arith, f, e))
]

connection-IsConnected :
    (accepts : Decoder) (a : Assignment) (vars : Vars) (c : Connection)
    → a.host ≢ []
    → connection_from accepts a vars ≡ inr c
    → IsConnected c
unfolding connection_from
connection-IsConnected accepts a vars c given h =
    let (address, e1, h1) = >>=-inr (string_var a.host vars (codes "ansible_host")) _ h in
    let (user, e2, h2) = >>=-inr (string_var a.host vars (codes "ansible_user")) _ h1 in
    let (port, e3, h3) = >>=-inr (port_var a.host vars (codes "ansible_port")) _ h2 in
    let (key_path, e4, h4) =
      >>=-inr (string_var a.host vars (codes "ansible_ssh_private_key_file")) _ h3 in
    let (bastion, e5, h5) =
      >>=-inr (decode_var accepts a.host vars (codes "cargoship_bastion")) _ h4 in
    subst IsConnected (inr-inj _ c h5) (
      or_default_given a.host address given,
      or_default_given (codes "root") user (λ e. ground (arith, e)),
      default_port_given port,
    )

abbrev IsNamed : Naming → Type 0
IsNamed n = (n.hostname ≢ []) × (n.profile ≢ [])

naming-IsNamed :
    (a : Assignment) (vars : Vars) (n : Naming)
    → a.host ≢ []
    → a.role ≢ []
    → naming_from a vars ≡ inr n
    → IsNamed n
unfolding naming_from
naming-IsNamed a vars n given role h =
    let (hostname, e1, h1) = >>=-inr (string_var a.host vars (codes "cargoship_hostname")) _ h in
    let (profile, e2, h2) = >>=-inr (string_var a.host vars (codes "cargoship_profile")) _ h1 in
    let (address, e3, h3) =
      >>=-inr (string_var a.host vars (codes "cargoship_private_address")) _ h2 in
    let (iface, e4, h4) =
      >>=-inr (string_var a.host vars (codes "cargoship_private_interface")) _ h3 in
    subst IsNamed (inr-inj _ n h4)
      (or_default_given a.host hostname given, or_default_given a.role profile role)

-- Every variable in the namespace is one that is read.
abbrev pub AllKnown : Vars → Type 0
AllKnown vars =
    All (λ (v : Bytes × Var). (has_prefix prefix v.0 && not (is_known v.0)) ≡ false) vars

unknown_names-AllKnown : (vars : Vars) → unknown_names vars ≡ [] → AllKnown vars
unfolding unknown_names
unknown_names-AllKnown [] h = tt
unknown_names-AllKnown ((name, v) ∷ vars) h =
    elim (Bool-cases (has_prefix prefix name && not (is_known name))) [
      | inl y ↦ ground (arith, rw y at h)
      | inr n ↦ (n, unknown_names-AllKnown vars (rw n at h))
    ]

unknown_error-none :
    (host : Bytes) (names : List Bytes) → unknown_error host names ≡ none → names ≡ []
unfolding unknown_error
unknown_error-none host [] h = refl
unknown_error-none host (n ∷ names) h = ground (arith, h)

-- A host that a phase can tell apart and reach, of the role that it was assigned.
abbrev pub IsUsable : Assignment → Host → Type 0
IsUsable a h =
    (h.role ≡ a.role)
    × (h.naming.hostname ≢ [])
    × (h.naming.profile ≢ [])
    × (h.connection.address ≢ [])
    × (h.connection.user ≢ [])
    × (h.connection.port.1 ≢ 0)

>>-inr :
    {B : Type 0} (o : Option VarError) (m : VarError ⊎ B) {b : B}
    → (o >> m) ≡ inr b
    → (o ≡ none) × (m ≡ inr b)
>>-inr none m h = (refl, h)
>>-inr (some e) m h = ground (arith, h)

host-IsUsable :
    (accepts : Decoder) (a : Assignment) (vars : Vars) (host : Host)
    → a.host ≢ []
    → a.role ≢ []
    → host_from_vars accepts a vars ≡ inr host
    → IsUsable a host × AllKnown vars
unfolding host_from_vars check_unknown
host-IsUsable accepts a vars host given role h =
    let (u, h0) = >>-inr (check_unknown a.host vars) _ h in
    let (c, e1, h1) = >>=-inr (connection_from accepts a vars) _ h0 in
    let (n, e2, h2) = >>=-inr (naming_from a vars) _ h1 in
    let (s, e3, h3) = >>=-inr (structure_from accepts a vars) _ h2 in
    let (address, user, port) = connection-IsConnected accepts a vars c given e1 in
    let (hostname, profile) = naming-IsNamed a vars n given role e2 in
    (
      subst (IsUsable a) (inr-inj _ host h3) (refl, hostname, profile, address, user, port),
      unknown_names-AllKnown vars (unknown_error-none a.host (unknown_names vars) u),
    )

-- The hosts are those of the assignments, one for each, in their order.
abbrev pub Translated : (Bytes → Vars) → List Assignment → List Host → Type 0
Translated host_vars [] [] = Unit {0}
Translated host_vars [] (h ∷ hosts) = ⊥
Translated host_vars (a ∷ assignments) [] = ⊥
Translated host_vars (a ∷ assignments) (h ∷ hosts) =
    IsUsable a h × AllKnown (host_vars a.host) × Translated host_vars assignments hosts

hosts_from-Translated :
    (accepts : Decoder) (host_vars : Bytes → Vars) (assignments : List Assignment)
    (hosts : List Host)
    → All (λ a. a.host ≢ []) assignments
    → All (λ a. a.role ≢ []) assignments
    → hosts_from accepts host_vars assignments ≡ inr hosts
    → Translated host_vars assignments hosts
unfolding hosts_from
hosts_from-Translated accepts host_vars [] hosts hs rs h =
    subst (Translated host_vars []) (inr-inj [] hosts h) tt
hosts_from-Translated accepts host_vars (a ∷ assignments) hosts (g, hs) (r, rs) h =
    let (host, e1, h1) = >>=-inr (host_from_vars accepts a (host_vars a.host)) _ h in
    let (others, e2, h2) = >>=-inr (hosts_from accepts host_vars assignments) _ h1 in
    let (usable, all_known) = host-IsUsable accepts a (host_vars a.host) host g r e1 in
    subst (Translated host_vars (a ∷ assignments)) (inr-inj (host ∷ others) hosts h2)
      (usable, all_known, hosts_from-Translated accepts host_vars assignments others hs rs e2)

lift_vars-inr :
    (m : VarError ⊎ List Host) (hosts : List Host) → lift_vars m ≡ inr hosts → m ≡ inr hosts
unfolding lift_vars
lift_vars-inr (inl e) hosts h = ground (arith, h)
lift_vars-inr (inr hs) hosts h = ap inr (ground (arith, h))

lift_roles-inr :
    (accepts : Decoder) (host_vars : Bytes → Vars) (m : RoleError ⊎ List Assignment)
    (hosts : List Host)
    → lift_roles accepts host_vars m ≡ inr hosts
    → (out : List Assignment) × (m ≡ inr out) × (hosts_from accepts host_vars out ≡ inr hosts)
unfolding lift_roles
lift_roles-inr accepts host_vars (inl e) hosts h = ground (arith, h)
lift_roles-inr accepts host_vars (inr out) hosts h =
    (out, refl, lift_vars-inr (hosts_from accepts host_vars out) hosts h)

translate-inr :
    (accepts : Decoder) (name loadbalancer : Bytes) (groups : Groups) (role_groups : RoleGroups)
    (host_vars : Bytes → Vars) (hosts : List Host)
    → translate accepts name loadbalancer groups role_groups host_vars ≡ inr hosts
    → (out : List Assignment) × (derive_roles groups role_groups ≡ inr out)
      × (hosts_from accepts host_vars out ≡ inr hosts)
unfolding translate
translate-inr accepts [] loadbalancer groups role_groups host_vars hosts h = ground (arith, h)
translate-inr accepts (c ∷ name) [] groups role_groups host_vars hosts h = ground (arith, h)
translate-inr accepts (c ∷ name) (d ∷ lb) groups role_groups host_vars hosts h =
    lift_roles-inr accepts host_vars (derive_roles groups role_groups) hosts h

leader_first :
    (host_vars : Bytes → Vars) (out : List Assignment) (hosts : List Host) {a : Assignment}
    {rest : List Assignment}
    → out ≡ a ∷ rest
    → a.role ≡ role_controller
    → Translated host_vars out hosts
    → (leader : Host) × (others : List Host) × (hosts ≡ leader ∷ others)
      × (leader.role ≡ role_controller)
leader_first host_vars [] hosts e r t = ground (arith, e)
leader_first host_vars (b ∷ out) [] e r t = absurd t
leader_first host_vars (b ∷ out) (h ∷ hosts) {a} e r (usable, k, t) =
    let q : b ≡ a = ground (arith, e) in (h, hosts, refl, usable.0 ∙ ap Assignment.role q ∙ r)

-- An accepted translation has a host for each assignment that the groups give, in their order, with
-- its role; each has a hostname, a profile, an address and a user that are not empty and a port that
-- is not zero; no variable in the namespace of cargoship is one that is not read; and the first host,
-- which becomes the leader, is a controller.
pub translate-Translated :
    (accepts : Decoder) (name loadbalancer : Bytes) (groups : Groups) (role_groups : RoleGroups)
    (host_vars : Bytes → Vars) (hosts : List Host)
    → translate accepts name loadbalancer groups role_groups host_vars ≡ inr hosts
    → ((out : List Assignment) × (derive_roles groups role_groups ≡ inr out)
        × Translated host_vars out hosts)
      × ((leader : Host) × (others : List Host) × (hosts ≡ leader ∷ others)
          × (leader.role ≡ role_controller))
translate-Translated accepts name loadbalancer groups role_groups host_vars hosts h =
    let (out, e, f) =
      translate-inr accepts name loadbalancer groups role_groups host_vars hosts h in
    let (given, roles) = derive_roles_given groups role_groups out e in
    let t = hosts_from-Translated accepts host_vars out hosts given roles f in
    let (a, rest, p, r) = (derive_roles-Derived groups role_groups out e).2 in
    ((out, e, t), leader_first host_vars out hosts p r t)
