-- ===== src/Ansible/Roles/Assignments.antt =====
-- The assignments that `deriveRoles` of internal/ansibleinv/roles.go returns.
use mathlib.Core.Path.{subst}
use cargoship.Prelude.{
  ◌≡◌, refl, sym, ◌∙◌, ap, ◌⊎◌, inl, inr, true, false, ◌||◌, Option, none, some, List, [], ◌∷◌,
  ◌++◌, any, Bytes, All, All-append, All-mono, ◌≢◌, Bool-cases, arith,
}
use cargoship.Values.Tree.{same_bytes}
use cargoship.Ansible.Roles.{
  role_controller, role_worker, Groups, RoleGroups, Assignment, RoleError, default_role_groups,
  is_blank, hosts_of_group, group_visits, role_visits, visits, groups_of_role, visit_all,
  check_assignments, derive_checked, check_roles, check_groups_exist, first_error, derive_roles,
}
use cargoship.Ansible.Roles.Rounds.{
  first_visits, role_of, first_visits_seen, first_visits_new, Visits, visit_all-Visits,
}

-- The mapping that counts: the default where none is given.
abbrev pub mapping : RoleGroups → RoleGroups
mapping [] = default_role_groups
mapping (e ∷ entries) = e ∷ entries

check_assignments-inr :
    (o : RoleError ⊎ List Assignment) (out : List Assignment)
    → check_assignments o ≡ inr out
    → (o ≡ inr out) × (any (λ b. same_bytes b.role role_controller) out ≡ true)
unfolding check_assignments
check_assignments-inr (inl e) out h = ground (arith, h)
check_assignments-inr (inr []) out h = ground (arith, h)
check_assignments-inr (inr (a ∷ as')) out h =
    elim (Bool-cases (any (λ b. same_bytes b.role role_controller) (a ∷ as'))) [
      | inl y ↦
          let e : a ∷ as' ≡ out = ground (arith, rw y at h) in
          (ap inr e, subst (λ o. any (λ b. same_bytes b.role role_controller) o ≡ true) e y)
      | inr n ↦ ground (arith, rw n at h)
    ]

derive_checked-inr :
    (o : Option RoleError) (groups : Groups) (entries : RoleGroups) (out : List Assignment)
    → derive_checked o groups entries ≡ inr out
    → Visits (visits groups entries) [] out
      × (any (λ b. same_bytes b.role role_controller) out ≡ true)
unfolding derive_checked
derive_checked-inr (some e) groups entries out h = ground (arith, h)
derive_checked-inr none groups entries out h =
    let (e, c) = check_assignments-inr (visit_all (visits groups entries) []) out h in
    (visit_all-Visits (visits groups entries) [] out e, c)

abbrev AllRole : Bytes → List Assignment → Type 0
AllRole role = All (λ a. a.role ≡ role)

group_visits-AllRole :
    (role g : Bytes) (hosts : List Bytes) → AllRole role (group_visits role g hosts)
unfolding group_visits
group_visits-AllRole role g [] = tt
group_visits-AllRole role g (h ∷ hosts) = (refl, group_visits-AllRole role g hosts)

role_visits-AllRole :
    (groups : Groups) (role : Bytes) (gs : List Bytes) → AllRole role (role_visits groups role gs)
unfolding role_visits
role_visits-AllRole groups role [] = tt
role_visits-AllRole groups role (g ∷ gs) =
    All-append (λ a. a.role ≡ role) (group_visits role g (hosts_of_group (groups g)))
      (role_visits groups role gs) (group_visits-AllRole role g (hosts_of_group (groups g)))
      (role_visits-AllRole groups role gs)

no_controllers :
    (seen vs : List Assignment)
    → AllRole role_worker vs
    → any (λ b. same_bytes b.role role_controller) (first_visits seen vs) ≡ false
no_controllers seen [] h = refl
no_controllers seen (v ∷ vs) (e, es) =
    elim (Bool-cases (any (λ a. same_bytes a.host v.host) seen)) [
      | inl y ↦
          ap (any (λ b. same_bytes b.role role_controller)) (first_visits_seen v vs seen y)
          ∙ no_controllers seen vs es
      | inr n ↦
          ap (any (λ b. same_bytes b.role role_controller)) (first_visits_new v vs seen n)
          ∙ ap
              (λ r.
                same_bytes r role_controller
                || any (λ b. same_bytes b.role role_controller) (first_visits (seen ++ v ∷ []) vs))
              e
          ∙ no_controllers (seen ++ v ∷ []) vs es
    ]

-- The first visit is one for a controller.
led :
    (vs ws out : List Assignment)
    → AllRole role_controller vs
    → AllRole role_worker ws
    → out ≡ first_visits [] (vs ++ ws)
    → any (λ b. same_bytes b.role role_controller) out ≡ true
    → (leader : Assignment) × (rest : List Assignment) × (out ≡ leader ∷ rest)
      × (leader.role ≡ role_controller)
led [] ws out cs es e h =
    ground
      (arith, h, sym (no_controllers [] ws es), ap (any (λ b. same_bytes b.role role_controller)) e)
led (v ∷ vs) ws out (c, cs) es e h = (v, first_visits (v ∷ []) (vs ++ ws), e, c)

-- What an accepted translation of the groups guarantees.
abbrev pub Derived : List Assignment → List Assignment → Type 0
Derived vs out =
    (out ≡ first_visits [] vs)
    × All (λ v. (is_blank v.host ≡ false) × (role_of v.host out ≡ some v.role)) vs
    × ((leader : Assignment) × (rest : List Assignment) × (out ≡ leader ∷ rest)
        × (leader.role ≡ role_controller))

Visits-Derived :
    (groups : Groups) (entries : RoleGroups) (out : List Assignment)
    → Visits (visits groups entries) [] out
    → any (λ b. same_bytes b.role role_controller) out ≡ true
    → Derived (visits groups entries) out
unfolding visits
Visits-Derived groups entries out (e, rs) c = (
  e,
  rs,
  led (role_visits groups role_controller (groups_of_role entries role_controller))
      (role_visits groups role_worker (groups_of_role entries role_worker)) out
      (role_visits-AllRole groups role_controller (groups_of_role entries role_controller))
      (role_visits-AllRole groups role_worker (groups_of_role entries role_worker)) e c,
)

-- Accepted assignments are, in the order of the groups, one for each host of the mapped groups, by
-- the first group that lists it; each host of such a group has a name that is not blank and takes the
-- role of every group that lists it; and the first assignment is one of a controller.
pub derive_roles-Derived :
    (groups : Groups) (role_groups : RoleGroups) (out : List Assignment)
    → derive_roles groups role_groups ≡ inr out
    → Derived (visits groups (mapping role_groups)) out
unfolding derive_roles
derive_roles-Derived groups [] out h =
    let (v, c) =
      derive_checked-inr (check_roles default_role_groups) groups default_role_groups out h in
    Visits-Derived groups default_role_groups out v c
derive_roles-Derived groups (e ∷ entries) out h =
    let (v, c) =
      derive_checked-inr
        (first_error (check_roles (e ∷ entries)) (check_groups_exist groups (e ∷ entries))) groups
        (e ∷ entries) out h in
    Visits-Derived groups (e ∷ entries) out v c

not_blank : (s : Bytes) → is_blank s ≡ false → s ≢ []
unfolding is_blank
not_blank s b e = ground (arith, subst (λ t. is_blank t ≡ false) e b)

first_visits-All :
    (P : Assignment → Type 0) (seen vs : List Assignment) → All P vs → All P (first_visits seen vs)
first_visits-All P seen [] h = tt
first_visits-All P seen (v ∷ vs) (h, hs) =
    elim (Bool-cases (any (λ a. same_bytes a.host v.host) seen)) [
      | inl y ↦ subst (All P) (sym (first_visits_seen v vs seen y)) (first_visits-All P seen vs hs)
      | inr n ↦
          subst (All P) (sym (first_visits_new v vs seen n))
            (h, first_visits-All P (seen ++ v ∷ []) vs hs)
    ]

has_role :
    (role : Bytes) (vs : List Assignment) → role ≢ [] → AllRole role vs → All (λ a. a.role ≢ []) vs
has_role role vs ne rs =
    All-mono (λ (a : Assignment). a.role ≡ role) (λ a. a.role ≢ []) vs (λ a e f. ne (sym e ∙ f)) rs

visits_roles :
    (groups : Groups) (entries : RoleGroups) → All (λ a. a.role ≢ []) (visits groups entries)
unfolding visits
visits_roles groups entries =
    All-append (λ a. a.role ≢ [])
      (role_visits groups role_controller (groups_of_role entries role_controller))
      (role_visits groups role_worker (groups_of_role entries role_worker))
      (has_role role_controller _ (λ e. ground (arith, e))
        (role_visits-AllRole groups role_controller (groups_of_role entries role_controller)))
      (has_role role_worker _ (λ e. ground (arith, e))
        (role_visits-AllRole groups role_worker (groups_of_role entries role_worker)))

-- The hosts and the roles of the assignments are not empty.
pub derive_roles_given :
    (groups : Groups) (role_groups : RoleGroups) (out : List Assignment)
    → derive_roles groups role_groups ≡ inr out
    → All (λ a. a.host ≢ []) out × All (λ a. a.role ≢ []) out
derive_roles_given groups role_groups out h =
    let (e, named, l) = derive_roles-Derived groups role_groups out h in
    let vs = visits groups (mapping role_groups) in
    (
      subst (All (λ a. a.host ≢ [])) (sym e) (
          first_visits-All (λ a. a.host ≢ []) [] vs
            (All-mono
              (λ (v : Assignment). (is_blank v.host ≡ false) × (role_of v.host out ≡ some v.role))
              (λ v. v.host ≢ []) vs (λ v p. not_blank v.host p.0) named)),
      subst (All (λ a. a.role ≢ [])) (sym e)
          (first_visits-All (λ a. a.role ≢ []) [] vs (visits_roles groups (mapping role_groups))),
    )
