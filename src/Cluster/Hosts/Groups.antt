-- ===== src/Cluster/Hosts/Groups.antt =====
-- `GroupByProfile` and the role selections of api/colonel-byte.dev/v1alpha1/cluster/hosts.go.
use cargoship.Prelude.{
  ℕ, suc, max, min, String, ◌≡◌, refl, inl, inr, ◌∙◌, List, [], ◌∷◌, ◌++◌, append_assoc, append-nil,
  arith, str_eq, eq_iff, if◌then◌else◌, Bool-cases, length,
}
use cargoship.Cluster.Hosts.{Host, filter, HostGroup, add_to_group, group_loop, group_by_profile}

-- How many groups a list has for a profile, and the hosts of the first of them.
abbrev pub groups_of : String → List HostGroup → ℕ
groups_of k [] = 0
groups_of k (g ∷ gs) = if str_eq g.profile k then suc (groups_of k gs) else groups_of k gs

abbrev pub hosts_of : String → List HostGroup → List Host
hosts_of k [] = []
hosts_of k (g ∷ gs) = if str_eq g.profile k then g.hosts else hosts_of k gs

abbrev pub with_profile : String → List Host → List Host
with_profile k = filter (λ h. str_eq h.profile k)

add_lem :
    (k : String) (h : Host) (gs : List HostGroup)
    → (groups_of k (add_to_group h gs) ≡ max (if str_eq h.profile k then 1 else 0) (groups_of k gs))
      × (hosts_of k (add_to_group h gs)
          ≡ hosts_of k gs ++ (if str_eq h.profile k then h ∷ [] else []))
unfolding add_to_group
add_lem k h [] = ground arith
add_lem k h (g ∷ gs) = ground (
  arith,
  add_lem k h gs,
  append-nil g.hosts,
  append-nil (hosts_of k gs),
  eq_iff g.profile k,
  eq_iff h.profile k,
  eq_iff g.profile h.profile,
)

group_lem :
    (k : String) (hs : List Host) (gs : List HostGroup)
    → (groups_of k (group_loop hs gs) ≡ max (min 1 (length (with_profile k hs))) (groups_of k gs))
      × (hosts_of k (group_loop hs gs) ≡ hosts_of k gs ++ with_profile k hs)
unfolding group_loop filter
group_lem k [] gs = (omega arith, rw append-nil refl)
group_lem k (h ∷ hs) gs =
    let (a, b) = group_lem k hs (add_to_group h gs) in
    let (c, d) = add_lem k h gs in
    elim (Bool-cases (str_eq h.profile k)) [
      | inl y ↦ (rw y (omega (arith, a, rw y at c)), b ∙ rw (d, y, append_assoc))
      | inr n ↦ (rw n (omega (arith, a, rw n at c)), b ∙ rw (d, n, append-nil))
    ]

-- There is one group for each profile that some host has, and none for any other; its hosts are the
-- hosts with that profile, in their order in the list.
group_by_profile_lem :
    (k : String) (hs : List Host)
    → (groups_of k (group_by_profile hs) ≡ min 1 (length (with_profile k hs)))
      × (hosts_of k (group_by_profile hs) ≡ with_profile k hs)
unfolding group_by_profile
group_by_profile_lem k hs = let (a, b) = group_lem k hs [] in (omega (arith, a), b)
