-- ===== src/Phase/Deletion/Leader.antt =====
-- `DeleteCommon.Prepare` of pkg/phase/85_delete_common.go: the leader that it picks.
use cargoship.Prelude.{
  ℕ, ◌-◌, ◌≤◌, ◌≡◌, ◌≢◌, ◌⊎◌, refl, sym, ◌∙◌, ap, inl, inr, Bool, true, false, not, ◌&&◌, some,
  List, [], ◌∷◌, ◌++◌, Bytes, ltb, length, All, Bool-cases, arith,
}
use cargoship.Phase.Deletion.Nodes.{Host}
use cargoship.Phase.Deletion.{
  Plan, planned, filter, matches_target_host, filter_target_hosts, is_running_controller,
  is_whole_cluster, plan_controller_removals, prepare_surviving, prepare_control, prepare,
}
use cargoship.Phase.Deletion.Filters.{
  filter_head, filter-filter, length-filter_whole, length-filter_split,
}

abbrev pub control_of : List Host → List Host
control_of hosts = filter is_running_controller hosts

abbrev pub staying : List Bytes → List Host → List Host
staying targets hosts = filter (λ h. not (matches_target_host h targets)) hosts

-- The two ways in which a plan with a leader comes about.
abbrev pub Shape : List Host → List Bytes → List Host → List Host → Host → Bool → Type 0
Shape hosts targets control surviving l keep =
    ((rest : List Host) × (surviving ≡ l ∷ rest)
      × (length control - length surviving ≤ 1)
      × (keep ≡ (ltb 0 (length control - length surviving) && ltb (length surviving) 2)))
    ⊎ ((rest : List Host) × (control ≡ l ∷ rest)
        × (surviving ≡ [])
        × (is_whole_cluster hosts targets ≡ true)
        × (keep ≡ false))

plan_controller_removals_lem :
    (s : Host) (m n : ℕ) (plan : Plan) {l : Host}
    → plan_controller_removals s m n ≡ planned plan
    → plan.leader ≡ some l
    → (s ≡ l) × (m - n ≤ 1) × (plan.keep_engine ≡ (ltb 0 (m - n) && ltb n 2))
unfolding plan_controller_removals
plan_controller_removals_lem s m n plan h e = elim (Bool-cases (ltb 1 (m - n))) [
  | inl y ↦ ground (arith, y, h)
  | inr o ↦ ground (arith, o, h, e)
]

surviving-Shape :
    (hosts : List Host) (targets : List Bytes) (first : Host) (others surviving : List Host)
    (plan : Plan) {l : Host}
    → prepare_surviving hosts targets first (first ∷ others) surviving ≡ planned plan
    → plan.leader ≡ some l
    → Shape hosts targets (first ∷ others) surviving l plan.keep_engine
unfolding prepare_surviving
surviving-Shape hosts targets first others (s ∷ surviving) plan h e =
    let (p, q, r) = plan_controller_removals_lem s _ _ plan h e in
    inl (surviving, ap (λ g. g ∷ surviving) p, q, r)
surviving-Shape hosts targets first others [] plan h e =
    elim (Bool-cases (is_whole_cluster hosts targets)) [
      | inl y ↦ inr (others, ground (arith, y, h, e), refl, y, ground (arith, y, h))
      | inr n ↦ ground (arith, n, h)
    ]

control-Shape :
    (dry_run : Bool) (hosts : List Host) (targets : List Bytes) (control : List Host) (plan : Plan)
    {l : Host}
    → prepare_control dry_run hosts targets control ≡ planned plan
    → plan.leader ≡ some l
    → Shape hosts targets control (staying targets control) l plan.keep_engine
unfolding prepare_control
control-Shape dry_run hosts targets [] plan h e = ground (arith, h, e)
control-Shape dry_run hosts targets (c ∷ control) plan h e =
    surviving-Shape hosts targets c control (staying targets (c ∷ control)) plan h e

pub prepare-Shape :
    (dry_run : Bool) (hosts : List Host) (targets : List Bytes) (plan : Plan) {l : Host}
    → prepare dry_run hosts targets ≡ planned plan
    → plan.leader ≡ some l
    → Shape hosts targets (control_of hosts) (staying targets (control_of hosts)) l plan.keep_engine
unfolding prepare
prepare-Shape dry_run hosts targets plan h e =
    control-Shape dry_run hosts targets (control_of hosts) plan h e

and_true : (a b : Bool) → (a && b) ≡ true → (a ≡ true) × (b ≡ true)
and_true true b h = (refl, h)
and_true false b h = ground (arith, h)

false_of_not : (b : Bool) → not b ≡ true → b ≡ false
false_of_not true h = ground (arith, h)
false_of_not false h = refl

whole-All :
    (hosts : List Host) (t : Bytes) (targets : List Bytes)
    → is_whole_cluster hosts (t ∷ targets) ≡ true
    → All (λ h. matches_target_host h (t ∷ targets) ≡ true) hosts
unfolding is_whole_cluster filter_target_hosts
whole-All hosts t targets h =
    length-filter_whole (λ g. matches_target_host g (t ∷ targets)) hosts (ground (arith, h))

-- All that a run removes is the whole cluster.
abbrev pub RemovesAll : List Host → List Bytes → Type 0
RemovesAll hosts targets = (targets ≢ []) × All (λ h. matches_target_host h targets ≡ true) hosts

whole-RemovesAll :
    (hosts : List Host) (targets : List Bytes) {l : Host} {rest : List Host}
    → control_of hosts ≡ l ∷ rest
    → staying targets (control_of hosts) ≡ []
    → is_whole_cluster hosts targets ≡ true
    → RemovesAll hosts targets
unfolding filter matches_target_host
whole-RemovesAll hosts [] {l} {rest} c s w = absurd (ground (arith, sym (ap (staying []) c) ∙ s))
whole-RemovesAll hosts (t ∷ targets) c s w = ((λ e. ground (arith, e)), whole-All hosts t targets w)

-- The leader of an accepted `Prepare` is a running controller of the configuration. It is not
-- among the targets, and at most one running controller is, unless the targets name every host.
pub prepare_leader_stays :
    (dry_run : Bool) (hosts : List Host) (targets : List Bytes) (plan : Plan) (l : Host)
    → prepare dry_run hosts targets ≡ planned plan
    → plan.leader ≡ some l
    → ((before after : List Host) × (hosts ≡ before ++ l ∷ after))
      × (is_running_controller l ≡ true)
      × (((matches_target_host l targets ≡ false)
            × (length (filter (λ h. matches_target_host h targets) (control_of hosts)) ≤ 1))
          ⊎ RemovesAll hosts targets)
prepare_leader_stays dry_run hosts targets plan l h e =
    elim (prepare-Shape dry_run hosts targets plan h e) [
      | inl (rest, s, few, k) ↦
          let f =
            sym
              (filter-filter (λ h. not (matches_target_host h targets)) is_running_controller hosts)
            ∙ s in
          let (before, after, p, t, o) =
            filter_head (λ h. is_running_controller h && not (matches_target_host h targets)) hosts
              f in
          let (r, m) = and_true (is_running_controller l) (not (matches_target_host l targets)) t in
          (
            (before, after, p),
            r,
            inl (
              false_of_not (matches_target_host l targets) m,
              omega (
                arith,
                few,
                length-filter_split (λ h. matches_target_host h targets) (control_of hosts),
              ),
            ),
          )
      | inr (rest, c, s, w, k) ↦
          let (before, after, p, t, o) = filter_head is_running_controller hosts c in
          ((before, after, p), t, inr (whole-RemovesAll hosts targets c s w))
    ]
