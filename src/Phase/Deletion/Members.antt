-- ===== src/Phase/Deletion/Members.antt =====
-- What stopping engines before a deletion, pkg/phase/85_delete_common.go and
-- 87_delete_controller.go, does to the running controllers.
use cargoship.Prelude.{
  ℕ, ◌+◌, ◌-◌, ◌*◌, ◌≤◌, ◌<◌, ◌≡◌, ◌≢◌, refl, sym, ◌∙◌, ap, inl, inr, Bool, true, false, not, ◌&&◌,
  none, some, List, [], ◌∷◌, Bytes, ltb, length, is_some, arith, if◌then◌else◌,
}
use cargoship.Values.Tree.{same_bytes}
use cargoship.Cluster.Hosts
use cargoship.Phase.Deletion.Nodes.{Host}
use cargoship.Phase.Deletion.{
  Plan, planned, filter, matches_target_host, filter_target_hosts, is_running_controller, prepare,
  Distro, EngineCall, left_running, resets, stops, stop_engine_by, stop_engine_before_delete,
  NodeNames, doomed_controllers,
}
use cargoship.Phase.Deletion.Filters.{
  filter-filter, length-filter_split, length-filter-reverse, length-filter_mono,
}
use cargoship.Phase.Deletion.Leader.{control_of, staying, prepare-Shape}

abbrev is_stop : EngineCall → Bool
is_stop (stops answer) = true
is_stop left_running = false
is_stop (resets answer) = false

-- Of the hosts that the phase goes through, the running controllers whose engine it stops.
abbrev pub stopped : Distro → Bool → List Host → List Host
stopped d keep hs =
    filter (λ h. is_running_controller h && is_stop (stop_engine_before_delete d keep h)) hs

keeps_all :
    (d : Distro) (h : Host)
    → d.pre_uninstall_reset ≡ none
    → is_stop (stop_engine_before_delete d true h) ≡ false
unfolding stop_engine_before_delete
keeps_all d h e = rw (e, stop_engine_by) refl

length-filter_none :
    (p : Host → Bool) (hs : List Host) → ((h : Host) → p h ≡ false) → length (filter p hs) ≡ 0
unfolding filter
length-filter_none p [] no_hit = omega arith
length-filter_none p (h ∷ hs) no_hit = rw (no_hit h) (length-filter_none p hs no_hit)

and_false : (a b : Bool) → b ≡ false → (a && b) ≡ false
and_false true b e = e
and_false false b e = refl

stopped_kept :
    (d : Distro) (hs : List Host) → d.pre_uninstall_reset ≡ none → length (stopped d true hs) ≡ 0
stopped_kept d hs e =
    length-filter_none _ hs (λ h. and_false (is_running_controller h) _ (keeps_all d h e))

-- Among the targets and running.
abbrev targeted : List Bytes → List Host → List Host
targeted targets hosts = filter (λ h. matches_target_host h targets) (control_of hosts)

picks : (m b r k : Bool) → (m && (b && (r && k))) ≡ true → (r && m) ≡ true
picks true b true k e = refl
picks true true false k e = e
picks true false false k e = e
picks false b r k e = ground (arith, e)

length-stopped :
    (d : Distro) (keep : Bool) (names : NodeNames) (l : Host) (hosts : List Host)
    (targets : List Bytes)
    → targets ≢ []
    → length (stopped d keep (doomed_controllers names l hosts targets))
      ≤ length (targeted targets hosts)
unfolding doomed_controllers filter_target_hosts
length-stopped d keep names l hosts [] ne = absurd (ne refl)
length-stopped d keep names l hosts (t ∷ targets) ne =
    let stop =
      λ (h : Host). is_running_controller h && is_stop (stop_engine_before_delete d keep h) in
    let hit = λ (h : Host). matches_target_host h (t ∷ targets) in
    let goes = λ (h : Host).
      is_some (names h.entry.name)
      && (Hosts.is_controller h.entry && not (same_bytes h.hostname l.hostname)) in
    omega (
      arith,
      length-filter-reverse stop (filter goes (filter hit hosts)),
      ap length (filter-filter goes hit hosts),
      ap length (filter-filter stop goes (filter hit hosts)),
      ap length (filter-filter (λ h. goes h && stop h) hit hosts),
      ap length (filter-filter hit is_running_controller hosts),
      length-filter_mono (λ h. hit h && (goes h && stop h)) (λ h. is_running_controller h && hit h)
          hosts
          (λ h.
            picks (hit h) (goes h) (is_running_controller h)
              (is_stop (stop_engine_before_delete d keep h))),
    )

majority :
    (c s r up : ℕ) (keep : Bool)
    → r + s ≡ c
    → 1 ≤ s
    → c - s ≤ 1
    → keep ≡ (ltb 0 (c - s) && ltb s 2)
    → up ≤ (if keep then 0 else r)
    → c < 2 * (c - up)
majority c s r up keep e p q k h = ground arith

stopped-le :
    (d : Distro) (keep : Bool) (names : NodeNames) (l : Host) (hosts : List Host)
    (targets : List Bytes)
    → d.pre_uninstall_reset ≡ none
    → targets ≢ []
    → length (stopped d keep (doomed_controllers names l hosts targets))
      ≤ (if keep then 0 else length (targeted targets hosts))
stopped-le d true names l hosts targets e ne =
    omega (arith, stopped_kept d (doomed_controllers names l hosts targets) e)
stopped-le d false names l hosts targets e ne = length-stopped d false names l hosts targets ne

not_staying :
    (l : Host) (rest : List Host) (targets : List Bytes)
    → matches_target_host l targets ≡ false
    → staying targets (l ∷ rest) ≢ []
unfolding filter
not_staying l rest targets e s = ground (arith, rw e at s)

-- Where the leader of an accepted `Prepare` is not a target, some target is given, and the distro
-- has no reset of its own, then more than half of the running controllers still run once
-- `DeleteControllers` has stopped the engines that it stops before the nodes are deleted.
pub stopped_majority :
    (dry_run : Bool) (hosts : List Host) (targets : List Bytes) (plan : Plan) (l : Host)
    (d : Distro) (names : NodeNames)
    → prepare dry_run hosts targets ≡ planned plan
    → plan.leader ≡ some l
    → matches_target_host l targets ≡ false
    → targets ≢ []
    → d.pre_uninstall_reset ≡ none
    → length (control_of hosts)
      < 2
        * (length (control_of hosts)
            - length (stopped d plan.keep_engine (doomed_controllers names l hosts targets)))
stopped_majority dry_run hosts targets plan l d names h e out ne r =
    elim (prepare-Shape dry_run hosts targets plan h e) [
      | inl (rest, s, few, k) ↦
          majority (length (control_of hosts)) (length (staying targets (control_of hosts)))
            (length (targeted targets hosts)) _ plan.keep_engine
            (length-filter_split (λ g. matches_target_host g targets) (control_of hosts))
            (omega (arith, ap length s)) few k
            (stopped-le d plan.keep_engine names l hosts targets r ne)
      | inr (rest, c, s, w, k) ↦
          absurd (not_staying l rest targets out (sym (ap (staying targets) c) ∙ s))
    ]
