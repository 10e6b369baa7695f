-- ===== src/Phase/Deletion.antt =====
-- pkg/phase/85_delete_common.go and what 86_delete_worker.go and 87_delete_controller.go prepare:
-- which hosts a reset removes, through which controller, and when an engine is stopped. A text is
-- the list of its bytes, taken to be ASCII where letters are folded. What the hosts answer is in
-- their records: `machine_hostname` is the configurer's answer, `running` that of the service.
pub mod Nodes
mod Filters
mod Leader
mod Members
mod Doomed
mod Targets
mod Examples
use mathlib.Core.List.{reverse}
use cargoship.Prelude.{
  ℕ, suc, ◌-◌, String, Bool, true, false, not, ◌&&◌, Option, none, some, List, [], ◌∷◌, ◌++◌, any,
  Bytes, ltb, ◌==◌, length, is_some, if◌then◌else◌,
}
use cargoship.Values.Tree.{same_bytes}
use cargoship.Overrides.{equal_fold}
use cargoship.Phase.Removed.{sort_texts}
use cargoship.Cluster.Hosts
use cargoship.Phase.Deletion.Nodes.{Host}

pub data DeleteError : Type 0 where
  no_surviving_controller no_running_controller : DeleteError
  controllers_not_one_at_a_time : ℕ → ℕ → DeleteError

-- What `Prepare` leaves in the phase.
pub record Plan : Type 0 where
  pub leader : Option Host
  pub keep_engine : Bool

pub data Prepared : Type 0 where
  refused : DeleteError → Prepared
  planned : Plan → Prepared

pub filter : (Host → Bool) → List Host → List Host
filter test [] = []
filter test (h ∷ hs) = let rest = filter test hs in if test h then h ∷ rest else rest

abbrev given : Option Bytes → List Bytes
given none = []
given (some s) = s ∷ []

abbrev non_empty : List Bytes → List Bytes
non_empty [] = []
non_empty ([] ∷ names) = non_empty names
non_empty ((c ∷ s) ∷ names) = (c ∷ s) ∷ non_empty names

pub host_identifiers : Host → List Bytes
host_identifiers h =
    non_empty (h.hostname ∷ (h.read_hostname ∷ (given h.ssh_address ++ given h.machine_hostname)))

pub matches_target_host : Host → List Bytes → Bool
unfolding host_identifiers equal_fold
matches_target_host h [] = false
matches_target_host h ([] ∷ targets) = matches_target_host h targets
matches_target_host h ((c ∷ t) ∷ targets) =
    let rest = matches_target_host h targets in
    if any (equal_fold (c ∷ t)) (host_identifiers h) then true else rest

pub filter_target_hosts : List Host → List Bytes → List Host
unfolding filter matches_target_host
filter_target_hosts hosts [] = hosts
filter_target_hosts hosts (t ∷ targets) = filter (λ h. matches_target_host h (t ∷ targets)) hosts

abbrev pub is_running_controller : Host → Bool
is_running_controller h = h.running && Hosts.is_controller h.entry

abbrev nobody : Prepared
nobody = planned (record { leader = none; keep_engine = false })

-- `planControllerRemovals`, on the numbers of running controllers and of those that stay.
plan_controller_removals : Host → ℕ → ℕ → Prepared
plan_controller_removals leader control surviving =
    let removing = control - surviving in
    if ltb 1 removing
    then refused (controllers_not_one_at_a_time removing control)
    else planned (record { leader = some leader; keep_engine = ltb 0 removing && ltb surviving 2 })

pub is_whole_cluster : List Host → List Bytes → Bool
unfolding filter_target_hosts
is_whole_cluster hosts targets = length (filter_target_hosts hosts targets) == length hosts

-- The rest of `Prepare`, from the first running controller, all of them, and those that stay.
prepare_surviving : List Host → List Bytes → Host → List Host → List Host → Prepared
unfolding plan_controller_removals is_whole_cluster
prepare_surviving hosts targets first control (s ∷ surviving) =
    plan_controller_removals s (length control) (length (s ∷ surviving))
prepare_surviving hosts targets first control [] =
    if is_whole_cluster hosts targets
    then planned (record { leader = some first; keep_engine = false })
    else refused no_surviving_controller

prepare_control : Bool → List Host → List Bytes → List Host → Prepared
unfolding is_whole_cluster prepare_surviving filter
prepare_control dry_run hosts targets [] =
    if not dry_run && not (is_whole_cluster hosts targets)
    then refused no_running_controller
    else nobody
prepare_control dry_run hosts targets (c ∷ control) =
    prepare_surviving hosts targets c (c ∷ control)
      (filter (λ h. not (matches_target_host h targets)) (c ∷ control))

-- `DeleteCommon.Prepare`.
pub prepare : Bool → List Host → List Bytes → Prepared
unfolding prepare_control filter Hosts.is_controller
prepare dry_run hosts targets =
    prepare_control dry_run hosts targets (filter is_running_controller hosts)

-- What a distro does on a host: nothing, where the call works, or its error. The reset is there
-- where the distro implements `PreUninstallResetter`.
pub record Distro : Type 0 where
  pub pre_uninstall_reset : Option (Host → Option String)
  pub stop_controller_service : Host → Option String

pub data EngineCall : Type 0 where
  left_running : EngineCall
  resets stops : Option String → EngineCall

-- `stopEngineBeforeDelete`: the call that it makes, with what that answers.
stop_engine_by : Option (Host → Option String) → (Host → Option String) → Bool → Host → EngineCall
stop_engine_by (some reset) stop keep h = resets (reset h)
stop_engine_by none stop true h = left_running
stop_engine_by none stop false h = stops (stop h)

pub stop_engine_before_delete : Distro → Bool → Host → EngineCall
unfolding stop_engine_by
stop_engine_before_delete d = stop_engine_by d.pre_uninstall_reset d.stop_controller_service

-- The nodes' names by host, as `resolveNodeNames` returns them.
abbrev pub NodeNames : Type 0
NodeNames = String → Option Bytes

-- `DeleteWorkers.Prepare`, from the leader on.
pub doomed_workers : NodeNames → List Host → List Bytes → List Host
unfolding filter_target_hosts Hosts.is_controller
doomed_workers names hosts targets =
    filter (λ h. is_some (names h.entry.name) && not (Hosts.is_controller h.entry))
      (filter_target_hosts hosts targets)

-- `DeleteControllers.Prepare`, from the leader on.
pub doomed_controllers : NodeNames → Host → List Host → List Bytes → List Host
unfolding filter_target_hosts Hosts.is_controller
doomed_controllers names leader hosts targets = reverse (
    filter
      (λ h.
        is_some (names h.entry.name)
        && (Hosts.is_controller h.entry && not (same_bytes h.hostname leader.hostname)))
      (filter_target_hosts hosts targets))

known_names : List Host → List Bytes
unfolding host_identifiers
known_names [] = []
known_names (h ∷ hosts) = host_identifiers h ++ known_names hosts

unmatched : List Bytes → List Bytes → List Bytes
unfolding equal_fold
unmatched known [] = []
unmatched known ([] ∷ targets) = unmatched known targets
unmatched known ((c ∷ t) ∷ targets) =
    let rest = unmatched known targets in
    if any (equal_fold (c ∷ t)) known then rest else (c ∷ t) ∷ rest

-- `slices.Compact`.
compact_behind : Bytes → List Bytes → List Bytes
compact_behind s [] = []
compact_behind s (t ∷ ts) =
    let rest = compact_behind t ts in if same_bytes s t then rest else t ∷ rest

compact : List Bytes → List Bytes
unfolding compact_behind
compact [] = []
compact (t ∷ ts) = t ∷ compact_behind t ts

-- The names that the error lists: those that no host has, and those that the hosts have.
check_unmatched : List Bytes → List Bytes → Option (List Bytes × List Bytes)
unfolding compact sort_texts
check_unmatched known [] = none
check_unmatched known (t ∷ ts) = some (t ∷ ts, compact (sort_texts known))

pub check_target_hosts : List Host → List Bytes → Option (List Bytes × List Bytes)
unfolding check_unmatched known_names unmatched
check_target_hosts hosts [] = none
check_target_hosts hosts (t ∷ targets) =
    check_unmatched (known_names hosts) (unmatched (known_names hosts) (t ∷ targets))
