-- ===== src/Receipt/Redact.antt =====
-- `Redact` of internal/receipt/redact.go: the copy of a receipt that may be shown to others.
pub mod Disguise
pub mod Naming
use cargoship.Prelude.{String, true, Option, none, some, List, [], ◌∷◌, map}
use cargoship.Receipt.{
  Invocation, Package, Cluster, HostChangeDetail, HostChange, Phase, Host, Warning, Outcome,
  Receipt,
}
use cargoship.Receipt.Aliases.{Numbering, assign, no_aliases, alias_of}

-- The loops of `hostAliases`: over the hosts, the hosts of each phase, and the warnings.
assign_hosts : List Host → Numbering → Numbering
assign_hosts [] s = s
assign_hosts (h ∷ hs) s = assign_hosts hs (assign h.address s)

assign_changes : List HostChange → Numbering → Numbering
assign_changes [] s = s
assign_changes (h ∷ hs) s = assign_changes hs (assign h.host s)

assign_phases : List Phase → Numbering → Numbering
assign_phases [] s = s
assign_phases (p ∷ ps) s = assign_phases ps (assign_changes p.hosts s)

assign_warnings : List Warning → Numbering → Numbering
assign_warnings [] s = s
assign_warnings (w ∷ ws) s = assign_warnings ws (assign w.host s)

numbering : Receipt → Numbering
unfolding assign_hosts assign_changes assign_phases assign_warnings
numbering r =
    assign_warnings r.outcome.warnings (assign_phases r.phases (assign_hosts r.hosts no_aliases))

pub host_aliases : Receipt → List (String × String)
unfolding numbering
host_aliases r = (numbering r).aliases

redact_invocation : Invocation → Invocation
redact_invocation i = record {
  command = i.command;
  args = [];
  version = i.version;
  commit = i.commit;
  operator = "";
  host = "";
  platform = i.platform;
  dry_run = i.dry_run;
  started_at = i.started_at;
  finished_at = i.finished_at;
  duration = i.duration;
}

redact_package : Option Package → Option Package
redact_package none = none
redact_package (some p) = some (record p { path = "" })

redact_host : List (String × String) → Host → Host
redact_host m h = record {
  address = alias_of h.address m;
  hostname = "";
  role = h.role;
  profile = h.profile;
  arch = h.arch;
  os = h.os;
  os_version = h.os_version;
  private_address = "";
  private_interface = "";
  engine_version = h.engine_version;
  changed = h.changed;
  phases_named = h.phases_named;
  phases_reporting = h.phases_reporting;
}

redact_warning : List (String × String) → Warning → Warning
redact_warning m w = record {
  phase = w.phase;
  host = alias_of w.host m;
  path = w.path;
  reason = w.reason;
}

redact_detail : HostChangeDetail → HostChangeDetail
redact_detail d = record { path = d.path; reason = d.reason; diff = "" }

redact_change : List (String × String) → HostChange → HostChange
unfolding redact_detail
redact_change m h = record {
  host = alias_of h.host m;
  changed = h.changed;
  details = map redact_detail h.details;
}

redact_phase : List (String × String) → Phase → Phase
unfolding redact_change
redact_phase m p = record p { hosts = map (redact_change m) p.hosts }

outcome_without_warnings : Outcome → Outcome
outcome_without_warnings o = record o { warnings = [] }

redact_by : List (String × String) → Receipt → Receipt
unfolding redact_invocation redact_package redact_host redact_warning redact_phase
    outcome_without_warnings
redact_by m r = record {
  schema_version = r.schema_version;
  redacted = true;
  invocation = redact_invocation r.invocation;
  pkg = redact_package r.pkg;
  cluster = record {
    name = "";
    load_balancer = "";
    config_path = "";
    host_count = r.cluster.host_count;
  };
  phases = map (redact_phase m) r.phases;
  hosts = map (redact_host m) r.hosts;
  outcome = record (outcome_without_warnings r.outcome) {
    warnings = map (redact_warning m) r.outcome.warnings;
  };
}

unfoldable pub redact : Receipt → Receipt
unfolding redact_by host_aliases
redact r = redact_by (host_aliases r) r
