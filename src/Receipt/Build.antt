-- ===== src/Receipt/Build.antt =====
-- `Build` of internal/receipt/build.go: the receipt of a run from its result. An empty list stands
-- for a nil slice. The run ends no earlier than it began.
pub mod Fleet
pub mod Claims
use Prim.Native.Char.{Char, code}
use Prim.Native.String.{◌++◌ as text_append}
use cargoship.Prelude.{
  ℕ, ◌+◌, ◌-◌, String, Bool, true, false, not, ◌&&◌, ◌||◌, Option, none, some, List, [], ◌∷◌, map,
  length, ◌==◌, str_eq, if◌then◌else◌,
}
use cargoship.Phase.Report.{
  Warning as ReportedWarning, RunResult, HostSummary, unknown, changed, signal, complete,
  undeclared, hosts_undeclared, outstanding, host_summaries,
}
use cargoship.Receipt.{Invocation, Package, Cluster, Host, Warning, Outcome, Receipt, duration_of}
use cargoship.Receipt.Aliases.{decimal_loop}
use cargoship.Receipt.Args.{redact_args}
use cargoship.Receipt.Ledger.{phases_of}

pub record Options : Type 0 where
  pub command : String
  pub args : List String
  pub version : String
  pub commit : String
  pub config_path : String
  pub pkg : Option Package
  pub started_at : ℕ
  pub dry_run : Bool
  pub observed : Bool
  pub err : Option String

-- The address and the port of an SSH connection.
pub record Ssh : Type 0 where
  pub address : String
  pub port : ℕ

pub record OsRelease : Type 0 where
  pub id : String
  pub version : String

-- A host of the configuration. `connection` is the text of its connection, which the source asks of
-- another library.
pub record Node : Type 0 where
  pub ssh : Option Ssh
  pub connection : String
  pub hostname : String
  pub role : String
  pub profile : String
  pub arch : String
  pub private_address : String
  pub private_interface : String
  pub distro_version : String
  pub os_release : Option OsRelease

-- What `Build` reads of a cluster's configuration. A host may be nil.
pub record Config : Type 0 where
  pub name : String
  pub load_balancer : String
  pub hosts : List (Option Node)

-- What the machine answers that cargoship runs on.
pub record Machine : Type 0 where
  pub user : Option String
  pub getenv : String → String
  pub hostname : Option String
  pub os : String
  pub arch : String
  pub now : ℕ

has_colon : String → Bool
has_colon String.[] = false
has_colon (String.◌∷◌ c s) = code c == 58 || has_colon s

-- `net.JoinHostPort(host, strconv.Itoa(port))`
join_host_port : String → ℕ → String
unfolding has_colon
join_host_port host port =
    let digits = decimal_loop (port + 1) port "" in
    if has_colon host
    then text_append "[" (text_append host (text_append "]:" digits))
    else text_append host (text_append ":" digits)

address_by : String → Option Ssh → String
unfolding join_host_port
address_by connection none = connection
address_by connection (some cfg) =
    if (cfg.port == 0) || (cfg.port == 22) then cfg.address else join_host_port cfg.address cfg.port

unfoldable pub configured_address : Node → String
unfolding address_by
configured_address h = address_by h.connection h.ssh

-- The map `summaries`: a list of its entries, the newest first.
index_summaries : List HostSummary → List HostSummary → List HostSummary
index_summaries [] m = m
index_summaries (s ∷ out) m = index_summaries out (s ∷ m)

find_summary : String → List HostSummary → Option HostSummary
find_summary k [] = none
find_summary k (s ∷ m) = if str_eq s.host k then some s else find_summary k m

abbrev os_id : Option OsRelease → String
os_id none = ""
os_id (some r) = r.id

abbrev os_version : Option OsRelease → String
os_version none = ""
os_version (some r) = r.version

host_record : Node → Host
host_record h = record {
  address = configured_address h;
  hostname = h.hostname;
  role = h.role;
  profile = h.profile;
  arch = h.arch;
  os = os_id h.os_release;
  os_version = os_version h.os_release;
  private_address = h.private_address;
  private_interface = h.private_interface;
  engine_version = h.distro_version;
  changed = false;
  phases_named = 0;
  phases_reporting = 0;
}

with_summary : Option HostSummary → Host → Host
with_summary none rec = rec
with_summary (some s) rec = record rec {
  changed = s.changed;
  phases_named = s.named;
  phases_reporting = s.reporting;
}

hosts_loop : List HostSummary → List (Option Node) → List Host
unfolding host_record with_summary find_summary
hosts_loop summaries [] = []
hosts_loop summaries (none ∷ hs) = hosts_loop summaries hs
hosts_loop summaries (some h ∷ hs) =
    with_summary (find_summary (configured_address h) summaries) (host_record h)
    ∷ hosts_loop summaries hs

pub hosts_of : List (Option Node) → RunResult → List Host
unfolding hosts_loop index_summaries
hosts_of hosts result = hosts_loop (index_summaries (host_summaries result) []) hosts

abbrev is_nil : Option String → Bool
is_nil none = true
is_nil (some e) = false

abbrev text_of : Option String → String
text_of none = ""
text_of (some e) = e

warning_of : ReportedWarning → Warning
warning_of w = record { phase = w.phase; host = w.host; path = w.path; reason = w.reason }

first_outcome : RunResult → Options → Outcome
unfolding warning_of
first_outcome result opts = record {
  succeeded = is_nil opts.err;
  error = text_of opts.err;
  changed = changed result;
  changed_signal = signal result;
  changed_undeclared = if complete result then [] else undeclared result;
  hosts_undeclared = hosts_undeclared result;
  warnings = map warning_of result.warnings;
}

pub outcome_of : RunResult → Options → Outcome
unfolding first_outcome
outcome_of result opts =
    let o = first_outcome result opts in
    let p = if opts.observed then o else record o {
      changed = false;
      changed_signal = unknown;
      changed_undeclared = [];
      hosts_undeclared = [];
    } in
    if opts.dry_run && opts.observed then record p { changed = outstanding result } else p

-- The loop of `operator` over the variables of the environment.
first_variable : (String → String) → List String → String
first_variable getenv [] = ""
first_variable getenv (key ∷ keys) =
    let rest = first_variable getenv keys in if str_eq (getenv key) "" then rest else getenv key

operator_by : (String → String) → Option String → String
unfolding first_variable
operator_by getenv (some name) = name
operator_by getenv none = first_variable getenv ("USER" ∷ "LOGNAME" ∷ "USERNAME" ∷ [])

pub operator : Machine → String
unfolding operator_by
operator m = operator_by m.getenv m.user

pub management_host : Machine → String
management_host m = text_of m.hostname

invocation_of : Machine → Options → Invocation
invocation_of m opts = record {
  command = opts.command;
  args = redact_args opts.args;
  version = opts.version;
  commit = opts.commit;
  operator = operator m;
  host = management_host m;
  platform = text_append m.os (text_append "/" m.arch);
  dry_run = opts.dry_run;
  started_at = opts.started_at;
  finished_at = m.now;
  duration = duration_of (m.now - opts.started_at);
}

cluster_of : Options → Option Config → Cluster
cluster_of opts none = record { name = ""; load_balancer = ""; config_path = ""; host_count = 0 }
cluster_of opts (some cfg) = record {
  name = cfg.name;
  load_balancer = cfg.load_balancer;
  config_path = opts.config_path;
  host_count = length cfg.hosts;
}

fleet_of : Option Config → RunResult → List Host
unfolding hosts_of
fleet_of none result = []
fleet_of (some cfg) result = hosts_of cfg.hosts result

unfoldable pub build : Machine → Option Config → RunResult → Options → Receipt
unfolding invocation_of cluster_of fleet_of outcome_of
build m cfg result opts = record {
  schema_version = "1.1";
  redacted = false;
  invocation = invocation_of m opts;
  pkg = opts.pkg;
  cluster = cluster_of opts cfg;
  phases = phases_of result;
  hosts = fleet_of cfg result;
  outcome = outcome_of result opts;
}
