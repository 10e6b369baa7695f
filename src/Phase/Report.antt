-- ===== src/Phase/Report.antt =====
-- What a run did, phase by phase: the result types of pkg/phase/05_manager.go, the questions that a
-- `RunResult` answers, and the sink that collects the results of several runs.
pub mod Merge
pub mod Summaries
pub mod Settled
use cargoship.Prelude.{
  ℕ, suc, ◌+◌, String, Bool, true, false, ◌&&◌, ◌||◌, List, [], ◌∷◌, ◌++◌, map, any, str_eq,
  if◌then◌else◌, ◌≡◌, map-append,
}

pub data DryRunBehavior : Type 0 where
  skip read_only own_path : DryRunBehavior

pub record HostChangeDetail : Type 0 where
  pub path : String
  pub reason : String
  pub diff : String

pub record HostChange : Type 0 where
  pub host : String
  pub changed : Bool
  pub details : List HostChangeDetail

pub record Warning : Type 0 where
  pub phase : String
  pub host : String
  pub path : String
  pub reason : String

pub record PhaseResult : Type 0 where
  pub title : String
  pub explanation : String
  pub dry_run : DryRunBehavior
  pub declared : Bool
  pub changed : Bool
  pub hosts_declared : Bool
  pub hosts : List HostChange
  pub duration : ℕ

pub record RunResult : Type 0 where
  pub ran : List PhaseResult
  pub planned : List PhaseResult
  pub skipped : List PhaseResult
  pub warnings : List Warning

-- The zero value of Go.
abbrev pub empty : RunResult
empty = record { ran = []; planned = []; skipped = []; warnings = [] }

-- A host that is declared to have changed, as `Changed` asks of one phase.
says_changed : PhaseResult → Bool
says_changed p = p.declared && p.changed

pub changed : RunResult → Bool
unfolding says_changed
changed r = any says_changed r.ran || any says_changed r.skipped

pub outstanding : RunResult → Bool
outstanding r = any (λ p. p.declared) r.planned

undeclared_in : List PhaseResult → List String
undeclared_in [] = []
undeclared_in (p ∷ ps) = if p.declared then undeclared_in ps else p.title ∷ undeclared_in ps

pub undeclared : RunResult → List String
unfolding undeclared_in
undeclared r = undeclared_in r.ran ++ (undeclared_in r.planned ++ undeclared_in r.skipped)

abbrev pub is_empty : List String → Bool
is_empty [] = true
is_empty (x ∷ xs) = false

pub complete : RunResult → Bool
unfolding undeclared
complete r = is_empty (undeclared r)

pub data Signal : Type 0 where
  unknown partial whole : Signal

unfoldable pub signal : RunResult → Signal
unfolding complete
signal r = if complete r then whole else partial

hosts_undeclared_in : List PhaseResult → List String
hosts_undeclared_in [] = []
hosts_undeclared_in (p ∷ ps) =
    if p.hosts_declared then hosts_undeclared_in ps else p.title ∷ hosts_undeclared_in ps

pub hosts_undeclared : RunResult → List String
unfolding hosts_undeclared_in
hosts_undeclared r =
    hosts_undeclared_in r.ran ++ (hosts_undeclared_in r.planned ++ hosts_undeclared_in r.skipped)

pub record HostSummary : Type 0 where
  pub host : String
  pub changed : Bool
  pub named : ℕ
  pub reporting : ℕ

-- One round of the inner loop of `HostSummaries`. The source's map `index` holds the position of the
-- entry of each host in `out`, and both grow together; here the entry is found in `out` itself.
note_host : HostChange → List HostSummary → List HostSummary
note_host h [] =
    record { host = h.host; changed = false || h.changed; named = 1; reporting = 0 } ∷ []
note_host h (s ∷ out) =
    if str_eq s.host h.host
    then record s { named = s.named + 1; changed = s.changed || h.changed } ∷ out
    else s ∷ note_host h out

note_hosts : List HostChange → List HostSummary → List HostSummary
note_hosts [] out = out
note_hosts (h ∷ hs) out = note_hosts hs (note_host h out)

note_phases : List PhaseResult → List HostSummary → List HostSummary
note_phases [] out = out
note_phases (p ∷ ps) out = note_phases ps (if p.hosts_declared then note_hosts p.hosts out else out)

pub count_reporting : List PhaseResult → ℕ
count_reporting [] = 0
count_reporting (p ∷ ps) = if p.hosts_declared then suc (count_reporting ps) else count_reporting ps

abbrev pub groups : RunResult → List PhaseResult
groups r = r.ran ++ (r.planned ++ r.skipped)

unfoldable pub host_summaries : RunResult → List HostSummary
unfolding note_host note_hosts note_phases count_reporting
host_summaries r =
    map {A = HostSummary} (λ s. record s { reporting = count_reporting (groups r) })
      (note_phases (groups r) [])

unfoldable pub titles : List PhaseResult → List String
titles ps = map (λ p. p.title) ps

pub titles-append : (ps qs : List PhaseResult) → titles (ps ++ qs) ≡ titles ps ++ titles qs
unfolding titles
titles-append ps qs = rw map-append

pub merge : RunResult → RunResult → RunResult
merge r other = record r {
  ran = r.ran ++ other.ran;
  planned = r.planned ++ other.planned;
  skipped = r.skipped ++ other.skipped;
}

-- The mutex of the sink makes each method one step.
pub record ResultSink : Type 0 where
  pub observed : Bool
  pub result : RunResult

abbrev pub new_sink : ResultSink
new_sink = record { observed = false; result = empty }

unfoldable pub publish : ResultSink → RunResult → ResultSink
unfolding merge
publish s r = record { observed = true; result = merge s.result r }
