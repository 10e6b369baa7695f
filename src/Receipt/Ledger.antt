-- ===== src/Receipt/Ledger.antt =====
-- The phase ledger of a receipt: `phasesOf` and its helpers of internal/receipt/receipt.go. An empty
-- list stands for a nil slice.
use cargoship.Prelude.{String, List, [], ◌∷◌, ◌++◌, map}
use cargoship.Phase.Report.{
  HostChangeDetail as ReportedDetail, HostChange as ReportedChange, DryRunBehavior, skip, read_only,
  own_path, PhaseResult, RunResult,
}
use cargoship.Receipt.{
  Disposition, ran, planned, skipped, HostChangeDetail, HostChange, Phase, duration_of,
}

pub dry_run_of : DryRunBehavior → String
dry_run_of read_only = "read-only"
dry_run_of own_path = "own-path"
dry_run_of skip = "skip"

detail_of : ReportedDetail → HostChangeDetail
detail_of d = record { path = d.path; reason = d.reason; diff = d.diff }

pub host_changes_of : List ReportedChange → List HostChange
unfolding detail_of
host_changes_of [] = []
host_changes_of (h ∷ hs) =
    record { host = h.host; changed = h.changed; details = map detail_of h.details }
    ∷ host_changes_of hs

phase_of : Disposition → PhaseResult → Phase
unfolding dry_run_of host_changes_of
phase_of d p = record {
  title = p.title;
  explanation = p.explanation;
  disposition = d;
  dry_run = dry_run_of p.dry_run;
  declared = p.declared;
  changed = p.changed;
  hosts_declared = p.hosts_declared;
  hosts = host_changes_of p.hosts;
  duration = duration_of p.duration;
}

unfoldable pub phases_of : RunResult → List Phase
unfolding phase_of
phases_of r =
    map (phase_of ran) r.ran
    ++ (map (phase_of planned) r.planned ++ map (phase_of skipped) r.skipped)
