-- ===== src/Phase/Manager/Examples.antt =====
-- The theorems on pkg/phase/05_manager.go at inputs that meet their hypotheses, and tests. The world
-- is the number of writes to a fleet.
use mathlib.Core.List.{Perm}
use cargoship.Prelude.{
  ℕ, suc, String, ◌≡◌, refl, ◌⊎◌, Bool, true, false, ◌&&◌, Option, none, some, List, [], ◌∷◌, ◌++◌,
  map, any, All,
}
use cargoship.Phase.Report.{RunResult, empty, changed, groups, new_sink, titles, DryRunBehavior}
use cargoship.Phase.Report.Merge.{publish_all, sink_answers}
use cargoship.Phase.Manager.{Phase, Env, Manager, own, classify_dry_run, is_skip, run_phase, run}
use cargoship.Phase.Manager.Account.{run-success, run-failure}
use cargoship.Phase.Manager.Labels.{run-Labelled}
use cargoship.Phase.Manager.DryRun.{Promise, run-untouched}

abbrev env : Env ℕ String
env = record { ctx_err = λ w. none; set_defaults = λ w. (none, w); clock = λ w. w }

abbrev bare : Phase ℕ String
bare = record {
  title = "Upload";
  explanation = "Uploads the files";
  run = λ w. (none, suc w);
  set_manager = none;
  prepare = none;
  should_run = none;
  dry_run = none;
  read_only = none;
  before = none;
  after = none;
  clean_up = some (λ w. 0);
  changed = some (λ w. true);
  hosts_changed = some (λ w. record { host = "a"; changed = true; details = [] } ∷ []);
  warnings = some (λ w. record { phase = ""; host = "a"; path = "/x"; reason = "kept" } ∷ []);
}

abbrev facts : Phase ℕ String
facts = record bare {
  title = "Facts";
  run = λ w. (none, w);
  read_only = some "reads only";
  changed = none;
  hosts_changed = none;
  warnings = none;
}

abbrev broken : Phase ℕ String
broken = record bare { title = "Broken"; run = λ w. (some "boom", suc w) }

abbrev unprepared : Phase ℕ String
unprepared = record bare { title = "Unprepared"; prepare = some (λ w. (some "no leader", w)) }

abbrev idle : Phase ℕ String
idle = record bare { title = "Idle"; should_run = some (λ w. false) }

abbrev wet : Manager ℕ String
wet = record { phases = facts ∷ bare ∷ idle ∷ []; configured = true; dry_run = false }

abbrev dry : Manager ℕ String
dry = record { phases = facts ∷ bare ∷ unprepared ∷ []; configured = true; dry_run = true }

abbrev failing : Manager ℕ String
failing = record { phases = facts ∷ broken ∷ bare ∷ []; configured = true; dry_run = false }

titles_of : Option RunResult → List (List String)
unfolding titles
titles_of none = []
titles_of (some r) = titles r.ran ∷ titles r.planned ∷ titles r.skipped ∷ []

wet_run : titles_of (run env wet 0).result ≡ ("Facts" ∷ "Upload" ∷ []) ∷ [] ∷ ("Idle" ∷ []) ∷ []
unfolding titles_of run run_phase
wet_run = refl

dry_run :
    titles_of (run env dry 0).result ≡ ("Facts" ∷ []) ∷ ("Upload" ∷ "Unprepared" ∷ []) ∷ [] ∷ []
unfolding titles_of run run_phase
dry_run = refl

-- The clean-up of both phases that ran is made.
failing_run : ((run env failing 3).error ≡ some (own "boom")) × ((run env failing 3).world ≡ 0)
unfolding run run_phase
failing_run = (refl, refl)

-- The result that a run on these inputs has.
abbrev result_or_empty : Option RunResult → RunResult
result_or_empty none = empty
result_or_empty (some r) = r

run-success_example :
    (r : RunResult) × ((run env wet 0).result ≡ some r)
    × Perm (titles (groups r)) (map (λ p. p.title) wet.phases)
unfolding run run_phase
run-success_example = run-success env wet 0 refl

run-failure_example :
    (before : List (Phase ℕ String)) × (p : Phase ℕ String) × (rest : List (Phase ℕ String))
    × (failing.phases ≡ before ++ p ∷ rest)
    × (Perm
          (titles (groups (result_or_empty (run env failing 3).result)))
          (map (λ q. q.title) before)
        ⊎ Perm
            (titles (groups (result_or_empty (run env failing 3).result)))
            (p.title ∷ map (λ q. q.title) before))
unfolding run run_phase
run-failure_example = run-failure env failing 3 refl refl

run-Labelled_example :
    let r = result_or_empty (run env dry 0).result in
    All (λ p. (true && is_skip p.dry_run) ≡ false) r.ran
    × All (λ p. (true && is_skip p.dry_run) ≡ true) r.planned
    × (◌≡◌ {A = Bool} true false → r.planned ≡ [])
unfolding run run_phase
run-Labelled_example = run-Labelled env dry 0 refl

bare-Promise : Promise (λ (w : ℕ). w) bare
unfolding classify_dry_run
bare-Promise = record {
  set_manager = tt;
  prepare = tt;
  dry_run = tt;
  run = tt;
  before = λ s. tt;
  after = λ s. tt;
  clean_up = λ s. cc;
}

unprepared-Promise : Promise (λ (w : ℕ). w) unprepared
unfolding classify_dry_run
unprepared-Promise = record {
  set_manager = tt;
  prepare = λ w. refl;
  dry_run = tt;
  run = tt;
  before = λ s. tt;
  after = λ s. tt;
  clean_up = λ s. cc;
}

abbrev watching : Manager ℕ String
watching = record {
  phases = record facts { clean_up = none } ∷ bare ∷ unprepared ∷ [];
  configured = true;
  dry_run = true;
}

facts-Promise : Promise (λ (w : ℕ). w) (record facts { clean_up = none })
facts-Promise = record {
  set_manager = tt;
  prepare = tt;
  dry_run = tt;
  run = λ w. refl;
  before = λ s. tt;
  after = λ s. tt;
  clean_up = λ s. tt;
}

run-untouched_example : (run env watching 5).world ≡ 5
run-untouched_example =
    run-untouched env (λ (w : ℕ). w) watching 5 refl refl
      (facts-Promise, (bare-Promise, (unprepared-Promise, tt)))

abbrev named : RunResult
named = record empty {
  ran =
      record {
        title = "Upload";
        explanation = "";
        dry_run = DryRunBehavior.skip;
        declared = true;
        changed = true;
        hosts_declared = true;
        hosts = record { host = "a"; changed = true; details = [] } ∷ [];
        duration = 1;
      }
      ∷ [];
}

sink_answers_example :
    ((publish_all new_sink (named ∷ [])).observed ≡ any (λ (r : RunResult). true) (named ∷ []))
    × (changed (publish_all new_sink (named ∷ [])).result ≡ any changed (named ∷ []))
    × ((publish_all new_sink (named ∷ [])).result.warnings ≡ [])
sink_answers_example = sink_answers (named ∷ [])
