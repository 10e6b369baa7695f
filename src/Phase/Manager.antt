-- ===== src/Phase/Manager.antt =====
-- `Manager.Run` of pkg/phase/05_manager.go. A phase is a record of what it implements: an interface
-- that the source asks for by a type assertion is an `Option`. What the phases act on (the hosts,
-- the configuration, the context and the clock) is one state `W`, and `E` is the type of errors.
pub mod Rounds
pub mod Account
pub mod Loop
pub mod Stamps
pub mod Labels
pub mod DryRun
pub mod Beats
mod Examples
use cargoship.Prelude.{
  ℕ, ◌+◌, ◌-◌, String, Bool, true, false, ◌&&◌, Option, none, some, List, [], ◌∷◌, ◌++◌, map,
  length, is_some, if◌then◌else◌,
}
use cargoship.Phase.Report.{
  DryRunBehavior, skip, read_only, own_path, HostChange, Warning, PhaseResult, RunResult,
}

pub record Phase (W E : Type 0) : Type 0 where
  pub title : String
  pub explanation : String
  pub run : W → Option E × W
  pub set_manager : Option (W → W)
  pub prepare : Option (W → Option E × W)
  pub should_run : Option (W → Bool)
  pub dry_run : Option (W → Option E × W)
  pub read_only : Option String
  pub before : Option (W → Option E × W)
  pub after : Option (W → Option E × W)
  pub clean_up : Option (W → W)
  pub changed : Option (W → Bool)
  pub hosts_changed : Option (W → List HostChange)
  pub warnings : Option (W → List Warning)

-- `ctx.Err()`, `defaults.Set` and the clock.
pub record Env (W E : Type 0) : Type 0 where
  pub ctx_err : W → Option E
  pub set_defaults : W → Option E × W
  pub clock : W → ℕ

pub record Manager (W E : Type 0) : Type 0 where
  pub phases : List (Phase W E)
  pub configured : Bool
  pub dry_run : Bool

pub data RunError (E : Type 0) : Type 0 where
  no_config : RunError E
  defaults_failed : E → RunError E
  cancelled_before : String → E → RunError E
  own : E → RunError E

pub data Beat (E : Type 0) : Type 0 where
  running completed : String → ℕ → ℕ → Beat E
  failed : String → ℕ → ℕ → RunError E → Beat E
  clear : Beat E

pub record TimedPhase (W E : Type 0) : Type 0 where
  pub phase : Phase W E
  pub duration : ℕ

-- The variables of `Run`, with the calls of the heartbeat so far, the last one first.
pub record Progress (W E : Type 0) : Type 0 where
  pub ran : List (TimedPhase W E)
  pub planned : List (Phase W E)
  pub skipped : List (Phase W E)
  pub warnings : List Warning
  pub world : W
  pub beats : List (Beat E)

-- How a round of the loop ends: with the next round, or with `return`.
pub data Step (W E : Type 0) : Type 0 where
  next : Progress W E → Step W E
  stop : RunError E → Progress W E → Step W E

pub classify_dry_run : {W E : Type 0} → Phase W E → DryRunBehavior
classify_dry_run p = elim p.dry_run [
  | some d ↦ own_path
  | none ↦ elim p.read_only [ some why ↦ read_only | none ↦ skip ]
]

abbrev pub is_skip : DryRunBehavior → Bool
is_skip skip = true
is_skip _ = false

-- A phase's warnings, each with the title of the phase put on.
pub phase_warnings : {W E : Type 0} → Phase W E → W → List Warning
phase_warnings p w = elim p.warnings [
  | none ↦ []
  | some ask ↦ map {A = Warning} (λ x. record x { phase = p.title }) (ask w)
]

module _ {W E : Type 0} where
  beat : Beat E → Progress W E → Progress W E
  beat b g = record g { beats = b ∷ g.beats }

  -- `ran` and `warnings` grow together, before the error of the call is looked at.
  executed : Phase W E → ℕ → W → Progress W E → Progress W E
  unfolding phase_warnings
  executed p d w g = record g {
    ran = g.ran ++ record { phase = p; duration = d } ∷ [];
    warnings = g.warnings ++ phase_warnings p w;
    world = w;
  }

  plan : Phase W E → Progress W E → Progress W E
  plan p g = record g { planned = g.planned ++ p ∷ [] }

  pass_over : Phase W E → Progress W E → Progress W E
  pass_over p g = record g { skipped = g.skipped ++ p ∷ [] }

  -- The part of a hook's call that all hooks share.
  pub called : Option (W → Option E × W) → W → Option E × W
  called none w = (none, w)
  called (some f) w = f w

module _ {W E : Type 0} (env : Env W E) (i total : ℕ) (p : Phase W E) where
  -- The `After` hook, and the end of a round that succeeded.
  run_after : Progress W E → Step W E
  unfolding called beat
  run_after g =
      let (r, w) = called p.after g.world in
      let g' = record g { world = w } in
      elim r [ some e ↦ stop (own e) g' | none ↦ next (beat (completed p.title (i + 1) total) g') ]

  -- `p.Run`, and what follows it.
  run_wet : Progress W E → Step W E
  unfolding run_after executed beat
  run_wet g =
      let (r, w) = p.run g.world in
      let g' = executed p (env.clock w - env.clock g.world) w g in
      elim r [
        | some e ↦ stop (own e) (beat (failed p.title (i + 1) total (own e)) g')
        | none ↦ run_after g'
      ]

  -- `DryRun` in place of `Run`.
  run_dry : (W → Option E × W) → Progress W E → Step W E
  unfolding executed
  run_dry d g =
      let (r, w) = d g.world in
      let g' = executed p (env.clock w - env.clock g.world) w g in
      elim r [ some e ↦ stop (own e) g' | none ↦ next g' ]

  run_either : Option (W → Option E × W) → Progress W E → Step W E
  unfolding run_wet run_dry
  run_either none g = run_wet g
  run_either (some d) g = run_dry d g

  -- A phase with a dry path takes it in a dry run.
  run_body : Bool → Progress W E → Step W E
  unfolding run_either
  run_body dry g = run_either (if dry then p.dry_run else none) g

  -- From the `Before` hook on.
  run_before : Bool → Progress W E → Step W E
  unfolding run_body called
  run_before dry g =
      let (r, w) = called p.before g.world in
      let g' = record g { world = w } in
      elim r [ some e ↦ stop (own e) g' | none ↦ run_body dry g' ]

  should : W → Bool
  should w = elim p.should_run [ none ↦ true | some ask ↦ ask w ]

  -- From the `ShouldRun` filter on.
  run_checked : Bool → Progress W E → Step W E
  unfolding run_before should plan pass_over classify_dry_run
  run_checked dry g = elim (should g.world) [
    | false ↦ next (pass_over p g)
    | true ↦ elim (dry && is_skip (classify_dry_run p)) [
      | true ↦ next (plan p g)
      | false ↦ run_before dry g
    ]
  ]

  -- From `Prepare` on.
  run_prepare : Bool → Progress W E → Step W E
  unfolding run_checked called plan classify_dry_run
  run_prepare dry g =
      let (r, w) = called p.prepare g.world in
      let g' = record g { world = w } in
      elim r [
        | some e ↦ elim (dry && is_skip (classify_dry_run p)) [
          | true ↦ next (plan p g')
          | false ↦ stop (own e) g'
        ]
        | none ↦ run_checked dry g'
      ]

  pub managed : W → W
  managed w = elim p.set_manager [ none ↦ w | some f ↦ f w ]

  -- One round of the loop of `Run`.
  pub run_phase : Bool → Progress W E → Step W E
  unfolding run_prepare managed beat
  run_phase dry g0 =
      let g = beat (running p.title (i + 1) total) g0 in
      elim (env.ctx_err g.world) [
        | some e ↦
            let err = cancelled_before p.title e in
            stop err (beat (failed p.title (i + 1) total err) g)
        | none ↦ run_prepare dry (record g { world = managed g.world })
      ]

module _ {W E : Type 0} (env : Env W E) where
  pub run_phases : Bool → ℕ → ℕ → List (Phase W E) → Progress W E → Step W E
  run_phases dry i total [] g = next g
  run_phases dry i total (p ∷ ps) g = elim (run_phase env i total p dry g) [
    | stop e g' ↦ stop e g'
    | next g' ↦ run_phases dry (i + 1) total ps g'
  ]

  phase_result : W → Phase W E → ℕ → PhaseResult
  unfolding classify_dry_run
  phase_result w p d = record {
    title = p.title;
    explanation = p.explanation;
    dry_run = classify_dry_run p;
    declared = is_some p.changed;
    changed = elim p.changed [ none ↦ false | some ask ↦ ask w ];
    hosts_declared = is_some p.hosts_changed;
    hosts = elim p.hosts_changed [ none ↦ [] | some ask ↦ ask w ];
    duration = d;
  }

  -- The phases answer from the state that the run left.
  pub collect_result : Progress W E → RunResult
  unfolding phase_result
  collect_result g = record {
    ran = map (λ t. phase_result g.world t.phase t.duration) g.ran;
    planned = map (λ p. phase_result g.world p 0) g.planned;
    skipped = map (λ p. phase_result g.world p 0) g.skipped;
    warnings = g.warnings;
  }

  -- The deferred clean-up of the phases that ran, in order.
  clean_up_all : List (TimedPhase W E) → W → W
  clean_up_all [] w = w
  clean_up_all (t ∷ ts) w = clean_up_all ts (elim t.phase.clean_up [ none ↦ w | some f ↦ f w ])

-- What `Run` leaves: its error, the world, the calls of the heartbeat, and the result that it
-- publishes; no result where it returned before the phases.
pub record Run (W E : Type 0) : Type 0 where
  pub error : Option (RunError E)
  pub result : Option RunResult
  pub world : W
  pub beats : List (Beat E)

module _ {W E : Type 0} (env : Env W E) where
  abbrev pub start : W → Progress W E
  start w = record { ran = []; planned = []; skipped = []; warnings = []; world = w; beats = [] }

  -- The deferred functions, last registered first: the result is collected before the clean-up.
  pub finish : Step W E → Run W E
  unfolding collect_result clean_up_all
  finish (next g) = record {
    error = none;
    result = some (collect_result env g);
    world = g.world;
    beats = clear ∷ g.beats;
  }
  finish (stop e g) = record {
    error = some e;
    result = some (collect_result env g);
    world = clean_up_all env g.ran g.world;
    beats = g.beats;
  }

  pub run : Manager W E → W → Run W E
  unfolding run_phases finish
  run m w0 = elim m.configured [
    | false ↦ record { error = some no_config; result = none; world = w0; beats = [] }
    | true ↦
        let (r, w) = env.set_defaults w0 in
        elim r [
          | some e ↦ record {
            error = some (defaults_failed e);
            result = none;
            world = w;
            beats = [];
          }
          | none ↦ finish (run_phases env m.dry_run 0 (length m.phases) m.phases (start w))
        ]
  ]
