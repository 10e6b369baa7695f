-- ===== src/Phase/Manager/Labels.antt =====
-- What a dry run of `Manager.Run` (pkg/phase/05_manager.go) calls, and what it only reports.
use cargoship.Prelude.{
  ◌≡◌, refl, Bool, true, false, ◌&&◌, some, List, [], ◌∷◌, arith, All, All-append, All-map,
}
use cargoship.Phase.Report.{PhaseResult, RunResult}
use cargoship.Phase.Manager.{
  Phase, Env, Manager, Progress, Step, classify_dry_run, is_skip, phase_result, collect_result, run,
}
use cargoship.Phase.Manager.Rounds.{Round}
use cargoship.Phase.Manager.Loop.{point, run_point}

module _ {W E : Type 0} where
  -- In a dry run, the phases that were called say how they behave under one, and the planned ones
  -- do not; outside of one nothing is planned.
  abbrev Labelled : Bool → Progress W E → Type 0
  Labelled dry g =
      All (λ t. (dry && is_skip (classify_dry_run t.phase)) ≡ false) g.ran
      × All (λ p. (dry && is_skip (classify_dry_run p)) ≡ true) g.planned

  Round-Labelled :
      (dry : Bool) (p : Phase W E) (g : Progress W E) (s : Step W E)
      → Round p dry g s
      → Labelled dry g
      → Labelled dry (point s)
  Round-Labelled dry p g s (Round.quit e g' x) h = (rw x.ran h.0, rw x.planned h.1)
  Round-Labelled dry p g s (Round.planned g' d c x) h =
      (rw x.ran h.0, rw x.planned (All-append _ g.planned _ h.1 (rw (d, c) refl, tt)))
  Round-Labelled dry p g s (Round.skipped g' x) h = (rw x.ran h.0, rw x.planned h.1)
  Round-Labelled dry p g s (Round.ran g' c x) h =
      (rw x.ran (All-append _ g.ran _ h.0 (c, tt)), rw x.planned h.1)
  Round-Labelled dry p g s (Round.broke e g' c x) h =
      (rw x.ran (All-append _ g.ran _ h.0 (c, tt)), rw x.planned h.1)

nothing_planned :
    (dry : Bool) (ps : List PhaseResult)
    → dry ≡ false
    → All (λ p. (dry && is_skip p.dry_run) ≡ true) ps
    → ps ≡ []
nothing_planned dry [] wet h = refl
nothing_planned dry (p ∷ ps) wet h = ground arith

module _ {W E : Type 0} (env : Env W E) where
  Labelled-result :
      (dry : Bool) (g : Progress W E)
      → Labelled dry g
      → All (λ r. (dry && is_skip r.dry_run) ≡ false) (collect_result env g).ran
        × All (λ r. (dry && is_skip r.dry_run) ≡ true) (collect_result env g).planned
  unfolding phase_result collect_result
  Labelled-result dry g h = (All-map _ _ g.ran h.0, All-map _ _ g.planned h.1)

  -- A dry run calls only phases that say how they behave under one, and plans only those that do
  -- not; outside of a dry run nothing is planned.
  pub run-Labelled :
      (m : Manager W E) (w : W) {r : RunResult}
      → (run env m w).result ≡ some r
      → All (λ p. (m.dry_run && is_skip p.dry_run) ≡ false) r.ran
        × All (λ p. (m.dry_run && is_skip p.dry_run) ≡ true) r.planned
        × (m.dry_run ≡ false → r.planned ≡ [])
  run-Labelled m w {r = r} h =
      let (g, x, e) =
        run_point env (Labelled m.dry_run) m (Round-Labelled m.dry_run) w (tt, tt) h in
      let (a, b) = Labelled-result m.dry_run g x in
      let b' : All (λ p. (m.dry_run && is_skip p.dry_run) ≡ true) r.planned = rw (← e) b in
      (rw (← e) a, b', λ wet. nothing_planned m.dry_run r.planned wet b')
