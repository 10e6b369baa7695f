-- ===== src/Phase/Manager/Beats.antt =====
-- The heartbeat of `Manager.Run` (pkg/phase/05_manager.go) on a failing `Prepare`.
use cargoship.Prelude.{ℕ, ◌+◌, ◌≡◌, false, none, some, ◌∷◌}
use cargoship.Phase.Manager.{
  Phase, Env, own, running, Progress, stop, called, run_prepare, managed, run_phase, beat,
}

module _ {W E : Type 0} (env : Env W E) (i total : ℕ) (p : Phase W E) where
  -- Outside of a dry run, a phase whose `Prepare` fails stops the run with that error, and the last
  -- that the heartbeat was told is that the phase is running.
  prepare_failure-running :
      (g : Progress W E) {e : E}
      → env.ctx_err g.world ≡ none
      → (called p.prepare (managed env i total p g.world)).0 ≡ some e
      → run_phase env i total p false g
        ≡ stop (own e) (record g {
          world = (called p.prepare (managed env i total p g.world)).1;
          beats = running p.title (i + 1) total ∷ g.beats;
        })
  unfolding run_phase run_prepare beat
  prepare_failure-running g live fails = rw (live, fails, run_phase, run_prepare)
