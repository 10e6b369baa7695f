-- ===== src/Phase/Manager/Loop.antt =====
-- Invariants of the loop of `Manager.Run` (pkg/phase/05_manager.go).
use cargoship.Prelude.{
  ℕ, ◌+◌, ◌≡◌, ◌≢◌, sym, ◌∙◌, inl, inr, Bool, Option, none, some, List, [], ◌∷◌, length,
}
use cargoship.Phase.Report.{RunResult}
use cargoship.Phase.Manager.{
  Phase, Env, Manager, Progress, Step, next, stop, run_phase, run_phases, collect_result, start,
  finish, run,
}
use cargoship.Phase.Manager.Rounds.{Round, run_phase-Round, run-cases}

abbrev pub point : {W E : Type 0} → Step W E → Progress W E
point (next g) = g
point (stop e g) = g

module _ {W E : Type 0} (env : Env W E) (dry : Bool) (I : Progress W E → Type 0)
    (keep : (p : Phase W E) (g : Progress W E) (s : Step W E)
      → Round p dry g s
      → I g
      → I (point s)) where
  phases_after :
      (k : Progress W E → Step W E) (s : Step W E)
      → ((g' : Progress W E) → I g' → I (point (k g')))
      → I (point s)
      → I (point (elim s [ stop e g' ↦ stop e g' | next g' ↦ k g' ]))
  phases_after k (next g') ih h = ih g' h
  phases_after k (stop e g') ih h = h

  -- An invariant that each round keeps holds where the loop ends.
  pub phases_keep :
      (i total : ℕ) (ps : List (Phase W E)) (g : Progress W E)
      → I g
      → I (point (run_phases env dry i total ps g))
  unfolding run_phases
  phases_keep i total [] g h = h
  phases_keep i total (p ∷ ps) g h =
      phases_after (run_phases env dry (i + 1) total ps) (run_phase env i total p dry g)
        (phases_keep (i + 1) total ps) (keep p g _ (run_phase-Round env i total p dry g) h)

none-ne-some : {A : Type 0} (a : A) → ◌≢◌ {A = Option A} none (some a)
none-ne-some a h = cc

module _ {W E : Type 0} (env : Env W E) (I : Progress W E → Type 0) (m : Manager W E) where
  finish-point :
      (s : Step W E) (r : RunResult)
      → (finish env s).result ≡ some r
      → collect_result env (point s) ≡ r
  unfolding finish
  finish-point (next g) r h = cc
  finish-point (stop e g) r h = cc

  -- The published result is collected where the loop ended, so an invariant holds there.
  pub run_point :
      (keep : (p : Phase W E) (g : Progress W E) (s : Step W E)
        → Round p m.dry_run g s
        → I g
        → I (point s))
      (w : W) {r : RunResult}
      → I (start env (env.set_defaults w).1)
      → (run env m w).result ≡ some r
      → (g : Progress W E) × I g × (collect_result env g ≡ r)
  run_point keep w {r = r} h k = elim (run-cases env m w) [
    | inl (e, _, nothing, _) ↦ absurd (none-ne-some r (sym nothing ∙ k))
    | inr same ↦ (
      _,
      phases_keep env m.dry_run I keep 0 (length m.phases) m.phases _ h,
      finish-point _ r (rw same at k),
    )
  ]
