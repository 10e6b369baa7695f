-- ===== src/Phase/Manager/Rounds.antt =====
-- The ways in which one round of the loop of `Manager.Run` (pkg/phase/05_manager.go) can end.
use cargoship.Prelude.{
  ℕ, ◌≡◌, refl, ap, Option, inl, inr, Bool, true, false, ◌&&◌, none, some, List, [], ◌∷◌, ◌++◌,
  arith, ◌⊎◌, length, Bool-cases, Option-cases, if◌then◌else◌,
}
use cargoship.Phase.Manager.{
  Phase, Env, RunError, Beat, Progress, Step, next, stop, classify_dry_run, is_skip, phase_warnings,
  executed, plan, pass_over, called, run_after, run_wet, run_dry, run_either, run_body, run_before,
  should, run_checked, run_prepare, run_phase, run_phases, Manager, start, finish, run,
}

-- Two points of the loop with the same lists.
pub record Same {W E : Type 0} (g g' : Progress W E) : Type 0 where
  pub ran : g'.ran ≡ g.ran
  pub planned : g'.planned ≡ g.planned
  pub skipped : g'.skipped ≡ g.skipped
  pub warnings : g'.warnings ≡ g.warnings

Same-refl : {W E : Type 0} (g : Progress W E) → Same g g
Same-refl g = record { ran = refl; planned = refl; skipped = refl; warnings = refl }

-- The phase was called between the two.
pub record Executed {W E : Type 0} (p : Phase W E) (g g' : Progress W E) : Type 0 where
  pub time : ℕ
  pub left : W
  pub ran : g'.ran ≡ g.ran ++ record { phase = p; duration = time } ∷ []
  pub planned : g'.planned ≡ g.planned
  pub skipped : g'.skipped ≡ g.skipped
  pub warnings : g'.warnings ≡ g.warnings ++ phase_warnings p left

pub data Round {W E : Type 0} (p : Phase W E) (dry : Bool) (g : Progress W E)
    : Step W E → Type 0 where
  quit : (e : RunError E) (g' : Progress W E) → Same g g' → Round p dry g (stop e g')
  planned :
      (g' : Progress W E)
      → dry ≡ true
      → is_skip (classify_dry_run p) ≡ true
      → Same (record g { planned = g.planned ++ p ∷ [] }) g'
      → Round p dry g (next g')
  skipped :
      (g' : Progress W E)
      → Same (record g { skipped = g.skipped ++ p ∷ [] }) g'
      → Round p dry g (next g')
  ran :
      (g' : Progress W E)
      → (dry && is_skip (classify_dry_run p)) ≡ false
      → Executed p g g'
      → Round p dry g (next g')
  broke :
      (e : RunError E) (g' : Progress W E)
      → (dry && is_skip (classify_dry_run p)) ≡ false
      → Executed p g g'
      → Round p dry g (stop e g')

module _ {W E : Type 0} {p : Phase W E} {g0 g : Progress W E} where
  Executed-elsewhere :
      (w : W) (bs : List (Beat E))
      → Executed p g0 g
      → Executed p g0 (record g { world = w; beats = bs })
  Executed-elsewhere w bs x = record {
    time = x.time;
    left = x.left;
    ran = x.ran;
    planned = x.planned;
    skipped = x.skipped;
    warnings = x.warnings;
  }

module _ {W E : Type 0} {g0 g : Progress W E} (x : Same g0 g) where
  Same-elsewhere : (w : W) (bs : List (Beat E)) → Same g0 (record g { world = w; beats = bs })
  Same-elsewhere w bs = record {
    ran = x.ran;
    planned = x.planned;
    skipped = x.skipped;
    warnings = x.warnings;
  }

  executed-Executed :
      (p : Phase W E) (d : ℕ) (w : W) (bs : List (Beat E))
      → Executed p g0 (record (executed p d w g) { beats = bs })
  unfolding executed
  executed-Executed p d w bs = record {
    time = d;
    left = w;
    ran = ap (λ l. l ++ record { phase = p; duration = d } ∷ []) x.ran;
    planned = x.planned;
    skipped = x.skipped;
    warnings = ap (λ l. l ++ phase_warnings p w) x.warnings;
  }

  plan-Same : (p : Phase W E) → Same (record g0 { planned = g0.planned ++ p ∷ [] }) (plan p g)
  unfolding plan
  plan-Same p = record {
    ran = x.ran;
    planned = ap (λ l. l ++ p ∷ []) x.planned;
    skipped = x.skipped;
    warnings = x.warnings;
  }

  pass_over-Same :
      (p : Phase W E) → Same (record g0 { skipped = g0.skipped ++ p ∷ [] }) (pass_over p g)
  unfolding pass_over
  pass_over-Same p = record {
    ran = x.ran;
    planned = x.planned;
    skipped = ap (λ l. l ++ p ∷ []) x.skipped;
    warnings = x.warnings;
  }

module _ {W E : Type 0} (env : Env W E) (i total : ℕ) (p : Phase W E) (dry : Bool) where
  module _ (s : (dry && is_skip (classify_dry_run p)) ≡ false) where
    after-Round :
        (g0 g : Progress W E) → Executed p g0 g → Round p dry g0 (run_after env i total p g)
    unfolding run_after
    after-Round g0 g x = elim (Option-cases (called p.after g.world).0) [
      | inl n ↦ rw (n, run_after) (Round.ran _ s (Executed-elsewhere _ _ x))
      | inr (e, n) ↦ rw (n, run_after) (Round.broke _ _ s (Executed-elsewhere _ _ x))
    ]

    wet-Round : (g0 g : Progress W E) → Same g0 g → Round p dry g0 (run_wet env i total p g)
    unfolding run_wet
    wet-Round g0 g x = elim (Option-cases (p.run g.world).0) [
      | inl n ↦ rw (n, run_wet) (after-Round g0 _ (executed-Executed x p _ _ _))
      | inr (e, n) ↦ rw (n, run_wet) (Round.broke _ _ s (executed-Executed x p _ _ _))
    ]

    dry-Round :
        (d : W → Option E × W) (g0 g : Progress W E)
        → Same g0 g
        → Round p dry g0 (run_dry env i total p d g)
    unfolding run_dry
    dry-Round d g0 g x = elim (Option-cases (d g.world).0) [
      | inl n ↦ rw (n, run_dry) (Round.ran _ s (executed-Executed x p _ _ _))
      | inr (e, n) ↦ rw (n, run_dry) (Round.broke _ _ s (executed-Executed x p _ _ _))
    ]

    either-Round :
        (o : Option (W → Option E × W)) (g0 g : Progress W E)
        → Same g0 g
        → Round p dry g0 (run_either env i total p o g)
    unfolding run_either
    either-Round none g0 g x = wet-Round g0 g x
    either-Round (some d) g0 g x = dry-Round d g0 g x

    before-Round :
        (g0 g : Progress W E) → Same g0 g → Round p dry g0 (run_before env i total p dry g)
    unfolding run_before run_body
    before-Round g0 g x = elim (Option-cases (called p.before g.world).0) [
      | inl n ↦
          rw (n, run_before)
            (either-Round (if dry then p.dry_run else none) g0 _ (Same-elsewhere x _ _))
      | inr (e, n) ↦ rw (n, run_before) (Round.quit _ _ (Same-elsewhere x _ _))
    ]

  checked-Round :
      (g0 g : Progress W E) → Same g0 g → Round p dry g0 (run_checked env i total p dry g)
  unfolding run_checked
  checked-Round g0 g x = elim (Bool-cases (should env i total p g.world)) [
    | inr n ↦ rw (n, run_checked) (Round.skipped _ (pass_over-Same x p))
    | inl y ↦ elim (Bool-cases (dry && is_skip (classify_dry_run p))) [
      | inl k ↦
          rw (y, k, run_checked) (Round.planned _ (ground arith) (ground arith) (plan-Same x p))
      | inr k ↦ rw (y, k, run_checked) (before-Round k g0 g x)
    ]
  ]

  prepare-Round :
      (g0 g : Progress W E) → Same g0 g → Round p dry g0 (run_prepare env i total p dry g)
  unfolding run_prepare
  prepare-Round g0 g x = elim (Option-cases (called p.prepare g.world).0) [
    | inl n ↦ rw (n, run_prepare) (checked-Round g0 _ (Same-elsewhere x _ _))
    | inr (e, n) ↦ elim (Bool-cases (dry && is_skip (classify_dry_run p))) [
      | inl k ↦
          rw (n, k, run_prepare)
            (Round.planned _ (ground arith) (ground arith) (plan-Same (Same-elsewhere x _ _) p))
      | inr k ↦ rw (n, k, run_prepare) (Round.quit _ _ (Same-elsewhere x _ _))
    ]
  ]

  -- Every round ends in one of the five ways.
  pub run_phase-Round : (g : Progress W E) → Round p dry g (run_phase env i total p dry g)
  unfolding run_phase
  run_phase-Round g = elim (Option-cases (env.ctx_err g.world)) [
    | inl n ↦ rw (n, run_phase) (prepare-Round g _ (Same-elsewhere (Same-refl g) _ _))
    | inr (e, n) ↦ rw (n, run_phase) (Round.quit _ _ (Same-elsewhere (Same-refl g) _ _))
  ]

module _ {W E : Type 0} (env : Env W E) (m : Manager W E) (w : W) where
  -- A run either returns before its phases, with an error and no result, or it is the loop and what
  -- follows it.
  pub run-cases :
      ((e : RunError E) × ((run env m w).error ≡ some e)
        × ((run env m w).result ≡ none)
        × ((run env m w).world ≡ w ⊎ ((run env m w).world ≡ (env.set_defaults w).1)))
      ⊎ (run env m w
          ≡ finish env (
              run_phases env m.dry_run 0
                (length m.phases)
                m.phases
                (start env (env.set_defaults w).1)))
  unfolding run
  run-cases = elim (Bool-cases m.configured) [
    | inr n ↦ inl (RunError.no_config, rw (n, run), rw (n, run), inl (rw (n, run)))
    | inl y ↦ elim (Option-cases (env.set_defaults w).0) [
      | inl n ↦ inr (rw (y, n, run))
      | inr (e, n) ↦
          inl (RunError.defaults_failed e, rw (y, n, run), rw (y, n, run), inr (rw (y, n, run)))
    ]
  ]
