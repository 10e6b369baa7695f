-- ===== src/Phase/Manager/DryRun.antt =====
-- A dry run of `Manager.Run` (pkg/phase/05_manager.go) leaves alone what the phases promise to leave
-- alone: nothing is asked of the `Run` of a phase that does not declare itself safe.
use cargoship.Prelude.{
  ℕ, ◌+◌, String, ◌≡◌, refl, ap, ◌∙◌, ◌≢◌, inl, inr, true, false, Option, none, some, List, [], ◌∷◌,
  arith, length, Bool-cases, Option-cases, All, All-append,
}
use cargoship.Phase.Manager.{
  Phase, Env, Manager, TimedPhase, Progress, Step, next, stop, classify_dry_run, is_skip, called,
  run_after, run_wet, run_dry, run_either, run_body, run_before, should, run_checked, run_prepare,
  managed, run_phase, run_phases, clean_up_all, finish, run,
}
use cargoship.Phase.Manager.Rounds.{Executed, Round, run_phase-Round, run-cases}
use cargoship.Phase.Manager.Loop.{point}

-- A call leaves what is observed of the world as it was.
abbrev Keeps : {W E F : Type 0} → (W → F) → Option (W → Option E × W) → Type 0
Keeps observe none = Unit
Keeps {W = W} observe (some f) = (w : W) → observe (f w).1 ≡ observe w

abbrev KeepsWorld : {W F : Type 0} → (W → F) → Option (W → W) → Type 0
KeepsWorld observe none = Unit
KeepsWorld {W = W} observe (some f) = (w : W) → observe (f w) ≡ observe w

-- `Run` is asked for only where the phase calls itself read-only and has no dry path of its own.
abbrev KeepsRun :
    {W E F : Type 0}
    → (W → F)
    → (W → Option E × W)
    → Option (W → Option E × W)
    → Option String
    → Type 0
KeepsRun observe r (some d) why = Unit
KeepsRun observe r none none = Unit
KeepsRun {W = W} observe r none (some why) = (w : W) → observe (r w).1 ≡ observe w

-- What a phase promises for a dry run. `Prepare` is called whatever the phase declares; the hooks
-- around `Run`, and the clean-up, only if it declares something.
pub record Promise {W E F : Type 0} (observe : W → F) (p : Phase W E) : Type 0 where
  pub set_manager : KeepsWorld observe p.set_manager
  pub prepare : Keeps observe p.prepare
  pub dry_run : Keeps observe p.dry_run
  pub run : KeepsRun observe p.run p.dry_run p.read_only
  pub before : is_skip (classify_dry_run p) ≡ false → Keeps observe p.before
  pub after : is_skip (classify_dry_run p) ≡ false → Keeps observe p.after
  pub clean_up : is_skip (classify_dry_run p) ≡ false → KeepsWorld observe p.clean_up

module _ {W E F : Type 0} (observe : W → F) where
  called_keeps :
      (o : Option (W → Option E × W)) (w : W) → Keeps observe o → observe (called o w).1 ≡ observe w
  unfolding called
  called_keeps none w h = refl
  called_keeps (some f) w h = h w

module _ {W E F : Type 0} (env : Env W E) (observe : W → F) (i total : ℕ) (p : Phase W E)
    (h : Promise observe p) where
  managed_keeps : (w : W) → observe (managed env i total p w) ≡ observe w
  unfolding managed
  managed_keeps w = go p.set_manager h.set_manager
    where
      go :
          (o : Option (W → W))
          → KeepsWorld observe o
          → observe (elim o [ none ↦ w | some f ↦ f w ]) ≡ observe w
      go none k = refl
      go (some f) k = k w

  module _ (s : is_skip (classify_dry_run p) ≡ false) where
    after_keeps :
        (g : Progress W E) → observe (point (run_after env i total p g)).world ≡ observe g.world
    unfolding run_after
    after_keeps g = elim (Option-cases (called p.after g.world).0) [
      | inl n ↦ rw (n, run_after) (called_keeps observe p.after g.world (h.after s))
      | inr (e, n) ↦ rw (n, run_after) (called_keeps observe p.after g.world (h.after s))
    ]

    wet_keeps :
        (g : Progress W E)
        → ((w : W) → observe (p.run w).1 ≡ observe w)
        → observe (point (run_wet env i total p g)).world ≡ observe g.world
    unfolding run_wet
    wet_keeps g k = elim (Option-cases (p.run g.world).0) [
      | inl n ↦ rw (n, run_wet) (after_keeps _ ∙ k g.world)
      | inr (e, n) ↦ rw (n, run_wet) (k g.world)
    ]

    dry_keeps :
        (d : W → Option E × W) (g : Progress W E)
        → ((w : W) → observe (d w).1 ≡ observe w)
        → observe (point (run_dry env i total p d g)).world ≡ observe g.world
    unfolding run_dry
    dry_keeps d g k = elim (Option-cases (d g.world).0) [
      | inl n ↦ rw (n, run_dry) (k g.world)
      | inr (e, n) ↦ rw (n, run_dry) (k g.world)
    ]

    either_keeps :
        (o : Option (W → Option E × W)) (why : Option String) (g : Progress W E)
        → (o ≡ none → why ≢ none)
        → Keeps observe o
        → KeepsRun observe p.run o why
        → observe (point (run_either env i total p o g)).world ≡ observe g.world
    unfolding run_either
    either_keeps (some d) why g c k r = dry_keeps d g k
    either_keeps none none g c k r = absurd (c refl refl)
    either_keeps none (some why) g c k r = wet_keeps g r

    declared : p.dry_run ≡ none → p.read_only ≢ none
    unfolding classify_dry_run
    declared a b = ground arith

    before_keeps :
        (g : Progress W E)
        → observe (point (run_before env i total p true g)).world ≡ observe g.world
    unfolding run_before run_body
    before_keeps g = elim (Option-cases (called p.before g.world).0) [
      | inl n ↦
          rw (n, run_before)
            (either_keeps p.dry_run p.read_only _ declared h.dry_run h.run
              ∙ called_keeps observe p.before g.world (h.before s))
      | inr (e, n) ↦ rw (n, run_before) (called_keeps observe p.before g.world (h.before s))
    ]

  checked_keeps :
      (g : Progress W E)
      → observe (point (run_checked env i total p true g)).world ≡ observe g.world
  unfolding run_checked
  checked_keeps g = elim (Bool-cases (should env i total p g.world)) [
    | inr n ↦ rw (n, run_checked) refl
    | inl y ↦ elim (Bool-cases (is_skip (classify_dry_run p))) [
      | inl k ↦ rw (y, k, run_checked) refl
      | inr k ↦ rw (y, k, run_checked) (before_keeps k g)
    ]
  ]

  prepare_keeps :
      (g : Progress W E)
      → observe (point (run_prepare env i total p true g)).world ≡ observe g.world
  unfolding run_prepare
  prepare_keeps g =
      let kept = called_keeps observe p.prepare g.world h.prepare in
      elim (Option-cases (called p.prepare g.world).0) [
        | inl n ↦ rw (n, run_prepare) (checked_keeps _ ∙ kept)
        | inr (e, n) ↦ elim (Bool-cases (is_skip (classify_dry_run p))) [
          | inl k ↦ rw (n, k, run_prepare) kept
          | inr k ↦ rw (n, k, run_prepare) kept
        ]
      ]

  phase_keeps :
      (g : Progress W E) → observe (point (run_phase env i total p true g)).world ≡ observe g.world
  unfolding run_phase
  phase_keeps g = elim (Option-cases (env.ctx_err g.world)) [
    | inl n ↦ rw (n, run_phase) (prepare_keeps _ ∙ managed_keeps g.world)
    | inr (e, n) ↦ rw (n, run_phase) refl
  ]

-- What was called may be cleaned up.
abbrev Called : {W E F : Type 0} → (W → F) → List (TimedPhase W E) → Type 0
Called observe = All (λ t. Promise observe t.phase × (is_skip (classify_dry_run t.phase) ≡ false))

module _ {W E F : Type 0} (observe : W → F) where
  Called-Executed :
      {p : Phase W E} (g g' : Progress W E)
      → Promise observe p
      → is_skip (classify_dry_run p) ≡ false
      → Executed p g g'
      → Called observe g.ran
      → Called observe g'.ran
  Called-Executed g g' h s x c = rw x.ran (All-append _ g.ran _ c ((h, s), tt))

  Called-Round :
      (p : Phase W E) (g : Progress W E) (s : Step W E)
      → Promise observe p
      → Round p true g s
      → Called observe g.ran
      → Called observe (point s).ran
  Called-Round p g s h (Round.quit e g' x) c = rw x.ran c
  Called-Round p g s h (Round.planned g' _ _ x) c = rw x.ran c
  Called-Round p g s h (Round.skipped g' x) c = rw x.ran c
  Called-Round p g s h (Round.ran g' d x) c = Called-Executed g g' h d x c
  Called-Round p g s h (Round.broke e g' d x) c = Called-Executed g g' h d x c

module _ {W E F : Type 0} (env : Env W E) (observe : W → F) where
  -- The world looks as before, and what was called has made its promise.
  abbrev Untouched : F → Progress W E → Type 0
  Untouched o g = (observe g.world ≡ o) × Called observe g.ran

  go_on :
      (o : F) (k : Progress W E → Step W E) (s : Step W E)
      → ((g : Progress W E) → Untouched o g → Untouched o (point (k g)))
      → Untouched o (point s)
      → Untouched o (point (elim s [ stop e g ↦ stop e g | next g ↦ k g ]))
  go_on o k (next g) ih h = ih g h
  go_on o k (stop e g) ih h = h

  phases_keep_dry :
      (i total : ℕ) (ps : List (Phase W E)) (o : F) (g : Progress W E)
      → All (Promise observe) ps
      → Untouched o g
      → Untouched o (point (run_phases env true i total ps g))
  unfolding run_phases
  phases_keep_dry i total [] o g hs u = u
  phases_keep_dry i total (p ∷ ps) o g (h, hs) (u, c) =
      go_on o (run_phases env true (i + 1) total ps) (run_phase env i total p true g)
        (λ g' u'. phases_keep_dry (i + 1) total ps o g' hs u')
        (
          phase_keeps env observe i total p h g ∙ u,
          Called-Round observe p g _ h (run_phase-Round env i total p true g) c,
        )

  clean_up_keeps :
      (ts : List (TimedPhase W E)) (w : W)
      → Called observe ts
      → observe (clean_up_all env ts w) ≡ observe w
  unfolding clean_up_all
  clean_up_keeps [] w c = refl
  clean_up_keeps (t ∷ ts) w ((h, s), c) =
      clean_up_keeps ts _ c ∙ one t.phase.clean_up (h.clean_up s)
    where
      one :
          (o : Option (W → W))
          → KeepsWorld observe o
          → observe (elim o [ none ↦ w | some f ↦ f w ]) ≡ observe w
      one none k = refl
      one (some f) k = k w

  finish_keeps : (o : F) (s : Step W E) → Untouched o (point s) → observe (finish env s).world ≡ o
  unfolding finish
  finish_keeps o (next g) (u, c) = u
  finish_keeps o (stop e g) (u, c) = clean_up_keeps g.ran g.world c ∙ u

  -- A dry run, failed or not, leaves what is observed as it was, if setting the defaults does and
  -- each phase keeps the promise of its own declarations. No promise is asked of the `Run`, the
  -- hooks and the clean-up of a phase that declares neither a dry path nor that it only reads.
  pub run-untouched :
      (m : Manager W E) (w : W)
      → m.dry_run ≡ true
      → observe (env.set_defaults w).1 ≡ observe w
      → All (Promise observe) m.phases
      → observe (run env m w).world ≡ observe w
  run-untouched m w dry d hs = elim (run-cases env m w) [
    | inl (e, _, _, inl same) ↦ ap observe same
    | inl (e, _, _, inr same) ↦ ap observe same ∙ d
    | inr same ↦
        ap (λ r. observe r.world) same
        ∙ finish_keeps (observe w) _
            (rw dry (phases_keep_dry 0 (length m.phases) m.phases (observe w) _ hs (d, tt)))
  ]
