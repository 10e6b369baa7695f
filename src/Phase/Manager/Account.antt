-- ===== src/Phase/Manager/Account.antt =====
-- What the result of `Manager.Run` (pkg/phase/05_manager.go) says of the phases.
use mathlib.Core.List.{Perm, perm_middle, perm_append_singleton}
use mathlib.Core.List.Perm
use cargoship.Prelude.{
  ℕ, ◌+◌, String, ◌≡◌, refl, ap, ◌⊎◌, inl, inr, Bool, none, some, List, [], ◌∷◌, ◌++◌, map,
  map-append, append-nil, append_assoc, length,
}
use cargoship.Phase.Report.{RunResult, titles, groups, titles-append}
use cargoship.Phase.Manager.{
  Phase, Env, Manager, RunError, TimedPhase, Progress, Step, next, stop, run_phases, phase_result,
  collect_result, start, finish, run,
}
use cargoship.Phase.Manager.Rounds.{Same, Executed, Round, run_phase-Round, run-cases}

perm_end : {A : Type 0} (xs ys : List A) (a : A) → Perm ((xs ++ a ∷ []) ++ ys) (a ∷ xs ++ ys)
perm_end xs ys a = rw append_assoc (perm_middle xs ys)

abbrev timed_titles : {W E : Type 0} → List (TimedPhase W E) → List String
timed_titles ts = map (λ t. t.phase.title) ts

abbrev phase_titles : {W E : Type 0} → List (Phase W E) → List String
phase_titles ps = map (λ p. p.title) ps

module _ {W E : Type 0} where
  -- The titles in the three lists.
  abbrev seen : Progress W E → List String
  seen g = timed_titles g.ran ++ (phase_titles g.planned ++ phase_titles g.skipped)

  seen-Same : (g g' : Progress W E) → Same g g' → seen g' ≡ seen g
  seen-Same g g' x = rw (x.ran, x.planned, x.skipped)

  seen-Executed :
      {p : Phase W E} (g g' : Progress W E) → Executed p g g' → Perm (seen g') (p.title ∷ seen g)
  seen-Executed {p} g g' x = rw (x.ran, x.planned, x.skipped, map-append) (perm_end _ _ p.title)

  seen_planned :
      (p : Phase W E) (g : Progress W E)
      → Perm (seen (record g { planned = g.planned ++ p ∷ [] })) (p.title ∷ seen g)
  seen_planned p g = rw map-append (
      Perm.trans (Perm.append_left (timed_titles g.ran) (perm_end _ _ p.title))
        (perm_middle (timed_titles g.ran) _))

  seen_skipped :
      (p : Phase W E) (g : Progress W E)
      → Perm (seen (record g { skipped = g.skipped ++ p ∷ [] })) (p.title ∷ seen g)
  seen_skipped p g = rw map-append (
      Perm.trans
        (Perm.append_left (timed_titles g.ran) (
          Perm.append_left (phase_titles g.planned)
            (perm_append_singleton p.title (phase_titles g.skipped))))
        (Perm.trans (Perm.append_left (timed_titles g.ran) (perm_middle (phase_titles g.planned) _))
          (perm_middle (timed_titles g.ran) _)))

  -- After all of `ps`, each of them is in one list, once; where `p` stopped the loop, this holds of
  -- the phases before `p`, and `p` itself is listed only if it was called.
  abbrev Accounts : List (Phase W E) → Progress W E → Step W E → Type 0
  Accounts ps g (next g') = Perm (seen g') (phase_titles ps ++ seen g)
  Accounts ps g (stop e g') =
      (before : List (Phase W E)) × (p : Phase W E) × (rest : List (Phase W E)) × (ps
        ≡ before ++ p ∷ rest)
      × (Perm (seen g') (phase_titles before ++ seen g)
          ⊎ Perm (seen g') (p.title ∷ phase_titles before ++ seen g))

  shift_perm :
      {xs : List String} (ps : List (Phase W E)) (p : Phase W E) (g g' : Progress W E)
      → Perm (seen g') (p.title ∷ seen g)
      → Perm xs (phase_titles ps ++ seen g')
      → Perm xs (p.title ∷ phase_titles ps ++ seen g)
  shift_perm ps p g g' h k =
      Perm.trans k
        (Perm.trans (Perm.append_left (phase_titles ps) h) (perm_middle (phase_titles ps) _))

  shift :
      (p : Phase W E) (ps : List (Phase W E)) (g g' : Progress W E) (s : Step W E)
      → Perm (seen g') (p.title ∷ seen g)
      → Accounts ps g' s
      → Accounts (p ∷ ps) g s
  shift p ps g g' (next g'') h a = shift_perm ps p g g' h a
  shift p ps g g' (stop e g'') h (before, q, rest, split, inl k) =
      (p ∷ before, q, rest, ap (λ l. p ∷ l) split, inl (shift_perm before p g g' h k))
  shift p ps g g' (stop e g'') h (before, q, rest, split, inr k) = (
    p ∷ before,
    q,
    rest,
    ap (λ l. p ∷ l) split,
    inr (Perm.trans k (Perm.cons q.title (shift_perm before p g g' h (Perm.refl _)))),
  )

  Round-Accounts :
      (dry : Bool) (p : Phase W E) (ps : List (Phase W E)) (g : Progress W E)
      (k : Progress W E → Step W E) (s : Step W E)
      → ((g' : Progress W E) → Accounts ps g' (k g'))
      → Round p dry g s
      → Accounts (p ∷ ps) g (elim s [ stop e g' ↦ stop e g' | next g' ↦ k g' ])
  Round-Accounts dry p ps g k s h (Round.quit e g' x) =
      ([], p, ps, refl, inl (rw (seen-Same g g' x) (Perm.refl _)))
  Round-Accounts dry p ps g k s h (Round.broke e g' d x) =
      ([], p, ps, refl, inr (seen-Executed g g' x))
  Round-Accounts dry p ps g k s h (Round.ran g' d x) =
      shift p ps g g' (k g') (seen-Executed g g' x) (h g')
  Round-Accounts dry p ps g k s h (Round.planned g' d c x) =
      shift p ps g g' (k g') (rw (seen-Same _ g' x) (seen_planned p g)) (h g')
  Round-Accounts dry p ps g k s h (Round.skipped g' x) =
      shift p ps g g' (k g') (rw (seen-Same _ g' x) (seen_skipped p g)) (h g')

module _ {W E : Type 0} (env : Env W E) where
  phases_account :
      (dry : Bool) (i total : ℕ) (ps : List (Phase W E)) (g : Progress W E)
      → Accounts ps g (run_phases env dry i total ps g)
  unfolding run_phases
  phases_account dry i total [] g = Perm.refl _
  phases_account dry i total (p ∷ ps) g =
      Round-Accounts dry p ps g (run_phases env dry (i + 1) total ps) _
        (phases_account dry (i + 1) total ps) (run_phase-Round env i total p dry g)

  timed_results :
      (w : W) (ts : List (TimedPhase W E))
      → titles (map (λ t. phase_result env w t.phase t.duration) ts) ≡ timed_titles ts
  unfolding titles phase_result
  timed_results w [] = refl
  timed_results w (t ∷ ts) = ap (λ l. t.phase.title ∷ l) (timed_results w ts)

  phase_results :
      (w : W) (ps : List (Phase W E))
      → titles (map (λ p. phase_result env w p 0) ps) ≡ phase_titles ps
  unfolding titles phase_result
  phase_results w [] = refl
  phase_results w (p ∷ ps) = ap (λ l. p.title ∷ l) (phase_results w ps)

  titles-collect_result : (g : Progress W E) → titles (groups (collect_result env g)) ≡ seen g
  unfolding collect_result
  titles-collect_result g = rw (
    titles-append,
    titles-append,
    timed_results g.world g.ran,
    phase_results g.world g.planned,
    phase_results g.world g.skipped,
  )

  finish-success :
      (ps : List (Phase W E)) (w : W) (s : Step W E)
      → Accounts ps (start env w) s
      → (finish env s).error ≡ none
      → (r : RunResult) × ((finish env s).result ≡ some r)
        × Perm (titles (groups r)) (phase_titles ps)
  unfolding finish
  finish-success ps w (stop e g) a h = cc
  finish-success ps w (next g) a h =
      (collect_result env g, refl, rw titles-collect_result (rw append-nil at a))

  failure_perm :
      (before : List (Phase W E)) (p : Phase W E) (g : Progress W E) (r : RunResult)
      → collect_result env g ≡ r
      → Perm (seen g) (phase_titles before ++ [])
        ⊎ Perm (seen g) (p.title ∷ phase_titles before ++ [])
      → Perm (titles (groups r)) (phase_titles before)
        ⊎ Perm (titles (groups r)) (p.title ∷ phase_titles before)
  failure_perm before p g r same (inl a) =
      inl (rw (← same, titles-collect_result) (rw append-nil at a))
  failure_perm before p g r same (inr a) =
      inr (rw (← same, titles-collect_result) (rw append-nil at a))

  finish-failure :
      (ps : List (Phase W E)) (w : W) (s : Step W E) {e : RunError E} {r : RunResult}
      → Accounts ps (start env w) s
      → (finish env s).error ≡ some e
      → (finish env s).result ≡ some r
      → (before : List (Phase W E)) × (p : Phase W E) × (rest : List (Phase W E)) × (ps
          ≡ before ++ p ∷ rest)
        × (Perm (titles (groups r)) (phase_titles before)
            ⊎ Perm (titles (groups r)) (p.title ∷ phase_titles before))
  unfolding finish
  finish-failure ps w (next g) a h k = cc
  finish-failure ps w (stop e g) {r = r} (before, p, rest, split, d) h k =
      (before, p, rest, split, failure_perm before p g r (cc) d)

  -- A run without an error lists every phase exactly once: as run, as planned or as skipped.
  pub run-success :
      (m : Manager W E) (w : W)
      → (run env m w).error ≡ none
      → (r : RunResult) × ((run env m w).result ≡ some r)
        × Perm (titles (groups r)) (phase_titles m.phases)
  run-success m w h = elim (run-cases env m w) [
    | inl (e, fails, _, _) ↦ cc
    | inr same ↦ rw same (
        finish-success m.phases (env.set_defaults w).1 _
          (phases_account m.dry_run 0 (length m.phases) m.phases _) (rw same at h))
  ]

  -- The result of a run that failed lists exactly the phases before some phase `p`, and perhaps `p`:
  -- each phase once, and none that stands behind `p`.
  pub run-failure :
      (m : Manager W E) (w : W) {e : RunError E} {r : RunResult}
      → (run env m w).error ≡ some e
      → (run env m w).result ≡ some r
      → (before : List (Phase W E)) × (p : Phase W E) × (rest : List (Phase W E)) × (m.phases
          ≡ before ++ p ∷ rest)
        × (Perm (titles (groups r)) (phase_titles before)
            ⊎ Perm (titles (groups r)) (p.title ∷ phase_titles before))
  run-failure m w h k = elim (run-cases env m w) [
    | inl (e, _, nothing, _) ↦ cc
    | inr same ↦
        finish-failure m.phases (env.set_defaults w).1 _
          (phases_account m.dry_run 0 (length m.phases) m.phases _) (rw same at h) (rw same at k)
  ]
