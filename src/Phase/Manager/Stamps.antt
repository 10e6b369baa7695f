-- ===== src/Phase/Manager/Stamps.antt =====
-- Whose warnings the result of `Manager.Run` (pkg/phase/05_manager.go) holds.
use cargoship.Prelude.{
  String, ◌≡◌, refl, ap, ◌⊎◌, inl, inr, Bool, none, some, List, [], ◌∷◌, ◌++◌, map, map-append, All,
  All-append,
}
use cargoship.Phase.Report.{RunResult, Warning, titles}
use cargoship.Phase.Manager.{
  Phase, Env, Manager, TimedPhase, Progress, Step, phase_warnings, phase_result, collect_result,
  run,
}
use cargoship.Phase.Manager.Rounds.{Executed, Round}
use cargoship.Phase.Manager.Loop.{point, run_point}

-- `x` is in the list.
abbrev pub Listed : String → List String → Type 0
Listed x [] = ⊥
Listed x (y ∷ ys) = (x ≡ y) ⊎ Listed x ys

Listed-left : (x : String) (ys zs : List String) → Listed x ys → Listed x (ys ++ zs)
Listed-left x [] zs h = absurd h
Listed-left x (y ∷ ys) zs (inl e) = inl e
Listed-left x (y ∷ ys) zs (inr h) = inr (Listed-left x ys zs h)

Listed-end : (ys : List String) (x : String) → Listed x (ys ++ x ∷ [])
Listed-end [] x = inl refl
Listed-end (y ∷ ys) x = inr (Listed-end ys x)

abbrev run_titles : {W E : Type 0} → List (TimedPhase W E) → List String
run_titles ts = map (λ t. t.phase.title) ts

-- Each warning carries the title of a phase of the list.
abbrev pub Stamped : List String → List Warning → Type 0
Stamped ts = All (λ x. Listed x.phase ts)

Stamped-more : (ts us : List String) (xs : List Warning) → Stamped ts xs → Stamped (ts ++ us) xs
Stamped-more ts us [] h = tt
Stamped-more ts us (x ∷ xs) (h, hs) = (Listed-left x.phase ts us h, Stamped-more ts us xs hs)

Stamped-new :
    (ts : List String) (title : String) (xs : List Warning)
    → Stamped (ts ++ title ∷ []) (map {A = Warning} (λ x. record x { phase = title }) xs)
Stamped-new ts title [] = tt
Stamped-new ts title (x ∷ xs) = (Listed-end ts title, Stamped-new ts title xs)

module _ {W E : Type 0} where
  phase_warnings-Stamped :
      (ts : List String) (p : Phase W E) (w : W) → Stamped (ts ++ p.title ∷ []) (phase_warnings p w)
  unfolding phase_warnings
  phase_warnings-Stamped ts p w =
      elim p.warnings
        as (λ o. Stamped (ts ++ p.title ∷ []) (elim o [
          | none ↦ []
          | some ask ↦ map {A = Warning} (λ x. record x { phase = p.title }) (ask w)
        ])) [ none ↦ tt | some ask ↦ Stamped-new ts p.title (ask w) ]

  abbrev AllStamped : Progress W E → Type 0
  AllStamped g = Stamped (run_titles g.ran) g.warnings

  AllStamped-Executed :
      {p : Phase W E} (g g' : Progress W E) → Executed p g g' → AllStamped g → AllStamped g'
  AllStamped-Executed {p} g g' x h =
      rw (x.ran, x.warnings, map-append)
        (All-append _ g.warnings _ (Stamped-more (run_titles g.ran) (p.title ∷ []) g.warnings h)
          (phase_warnings-Stamped (run_titles g.ran) p x.left))

  Round-AllStamped :
      (dry : Bool) (p : Phase W E) (g : Progress W E) (s : Step W E)
      → Round p dry g s
      → AllStamped g
      → AllStamped (point s)
  Round-AllStamped dry p g s (Round.quit e g' x) h = rw (x.ran, x.warnings) h
  Round-AllStamped dry p g s (Round.planned g' _ _ x) h = rw (x.ran, x.warnings) h
  Round-AllStamped dry p g s (Round.skipped g' x) h = rw (x.ran, x.warnings) h
  Round-AllStamped dry p g s (Round.ran g' _ x) h = AllStamped-Executed g g' x h
  Round-AllStamped dry p g s (Round.broke e g' _ x) h = AllStamped-Executed g g' x h

module _ {W E : Type 0} (env : Env W E) where
  Stamped-result :
      (g : Progress W E)
      → AllStamped g
      → Stamped (titles (collect_result env g).ran) (collect_result env g).warnings
  unfolding titles phase_result collect_result
  Stamped-result g h = rw (titles_of_ran g.world g.ran) h
    where
      titles_of_ran :
          (w : W) (ts : List (TimedPhase W E))
          → titles (map (λ t. phase_result env w t.phase t.duration) ts) ≡ run_titles ts
      titles_of_ran w [] = refl
      titles_of_ran w (t ∷ ts) = ap (λ l. t.phase.title ∷ l) (titles_of_ran w ts)

  -- Every warning of a result carries the title of a phase that was called.
  run-Stamped :
      (m : Manager W E) (w : W) {r : RunResult}
      → (run env m w).result ≡ some r
      → Stamped (titles r.ran) r.warnings
  run-Stamped m w h =
      let (g, x, e) = run_point env AllStamped m (Round-AllStamped m.dry_run) w tt h in
      rw (← e) (Stamped-result g x)
