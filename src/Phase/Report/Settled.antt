-- ===== src/Phase/Report/Settled.antt =====
-- What the answers of a `RunResult` of pkg/phase/05_manager.go say of its phases.
use mathlib.Core.Path.{subst}
use cargoship.Prelude.{
  String, ◌≡◌, ◌↔◌, refl, Bool, true, false, ◌&&◌, List, [], ◌∷◌, ◌++◌, All, any, arith, Bool-cases,
  inl, inr, if◌then◌else◌, sym,
}
use cargoship.Phase.Report.{
  PhaseResult, RunResult, says_changed, changed, outstanding, undeclared_in, undeclared, is_empty,
  complete,
}

-- A phase that said whether it changed anything, and one that said that it did not.
abbrev pub Declares : PhaseResult → Type 0
Declares p = p.declared ≡ true

abbrev pub DeclaresNone : PhaseResult → Type 0
DeclaresNone p = (p.declared ≡ true) × (p.changed ≡ false)

abbrev empty_of : List PhaseResult → Bool
empty_of ps = is_empty (undeclared_in ps)

is_empty-append : (xs ys : List String) → is_empty (xs ++ ys) ≡ (is_empty xs && is_empty ys)
is_empty-append [] ys = refl
is_empty-append (x ∷ xs) ys = refl

undeclared_in-Declares : (ps : List PhaseResult) → (empty_of ps ≡ true) ↔ All Declares ps
unfolding undeclared_in
undeclared_in-Declares [] = (λ h. tt, λ h. refl)
undeclared_in-Declares (p ∷ ps) = elim (Bool-cases p.declared) [
  | inl y ↦
      rw y (λ h. (refl, (undeclared_in-Declares ps).0 h), λ h. (undeclared_in-Declares ps).1 h.1)
  | inr n ↦ rw n (λ h. ground (arith, h), λ h. ground (arith, h.0))
]

complete-split :
    (r : RunResult) → complete r ≡ (empty_of r.ran && (empty_of r.planned && empty_of r.skipped))
unfolding complete undeclared
complete-split r = rw (is_empty-append, is_empty-append) refl

pub complete-Declares :
    (r : RunResult)
    → (complete r ≡ true) ↔ (All Declares r.ran × All Declares r.planned × All Declares r.skipped)
complete-Declares r =
    let ran = undeclared_in-Declares r.ran in
    let planned = undeclared_in-Declares r.planned in
    let skipped = undeclared_in-Declares r.skipped in
    let split = complete-split r in
    (
      λ h. (
        ran.0 (ground (arith, h, split)),
        planned.0 (ground (arith, h, split)),
        skipped.0 (ground (arith, h, split)),
      ),
      λ (a, b, c). ground (arith, split, ran.1 a, planned.1 b, skipped.1 c),
    )

All-quiet :
    (ps : List PhaseResult) → any says_changed ps ≡ false → All Declares ps → All DeclaresNone ps
unfolding says_changed
All-quiet [] h d = tt
All-quiet (p ∷ ps) h (d, ds) = ((d, ground (arith, h, d)), All-quiet ps (ground (arith, h)) ds)

quiet-All :
    (ps : List PhaseResult) → All DeclaresNone ps → (any says_changed ps ≡ false) × All Declares ps
unfolding says_changed
quiet-All [] h = (refl, tt)
quiet-All (p ∷ ps) ((d, c), h) = let (n, ds) = quiet-All ps h in (ground (arith, d, c, n), (d, ds))

none_planned :
    (ps : List PhaseResult) → any (λ p. p.declared) ps ≡ false → All Declares ps → ps ≡ []
none_planned [] h d = refl
none_planned (p ∷ ps) h (d, ds) = ground (arith, h, d)

-- What it takes for nothing to be left to say or to do.
abbrev pub Settled : Bool → RunResult → Type 0
Settled true r = (r.planned ≡ []) × All Declares r.ran × All Declares r.skipped
Settled false r = All DeclaresNone r.ran × All DeclaresNone r.skipped × All Declares r.planned

abbrev pub answer_of : Bool → RunResult → Bool
answer_of dry r = if dry then outstanding r else changed r

pub answer_of-Settled :
    (dry : Bool) (r : RunResult) → ((answer_of dry r ≡ false) × (complete r ≡ true)) ↔ Settled dry r
unfolding changed outstanding
answer_of-Settled true r = (
  λ (h, c). let (a, b, d) = (complete-Declares r).0 c in (none_planned r.planned h b, a, d),
  λ (e, a, d). (rw e refl, (complete-Declares r).1 (a, subst (All Declares) (sym e) tt, d)),
)
answer_of-Settled false r = (
  λ (h, c).
      let (a, b, d) = (complete-Declares r).0 c in
      (All-quiet r.ran (ground (arith, h)) a, All-quiet r.skipped (ground (arith, h)) d, b),
  λ (a, d, b).
      let (n, ran) = quiet-All r.ran a in
      let (m, skipped) = quiet-All r.skipped d in
      (ground (arith, n, m), (complete-Declares r).1 (ran, b, skipped)),
)
