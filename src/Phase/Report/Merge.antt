-- ===== src/Phase/Report/Merge.antt =====
-- What merging results (`RunResult.merge` and `ResultSink` of pkg/phase/05_manager.go) keeps.
use mathlib.Core.List.{Perm, perm_append_comm}
use mathlib.Core.List.Perm
use cargoship.Prelude.{◌≡◌, refl, Bool, true, ◌||◌, List, [], ◌∷◌, ◌++◌, append_assoc, arith, any}
use cargoship.Phase.Report.{
  PhaseResult, RunResult, says_changed, changed, outstanding, undeclared_in, undeclared, merge,
  ResultSink, new_sink, publish,
}

any-append :
    {A : Type 0} (p : A → Bool) (xs ys : List A) → any p (xs ++ ys) ≡ (any p xs || any p ys)
any-append p [] ys = refl
any-append p (x ∷ xs) ys = ground (arith, any-append p xs ys)

undeclared_in-append :
    (ps qs : List PhaseResult) → undeclared_in (ps ++ qs) ≡ undeclared_in ps ++ undeclared_in qs
unfolding undeclared_in
undeclared_in-append [] qs = refl
undeclared_in-append (p ∷ ps) qs = ground (arith, undeclared_in-append ps qs)

perm_swap : {A : Type 0} (q r s : List A) → Perm (q ++ (r ++ s)) (r ++ (q ++ s))
perm_swap q r s = rw (← append_assoc, ← append_assoc) (Perm.append_right s (perm_append_comm q r))

perm_cross : {A : Type 0} (p q r s : List A) → Perm ((p ++ q) ++ (r ++ s)) ((p ++ r) ++ (q ++ s))
perm_cross p q r s =
    rw (append_assoc, append_assoc p r (q ++ s)) (Perm.append_left p (perm_swap q r s))

-- Three lists, each joined with another, hold what the two triples hold.
perm_triple :
    {A : Type 0} (a b c x y z : List A)
    → Perm ((a ++ x) ++ ((b ++ y) ++ (c ++ z))) ((a ++ (b ++ c)) ++ (x ++ (y ++ z)))
perm_triple a b c x y z =
    Perm.trans (Perm.append_left (a ++ x) (perm_cross b y c z)) (perm_cross a x (b ++ c) (y ++ z))

-- A merged result has changed something, or has something outstanding, exactly if one of the two
-- results does, and it names the undeclared phases of both.
merge_answers :
    (r s : RunResult)
    → (changed (merge r s) ≡ (changed r || changed s))
      × (outstanding (merge r s) ≡ (outstanding r || outstanding s))
      × Perm (undeclared (merge r s)) (undeclared r ++ undeclared s)
unfolding changed outstanding undeclared merge
merge_answers r s = (
  ground (arith, any-append says_changed r.ran s.ran, any-append says_changed r.skipped s.skipped),
  any-append _ r.planned s.planned,
  rw (undeclared_in-append, undeclared_in-append, undeclared_in-append)
      (perm_triple (undeclared_in r.ran) (undeclared_in r.planned) (undeclared_in r.skipped) _ _ _),
)

warnings-merge : (r s : RunResult) → (merge r s).warnings ≡ r.warnings
unfolding merge
warnings-merge r s = refl

-- The runs that happen on one context, in order.
abbrev pub publish_all : ResultSink → List RunResult → ResultSink
publish_all s [] = s
publish_all s (r ∷ rs) = publish_all (publish s r) rs

sink_step :
    (s : ResultSink) (rs : List RunResult)
    → ((publish_all s rs).observed ≡ (s.observed || any (λ r. true) rs))
      × (changed (publish_all s rs).result ≡ (changed s.result || any changed rs))
      × ((publish_all s rs).result.warnings ≡ s.result.warnings)
unfolding publish
sink_step s [] = ground arith
sink_step s (r ∷ rs) =
    ground
      (arith, sink_step (publish s r) rs, (merge_answers s.result r).0, warnings-merge s.result r)

-- A sink has observed something exactly if a run reached its phases, and says that something changed
-- exactly if the result of some run does; whatever warnings the runs report, it holds none.
pub sink_answers :
    (rs : List RunResult)
    → ((publish_all new_sink rs).observed ≡ any (λ r. true) rs)
      × (changed (publish_all new_sink rs).result ≡ any changed rs)
      × ((publish_all new_sink rs).result.warnings ≡ [])
unfolding changed
sink_answers rs = sink_step new_sink rs
