-- ===== src/Retry/Agreement.antt =====
-- `Context` of pkg/retry/retry.go against `Times`.
use cargoship.Prelude.{
  ℕ, ◌+◌, ◌<◌, ◌≡◌, refl, Bool, false, Option, List, [], ◌∷◌, arith, length, inl, inr, Option-cases,
}
use cargoship.Retry.{Event, done, tick, after_call, context_loop, context, times_loop, times}

module _ {E S : Type 0} (is_abort : E → Bool) (f : S → Option E × S) where
  loops_agree :
      (limit i : ℕ) (e : E) (s : S) (es : List (Event S))
      → i + length es < limit
      → context_loop is_abort f e s es ≡ times_loop is_abort f limit i e s es
  unfolding context_loop times_loop after_call
  loops_agree limit i e s [] h = refl
  loops_agree limit i e s (done ∷ es) h = refl
  loops_agree limit i e s (tick env ∷ es) h = elim (Option-cases (f (env s)).0) [
    | inl p ↦ ground arith
    | inr (x, p) ↦ ground (arith, loops_agree limit (i + 1) x (f (env s)).1 es)
  ]

  -- With a limit above the rounds that the schedule allows, `Times` does what `Context` does on a
  -- live context: the limit is the only difference between the two.
  context-times :
      (limit : ℕ) (s : S) (es : List (Event S))
      → length es + 1 < limit
      → context is_abort f false s es ≡ times is_abort f limit s es
  unfolding context times after_call
  context-times limit s es h = elim (Option-cases (f s).0) [
    | inl p ↦ ground arith
    | inr (x, p) ↦ ground (arith, loops_agree limit 1 x (f s).1 es)
  ]
