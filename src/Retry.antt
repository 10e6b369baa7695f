-- ===== src/Retry.antt =====
-- pkg/retry/retry.go: the retry wrappers. A call of the wrapped function is a step on a state `S`
-- (the world that it changes) with an error or none. What the `select` of the loop receives is a
-- list of events, and an event of the ticker also says what the rest of the world did meanwhile.
pub mod Bounds
pub mod Agreement
mod Examples
use cargoship.Prelude.{ℕ, ◌+◌, Bool, true, false, Option, none, some, List, [], ◌∷◌, leb}

-- `ctx.Done()`, or `ticker.C` after the environment moved.
pub data Event (S : Type 0) : Type 0 where
  done : Event S
  tick : (S → S) → Event S

-- The error that a wrapper returns: `ctx.Err()`, that joined with the last error, the function's own
-- error, or the limit.
pub data Failure (E : Type 0) : Type 0 where
  cancelled : Failure E
  joined : E → Failure E
  own : E → Failure E
  exceeded : ℕ → E → Failure E

-- `waiting` is a loop that still blocks in `select` when the given events are used up.
pub data Outcome (E S : Type 0) : Type 0 where
  returned : Option (Failure E) → S → Outcome E S
  waiting : S → Outcome E S

module _ {E S : Type 0} (is_abort : E → Bool) where
  -- The tests behind each call: success and `ErrAbort` return, any other error goes on.
  after_call : (E → Outcome E S) → Option E → S → Outcome E S
  after_call go_on none s = returned none s
  after_call go_on (some e) s = elim (is_abort e) [
    | true ↦ returned (some (own e)) s
    | false ↦ go_on e
  ]

module _ {E S : Type 0} (is_abort : E → Bool) (f : S → Option E × S) where
  -- The `for` loop of `Context`, behind a failed call whose error is `last`.
  context_loop : E → S → List (Event S) → Outcome E S
  context_loop last s [] = waiting s
  context_loop last s (done ∷ es) = returned (some (joined last)) s
  context_loop last s (tick env ∷ es) =
      let (r, s') = f (env s) in after_call is_abort (λ e. context_loop e s' es) r s'

  -- `Context`; the flag says whether the context is done at the call.
  pub context : Bool → S → List (Event S) → Outcome E S
  unfolding context_loop after_call
  context true s es = returned (some cancelled) s
  context false s es = let (r, s') = f s in after_call is_abort (λ e. context_loop e s' es) r s'

  -- The `for` loop of `Times`; `i` is the source's counter.
  times_loop : ℕ → ℕ → E → S → List (Event S) → Outcome E S
  times_loop limit i last s [] = waiting s
  times_loop limit i last s (done ∷ es) = returned (some (joined last)) s
  times_loop limit i last s (tick env ∷ es) =
      let (r, s') = f (env s) in
      after_call is_abort
        (λ e. elim (leb limit (i + 1)) [
          | true ↦ returned (some (exceeded limit e)) s'
          | false ↦ times_loop limit (i + 1) e s' es
        ])
        r s'

  unfoldable pub times : ℕ → S → List (Event S) → Outcome E S
  unfolding times_loop after_call
  times limit s es = let (r, s') = f s in after_call is_abort (λ e. times_loop limit 1 e s' es) r s'
