-- ===== src/Retry/Bounds.antt =====
-- How often `Times` of pkg/retry/retry.go calls the function, and what each way out says of it.
use cargoship.Prelude.{
  ℕ, suc, ◌+◌, ◌-◌, ◌≤◌, max, ◌≡◌, refl, inl, inr, Bool, true, false, Option, none, some, List, [],
  ◌∷◌, arith, length, leb, Bool-cases, Option-cases,
}
use cargoship.Retry.{
  Event, done, tick, cancelled, joined, own, exceeded, Outcome, returned, waiting, after_call,
  times_loop, times,
}

-- The world beside the number of calls that were made.
abbrev pub counted : {E S : Type 0} → (S → Option E × S) → S × ℕ → Option E × (S × ℕ)
counted f (s, n) = let (r, s') = f s in (r, (s', suc n))

abbrev pub final : {E T : Type 0} → Outcome E T → T
final (returned r t) = t
final (waiting t) = t

-- The environment does not call the function.
abbrev pub lifted : {S : Type 0} → List (Event S) → List (Event (S × ℕ))
lifted [] = []
lifted (done ∷ es) = done ∷ lifted es
lifted (tick env ∷ es) = tick (λ t. (env t.0, t.1)) ∷ lifted es

-- No event of the schedule cancels the context.
abbrev pub AllTicks : {S : Type 0} → List (Event S) → Type 0
AllTicks [] = Unit
AllTicks (done ∷ es) = ⊥
AllTicks (tick env ∷ es) = AllTicks es

-- What a result says: `t` is the state that the last call started in, and the state of the result
-- is the one that this call left.
abbrev pub Explained : {E S : Type 0} → (E → Bool) → (S → Option E × S) → ℕ → Outcome E S → Type 0
Explained {S = S} is_abort f limit (returned none s) = (t : S) × ((f t).0 ≡ none) × ((f t).1 ≡ s)
Explained is_abort f limit (returned (some cancelled) s) = ⊥
Explained {S = S} is_abort f limit (returned (some (joined e)) s) =
    (t : S) × ((f t).0 ≡ some e) × ((f t).1 ≡ s) × (is_abort e ≡ false)
Explained {S = S} is_abort f limit (returned (some (own e)) s) =
    (t : S) × ((f t).0 ≡ some e) × ((f t).1 ≡ s) × (is_abort e ≡ true)
Explained {S = S} is_abort f limit (returned (some (exceeded n e)) s) =
    (t : S) × ((f t).0 ≡ some e) × ((f t).1 ≡ s) × (is_abort e ≡ false) × (n ≡ limit)
Explained {E = E} {S = S} is_abort f limit (waiting s) =
    (t : S) × (e : E) × ((f t).0 ≡ some e) × ((f t).1 ≡ s) × (is_abort e ≡ false)

module _ {E S : Type 0} (is_abort : E → Bool) (f : S → Option E × S) where
  calls_loop :
      (limit i : ℕ) (e : E) (s : S) (n : ℕ) (es : List (Event S))
      → (final (times_loop is_abort (counted f) limit i e (s, n) (lifted es))).1
        ≤ n + max 1 (limit - i)
  unfolding times_loop after_call
  calls_loop limit i e s n [] = omega arith
  calls_loop limit i e s n (done ∷ es) = omega arith
  calls_loop limit i e s n (tick env ∷ es) = elim (Option-cases (f (env s)).0) [
    | inl p ↦ ground arith
    | inr (x, p) ↦ ground (arith, calls_loop limit (i + 1) x (f (env s)).1 (suc n) es)
  ]

  -- Whatever the function and the schedule do, it is called at most `limit` times, or twice where
  -- the limit is below two.
  times_calls :
      (limit : ℕ) (s : S) (es : List (Event S))
      → (final (times is_abort (counted f) limit (s, 0) (lifted es))).1 ≤ max 2 limit
  unfolding times
  times_calls limit s es = elim (Option-cases (f s).0) [
    | inl p ↦ ground arith
    | inr (x, p) ↦ ground (arith, calls_loop limit 1 x (f s).1 1 es)
  ]

  module _ (fails : (s : S) → (e : E) × ((f s).0 ≡ some e) × (is_abort e ≡ false)) where
    exhausts_loop :
        (limit i : ℕ) (e : E) (s : S) (n : ℕ) (es : List (Event S))
        → AllTicks es
        → max 1 (limit - i) ≤ length es
        → (t : S × ℕ) × (x : E) × (times_loop is_abort (counted f) limit i e (s, n) (lifted es)
            ≡ returned (some (exceeded limit x)) t)
          × (t.1 ≡ n + max 1 (limit - i))
    unfolding times_loop after_call
    exhausts_loop limit i e s n [] a h = absurd (omega arith)
    exhausts_loop limit i e s n (done ∷ es) a h = absurd a
    exhausts_loop limit i e s n (tick env ∷ es) a h =
        let (x, p, a') = fails (env s) in
        elim (Bool-cases (leb limit (i + 1))) [
          | inl l ↦ (((f (env s)).1, suc n), x, rw (p, a', l, after_call), ground arith)
          | inr l ↦
              let (t, y, q, c) =
                exhausts_loop limit (i + 1) x (f (env s)).1 (suc n) es a (ground arith) in
              (t, y, rw (p, a', l, after_call) q, ground arith)
        ]

  Explained-call :
      (limit : ℕ) (go_on : E → Outcome E S) (t : S) (r : Option E) (s : S)
      → (f t).0 ≡ r
      → (f t).1 ≡ s
      → ((e : E) → r ≡ some e → is_abort e ≡ false → Explained is_abort f limit (go_on e))
      → Explained is_abort f limit (after_call is_abort go_on r s)
  unfolding after_call
  Explained-call limit go_on t none s p q h = (t, p, q)
  Explained-call limit go_on t (some e) s p q h = elim (Bool-cases (is_abort e)) [
    | inl a ↦ rw (a, Explained) (t, p, q, a)
    | inr a ↦ rw (a, Explained) (h e refl a)
  ]

  Explained-loop :
      (limit i : ℕ) (e : E) (t s : S) (es : List (Event S))
      → (f t).0 ≡ some e
      → (f t).1 ≡ s
      → is_abort e ≡ false
      → Explained is_abort f limit (times_loop is_abort f limit i e s es)
  unfolding times_loop
  Explained-loop limit i e t s [] p q a = (t, e, p, q, a)
  Explained-loop limit i e t s (done ∷ es) p q a = (t, p, q, a)
  Explained-loop limit i e t s (tick env ∷ es) p q a =
      Explained-call limit _ (env s) (f (env s)).0 (f (env s)).1 refl refl λ x px ax.
        elim (Bool-cases (leb limit (i + 1))) [
          | inl l ↦ rw l (env s, px, refl, ax, refl)
          | inr l ↦ rw l (Explained-loop limit (i + 1) x (env s) (f (env s)).1 es px refl ax)
        ]

  -- `Times` returns nil only behind a call that succeeded, an error that wraps `ErrAbort` only if
  -- the last call gave it, and the limit or the cancelled context only with the error of the last
  -- call; it is never cancelled before the first call.
  pub times-Explained :
      (limit : ℕ) (s : S) (es : List (Event S))
      → Explained is_abort f limit (times is_abort f limit s es)
  unfolding times
  times-Explained limit s es =
      Explained-call limit _ s (f s).0 (f s).1 refl refl
        λ x px ax. Explained-loop limit 1 x s (f s).1 es px refl ax

-- A function that always fails, and never with `ErrAbort`, under a context that is not cancelled
-- and with enough rounds: `Times` gives up with the limit error after exactly `limit` calls, and
-- after two where the limit is below two.
pub times_exhausts :
    {E S : Type 0} (is_abort : E → Bool) (f : S → Option E × S)
    → ((s : S) → (e : E) × ((f s).0 ≡ some e) × (is_abort e ≡ false))
    → (limit : ℕ) (s : S) (es : List (Event S)) → AllTicks es
    → max 2 limit ≤ length es + 1
    → (t : S × ℕ) × (e : E) × (times is_abort (counted f) limit (s, 0) (lifted es)
        ≡ returned (some (exceeded limit e)) t)
      × (t.1 ≡ max 2 limit)
unfolding times
times_exhausts is_abort f fails limit s es a h =
    let (x, p, a') = fails s in
    let (t, y, q, c) = exhausts_loop is_abort f fails limit 1 x (f s).1 1 es a (omega arith) in
    (t, y, rw (p, a', after_call) q, omega arith)
