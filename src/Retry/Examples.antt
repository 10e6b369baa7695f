-- ===== src/Retry/Examples.antt =====
-- The theorems on pkg/retry/retry.go at inputs that meet their hypotheses, and tests.
use cargoship.Prelude.{
  ℕ, zero, suc, max, ◌≡◌, refl, Bool, false, Option, none, some, List, [], ◌∷◌, arith, ◌==◌,
}
use cargoship.Retry.{Event, done, tick, joined, exceeded, returned, context, times}
use cargoship.Retry.Bounds.{counted, lifted, times_exhausts}

-- Error 0 is the abort; a call fails with error 7, or succeeds from state 2 on.
abbrev aborts : ℕ → Bool
aborts e = e == 0

abbrev failing : ℕ → Option ℕ × ℕ
failing s = (some 7, suc s)

abbrev third_time : ℕ → Option ℕ × ℕ
third_time zero = (some 7, 1)
third_time (suc zero) = (some 7, 2)
third_time (suc (suc n)) = (none, suc (suc (suc n)))

abbrev rounds : List (Event ℕ)
rounds = tick (λ s. s) ∷ tick (λ s. s) ∷ tick (λ s. s) ∷ []

third_time_lucky : times aborts third_time 5 0 rounds ≡ returned none 3
unfolding times
third_time_lucky = refl

cancelled_on_the_way :
    context aborts failing false 0 (tick (λ s. s) ∷ done ∷ []) ≡ returned (some (joined 7)) 2
unfolding context
cancelled_on_the_way = refl

-- A limit of one is two calls.
limit_one : times aborts failing 1 0 rounds ≡ returned (some (exceeded 1 7)) 2
unfolding times
limit_one = refl

times_exhausts_example :
    (t : ℕ × ℕ) × (e : ℕ) × (times aborts (counted failing) 1 (0, 0) (lifted rounds)
      ≡ returned (some (exceeded 1 e)) t)
    × (t.1 ≡ max 2 1)
times_exhausts_example =
    times_exhausts aborts failing (λ s. (7, refl, refl)) 1 0 rounds (omega arith) (omega arith)
