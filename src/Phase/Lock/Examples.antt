-- ===== src/Phase/Lock/Examples.antt =====
-- The theorems on pkg/phase/91_lock.go at inputs that meet their hypotheses, and tests.
use cargoship.Prelude.{◌≤◌, ◌≡◌, ◌↔◌, refl, eq_iff, none, some, List, [], ◌∷◌, arith}
use cargoship.Retry.{Event, tick, returned}
use cargoship.Phase.Lock.{LockFile, World, LockError, try_lock, start_lock}
use cargoship.Phase.Lock.Safety.{try_lock-refuses}
use cargoship.Phase.Lock.Patience.{pause, start_lock_succeeds}
use cargoship.Phase.Lock.Takeover.{host_at, first_answer, second_answer, IsStale, try_lock-shared}

abbrev foreign : LockFile
foreign = record { content = "them"; mod_time = 90 }

abbrev own : LockFile
own = record { content = "us"; mod_time = 100 }

-- The other instance lets go before the second try.
abbrev released : List (Event World)
released = tick (λ w. record w { file = none }) ∷ []

try_lock-refuses_example :
    (e : LockError) × (try_lock "us" (host_at 100 (some foreign))
      ≡ (some e, host_at 100 (some foreign)))
try_lock-refuses_example =
    try_lock-refuses "us" (host_at 100 (some foreign)) foreign refl
      (ground (arith, eq_iff "them" "us")) (omega arith)

-- A lock file that was last touched 110 seconds ago.
try_lock-shared_example :
    ((first_answer "us" (host_at 200 (some foreign)) ≡ none)
      × (second_answer "us" "you" (host_at 200 (some foreign)) ≡ none))
    ↔ IsStale 200 (some foreign)
try_lock-shared_example =
    try_lock-shared "us" "you" 200 (some foreign) (ground (arith, eq_iff "us" "you"))

-- A lock that was left behind 10 seconds ago.
start_lock_succeeds_example :
    (s : World) × (start_lock "us" (host_at 100 (some foreign)) (pause 15 ∷ pause 15 ∷ [])
      ≡ returned none s)
    × (s.now ≤ 130)
start_lock_succeeds_example =
    start_lock_succeeds "us" 100 (some foreign) 15 15 [] (omega arith) (omega arith) in_the_past
  where
    in_the_past : (f : LockFile) → some foreign ≡ some f → f.mod_time ≤ 100
    in_the_past f h = ground arith
