-- ===== src/Cluster/Sweep.antt =====
-- The sweeps of api/colonel-byte.dev/v1alpha1/cluster/hosts.go: `Each`, `ParallelEach` and
-- `BatchedParallelEach`. The goroutines of one round of `ParallelEach` run in an order that `order`
-- gives, each as one step on the world `W`; `ctx_err` is `ctx.Err()`.
pub mod Totality
use cargoship.Prelude.{ℕ, zero, suc, Option, none, some, List, [], ◌∷◌, ◌++◌, take, drop, length}
use cargoship.Cluster.Hosts.{Host}

-- One line of the combined error.
pub data Line (E : Type 0) : Type 0 where
  context_line : E → Line E
  host_line : Host → E → Line E

pub data SweepError (E : Type 0) : Type 0 where
  from_context : E → SweepError E
  from_filter : E → SweepError E
  failed_on : ℕ → List (Line E) → SweepError E

-- `spinning` is a loop that the fuel did not end.
pub data Swept (E W : Type 0) : Type 0 where
  finished : Option (SweepError E) → W → Swept E W
  spinning : W → Swept E W

module _ {E W : Type 0} (ctx_err : W → Option E) where
  abbrev pub Filter : Type 0
  Filter = Host → W → Option E × W

  -- The inner loop of `Each`, over the hosts.
  each_host : Filter → List Host → W → Option (SweepError E) × W
  each_host f [] w = (none, w)
  each_host f (h ∷ hs) w = elim (ctx_err w) [
    | some e ↦ (some (from_context e), w)
    | none ↦
        let (r, w') = f h w in
        elim r [ some e ↦ (some (from_filter e), w') | none ↦ each_host f hs w' ]
  ]

  pub each : List Filter → List Host → W → Option (SweepError E) × W
  unfolding each_host
  each [] hs w = (none, w)
  each (f ∷ fs) hs w =
      let (r, w') = each_host f hs w in elim r [ some e ↦ (some e, w') | none ↦ each fs hs w' ]

  -- One goroutine: its line of the error, or none.
  visit : Filter → Host → W → List (Line E) × W
  visit f h w = elim (ctx_err w) [
    | some e ↦ (context_line e ∷ [], w)
    | none ↦ let (r, w') = f h w in elim r [ some e ↦ (host_line h e ∷ [], w') | none ↦ ([], w') ]
  ]

  round : Filter → List Host → List (Line E) → W → List (Line E) × W
  unfolding visit
  round f [] errors w = (errors, w)
  round f (h ∷ hs) errors w = let (l, w') = visit f h w in round f hs (errors ++ l) w'

  module _ (order : W → List Host → List Host) where
    rounds : List Filter → List Host → List (Line E) → W → List (Line E) × W
    unfolding round
    rounds [] hs errors w = (errors, w)
    rounds (f ∷ fs) hs errors w =
        let (errors', w') = round f (order w hs) errors w in rounds fs hs errors' w'

    combined : List (Line E) → Option (SweepError E)
    combined [] = none
    combined (l ∷ ls) = some (failed_on (length (l ∷ ls)) (l ∷ ls))

    pub parallel_each : List Filter → List Host → W → Option (SweepError E) × W
    unfolding rounds combined
    parallel_each fs hs w = let (errors, w') = rounds fs hs [] w in (combined errors, w')

    after_batch : (W → Swept E W) → Option (SweepError E) × W → Swept E W
    after_batch go_on (some e, w) = finished (some e) w
    after_batch go_on (none, w) = go_on w

    -- The `for` loop, over the hosts that are left; each round takes `size` of them.
    pub batched_parallel_each : ℕ → ℕ → List Filter → List Host → W → Swept E W
    unfolding after_batch
    batched_parallel_each zero size fs hs w = spinning w
    batched_parallel_each (suc fuel) size fs [] w = finished none w
    batched_parallel_each (suc fuel) size fs (h ∷ hs) w = elim (ctx_err w) [
      | some e ↦ finished (some (from_context e)) w
      | none ↦
          after_batch (λ w'. batched_parallel_each fuel size fs (drop size (h ∷ hs)) w')
            (parallel_each fs (take size (h ∷ hs)) w)
    ]
