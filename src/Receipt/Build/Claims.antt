-- ===== src/Receipt/Build/Claims.antt =====
-- What the outcome of internal/receipt/build.go that says that nothing changed rests on.
use cargoship.Prelude.{◌≡◌, ◌↔◌, refl, inl, inr, true, false, arith, Bool-cases}
use cargoship.Phase.Report.{RunResult, unknown, whole, signal}
use cargoship.Phase.Report.Settled.{Settled, answer_of, answer_of-Settled}
use cargoship.Receipt.Build.{Options, first_outcome, outcome_of}

observed_lem :
    (r : RunResult) (opts : Options)
    → opts.observed ≡ true
    → ((outcome_of r opts).changed ≡ answer_of opts.dry_run r)
      × ((outcome_of r opts).changed_signal ≡ signal r)
unfolding outcome_of first_outcome
observed_lem r opts o = elim (Bool-cases opts.dry_run) [
  | inl d ↦ rw (o, d) (refl, refl)
  | inr d ↦ rw (o, d) (refl, refl)
]

unobserved_lem :
    (r : RunResult) (opts : Options)
    → opts.observed ≡ false
    → (outcome_of r opts).changed_signal ≡ unknown
unfolding outcome_of first_outcome
unobserved_lem r opts o = elim (Bool-cases opts.dry_run) [
  | inl d ↦ rw (o, d) refl
  | inr d ↦ rw (o, d) refl
]

-- A receipt says that nothing changed with the signal `complete` exactly if the run reached its
-- phases and all is settled: in a dry run, no phase was planned and each that ran or was skipped
-- can say whether it changes anything; in another run, each phase that ran or was skipped said that
-- it changed nothing, and each that was planned can say so.
pub outcome_of-Settled :
    (r : RunResult) (opts : Options)
    → (((outcome_of r opts).changed ≡ false) × ((outcome_of r opts).changed_signal ≡ whole))
      ↔ ((opts.observed ≡ true) × Settled opts.dry_run r)
unfolding signal
outcome_of-Settled r opts = elim (Bool-cases opts.observed) [
  | inl o ↦
      let (c, s) = observed_lem r opts o in
      let settled = answer_of-Settled opts.dry_run r in
      (
        λ (h, k). (o, settled.0 (ground (arith, h, c), ground (arith, k, s))),
        λ (o', p). let (h, k) = settled.1 p in (ground (arith, h, c), ground (arith, k, s)),
      )
  | inr o ↦ (
    λ (h, k). absurd (ground (arith, k, unobserved_lem r opts o)),
    λ (o', p). absurd (ground (arith, o, o')),
  )
]
