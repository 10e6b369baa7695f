-- ===== src/Cluster/Sweep/Totality.antt =====
-- `BatchedParallelEach` of api/colonel-byte.dev/v1alpha1/cluster/hosts.go ends, and visits each host.
use mathlib.Core.List.{Perm}
use mathlib.Core.List.Perm
use cargoship.Prelude.{
  ℕ, zero, suc, ◌<◌, ◌≡◌, refl, inl, inr, Option, none, some, List, [], ◌∷◌, ◌++◌, append-nil,
  arith, take, drop, length, length-drop, take-append-drop, Option-cases,
}
use cargoship.Cluster.Hosts.{Host}
use cargoship.Cluster.Sweep.{
  SweepError, from_context, Line, finished, Filter, visit, round, rounds, combined, parallel_each,
  batched_parallel_each,
}

module _ {E W : Type 0} (ctx_err : W → Option E) (order : W → List Host → List Host) where
  -- With at least one host in a batch, as many rounds as there are hosts and one more are enough for
  -- the loop to end, with an error or without.
  batched_parallel_each_ends :
      (fuel size : ℕ) (fs : List (Filter ctx_err)) (hs : List Host) (w : W)
      → 0 < size
      → length hs < fuel
      → (r : Option (SweepError E)) × (w' : W) × (batched_parallel_each ctx_err order fuel size fs
            hs w
          ≡ finished r w')
  unfolding batched_parallel_each
  batched_parallel_each_ends zero size fs hs w p h = absurd (omega arith)
  batched_parallel_each_ends (suc fuel) size fs [] w p h = (none, w, refl)
  batched_parallel_each_ends (suc fuel) size fs (x ∷ hs) w p h = elim (Option-cases (ctx_err w)) [
    | inr (e, n) ↦ (some (from_context e), w, rw (n, batched_parallel_each))
    | inl n ↦ elim (Option-cases (parallel_each ctx_err order fs (take size (x ∷ hs)) w).0) [
      | inr (e, k) ↦ (
        some e,
        (parallel_each ctx_err order fs (take size (x ∷ hs)) w).1,
        rw (n, k, batched_parallel_each),
      )
      | inl k ↦
          let (r, w', same) =
            batched_parallel_each_ends fuel size fs (drop size (x ∷ hs))
              (parallel_each ctx_err order fs (take size (x ∷ hs)) w).1 p
              (omega (arith, length-drop size (x ∷ hs))) in
          (r, w', rw (n, k, batched_parallel_each) same)
    ]
  ]

-- The filter `f` called on the hosts, one after the other, without a look at its answers.
abbrev pub after : {E W : Type 0} (ctx_err : W → Option E) → Filter ctx_err → List Host → W → W
after ctx_err f [] w = w
after ctx_err f (h ∷ hs) w = after ctx_err f hs (f h w).1

module _ {E W : Type 0} (ctx_err : W → Option E) (f : Filter ctx_err)
    (order : W → List Host → List Host) (live : (w : W) → ctx_err w ≡ none)
    (succeeds : (h : Host) (w : W) → (f h w).0 ≡ none) where
  after-append :
      (hs is : List Host) (w : W)
      → after ctx_err f (hs ++ is) w ≡ after ctx_err f is (after ctx_err f hs w)
  after-append [] is w = refl
  after-append (h ∷ hs) is w = after-append hs is (f h w).1

  visit_lem : (h : Host) (w : W) → visit ctx_err f h w ≡ ([], (f h w).1)
  unfolding visit
  visit_lem h w = rw (live w, succeeds h w, visit) refl

  round-after :
      (hs : List Host) (ls : List (Line E)) (w : W)
      → round ctx_err f hs ls w ≡ (ls, after ctx_err f hs w)
  unfolding round
  round-after [] ls w = refl
  round-after (h ∷ hs) ls w = rw (visit_lem h w, append-nil) (round-after hs ls (f h w).1)

  parallel_each-after :
      (hs : List Host) (w : W)
      → parallel_each ctx_err order (f ∷ []) hs w ≡ (none, after ctx_err f (order w hs) w)
  unfolding parallel_each rounds combined
  parallel_each-after hs w = rw (round-after (order w hs) [] w) refl

  -- Whatever a filter does to the world, if it never fails and the context is not cancelled, the
  -- batches end without an error, and the world is then the one that the calls of the filter on
  -- some order of all hosts make of it, each host called on exactly once, whatever the order of the
  -- goroutines; at least one host in a batch and more fuel than hosts are needed.
  pub batched_parallel_each-perm :
      (permutes : (w : W) (hs : List Host) → Perm (order w hs) hs) (fuel size : ℕ) (hs : List Host)
      (w : W)
      → 0 < size
      → length hs < fuel
      → (visited : List Host) × (batched_parallel_each ctx_err order fuel size (f ∷ []) hs w
          ≡ finished none (after ctx_err f visited w))
        × Perm visited hs
  unfolding batched_parallel_each
  batched_parallel_each-perm permutes zero size hs w p h = absurd (omega arith)
  batched_parallel_each-perm permutes (suc fuel) size [] w p h = ([], refl, Perm.refl [])
  batched_parallel_each-perm permutes (suc fuel) size (x ∷ hs) w p h =
      let batch = take size (x ∷ hs) in
      let rest = drop size (x ∷ hs) in
      let (visited, same, perm) =
        batched_parallel_each-perm permutes fuel size rest (after ctx_err f (order w batch) w) p
          (omega (arith, length-drop size (x ∷ hs))) in
      (
        order w batch ++ visited,
        rw
            (
              live w,
              parallel_each-after batch w,
              after-append (order w batch) visited w,
              batched_parallel_each,
            )
            same,
        Perm.trans (Perm.append_right visited (permutes w batch)) (
            Perm.trans (Perm.append_left batch perm)
              (rw (take-append-drop size (x ∷ hs)) (Perm.refl (x ∷ hs)))),
      )
