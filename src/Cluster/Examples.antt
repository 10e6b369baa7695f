-- ===== src/Cluster/Examples.antt =====
-- The theorems on the host lists at inputs that meet their hypotheses, and tests.
use mathlib.Core.List.{Perm}
use mathlib.Core.List.Perm
use cargoship.Prelude.{String, ◌≡◌, refl, Option, none, List, [], ◌∷◌, arith}
use cargoship.Cluster.Hosts.{Host}
use cargoship.Cluster.Sweep.{finished, batched_parallel_each}
use cargoship.Cluster.Sweep.Totality.{after, batched_parallel_each-perm}

abbrev hosts : List Host
hosts =
    record { name = "a"; role = "controller"; profile = "" }
    ∷ record { name = "b"; role = "worker"; profile = "gpu" }
    ∷ record { name = "c"; role = "worker"; profile = "" }
    ∷ []

-- A filter that notes the hosts it is called on, on a context that is not cancelled.
abbrev live : List Host → Option String
live w = none

abbrev noting : Host → List Host → Option String × List Host
noting h seen = (none, h ∷ seen)

batched_parallel_each-perm_example :
    (visited : List Host) × (batched_parallel_each live (λ w hs. hs) 4 2 (noting ∷ []) hosts []
      ≡ finished none (after live noting visited []))
    × Perm visited hosts
batched_parallel_each-perm_example =
    batched_parallel_each-perm live noting (λ w hs. hs) (λ w. refl) (λ h w. refl)
      (λ w hs. Perm.refl hs) 4 2 hosts [] (omega arith) (omega arith)
