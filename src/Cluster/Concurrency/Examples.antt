-- ===== src/Cluster/Concurrency/Examples.antt =====
-- The theorem on `ParseConcurrency` of api/colonel-byte.dev/v1alpha1/cluster/spec.go at a concrete
-- input, and tests.
use cargoship.Prelude.{ℕ, ◌≤◌, ◌≡◌, refl, Bool, some, codes}
use cargoship.Values.Text.{atoi}
use cargoship.Cluster.Concurrency.{
  batch, refused, percentage_out_of_range, trim_space, cut_percent, IsShare, parse_concurrency,
  resolve_concurrency, parse_concurrency-IsShare,
}

quarter : parse_concurrency (codes " 25% ") 10 ≡ batch 3
unfolding parse_concurrency trim_space cut_percent atoi
quarter = refl

too_much : parse_concurrency (codes "101%") 10 ≡ refused percentage_out_of_range
unfolding parse_concurrency trim_space cut_percent atoi
too_much = refl

falls_back : resolve_concurrency (codes " ") 10 (codes "1") ≡ batch 1
unfolding resolve_concurrency parse_concurrency trim_space cut_percent atoi
falls_back = refl

suffixed : cut_percent (trim_space (codes " 25% ")) ≡ some (codes "25")
unfolding trim_space cut_percent
suffixed = refl

parse_concurrency-IsShare_example :
    (minus : Bool) × (v : ℕ) × (atoi (trim_space (codes "25")) ≡ some (minus, v))
    × (v ≤ 100)
    × IsShare 10 v 3
parse_concurrency-IsShare_example =
    parse_concurrency-IsShare (codes " 25% ") (codes "25") 10 3 suffixed quarter
