-- ===== src/Phase/Skew/Examples.antt =====
-- The theorem on `VersionSkewTooGreat` of pkg/phase/00_generic_phase.go at a concrete parser, for
-- versions of the form `v1.2` with digits alone.
use cargoship.Prelude.{
  ℕ, ◌+◌, ◌-◌, ◌<◌, ◌≡◌, ◌≢◌, ◌↔◌, ◌⊎◌, refl, true, Option, none, some, [], ◌∷◌, Bytes, codes,
  arith,
}
use cargoship.Phase.Skew.{Version, version_skew_too_great, version_skew_too_great_iff}

abbrev short : Bytes → Option Version
short (v ∷ (a ∷ (point ∷ (b ∷ [])))) = some (record { major = a - 48; minor = b - 48 })
short _ = none

-- A target one minor version behind is reported.
version_skew_too_great_iff_example :
    (version_skew_too_great short (codes "v1.9") (codes "v1.8") ≡ true)
    ↔ ((◌≢◌ {A = ℕ} 1 1) ⊎ ((9 + 1 < 8) ⊎ (8 < 9)))
version_skew_too_great_iff_example =
    version_skew_too_great_iff short (codes "v1.9") (codes "v1.8") 1 9 1 8 (ground arith) refl refl
      (omega arith) (omega arith)
