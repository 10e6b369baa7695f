-- ===== src/Phase/Skew.antt =====
-- `VersionSkewTooGreat` of pkg/phase/00_generic_phase.go. The parser of github.com/Masterminds/semver
-- is a parameter; a minor version is a `uint64`, so its difference wraps around.
mod Examples
use cargoship.Prelude.{
  ℕ, ◌+◌, ◌-◌, ◌%◌, ◌^◌, ◌<◌, ◌≡◌, ◌≢◌, ◌↔◌, ◌⊎◌, Bool, true, false, not, ◌||◌, Option, none, some,
  List, map, Bytes, codes, ltb, ◌==◌, if◌then◌else◌, arith,
}
use cargoship.Values.Tree.{same_bytes}
use cargoship.Values.Tree.Keys.{same_bytes_iff}

pub record Version : Type 0 where
  pub major : ℕ
  pub minor : ℕ

abbrev pub unknown_version : Bytes
unknown_version = codes "v0.0.0"

-- `strings.ReplaceAll(…, "+", "-")`.
abbrev pub dashed : Bytes → Bytes
dashed s = map (λ c. if c == 43 then 45 else c) s

abbrev pub skew_of : Version → Version → Bool
skew_of cur tgt = not (tgt.major == cur.major) || ltb 1 ((tgt.minor + 2 ^ 64 - cur.minor) % 2 ^ 64)

module _ (parse : Bytes → Option Version) where
  pub version_skew_too_great : Bytes → Bytes → Bool
  version_skew_too_great running target =
      if same_bytes running unknown_version then false else elim (parse (dashed running)) [
        | none ↦ false
        | some cur ↦ elim (parse (dashed target)) [ none ↦ false | some tgt ↦ skew_of cur tgt ]
      ]

skew_of_iff :
    (a b c d : ℕ)
    → b < 2 ^ 63
    → d < 2 ^ 63
    → (skew_of (record { major = a; minor = b }) (record { major = c; minor = d }) ≡ true)
      ↔ ((c ≢ a) ⊎ ((b + 1 < d) ⊎ (d < b)))
skew_of_iff a b c d hb hd = (λ h. ground arith, λ h. ground arith)

-- Where both versions can be parsed, the running one is not the unknown one, and the minor versions
-- are below 2^63, `VersionSkewTooGreat` reports true exactly if the major versions differ, or the
-- target is more than one minor version ahead, or it is behind.
pub version_skew_too_great_iff :
    (parse : Bytes → Option Version) (running target : Bytes) (a b c d : ℕ)
    → running ≢ unknown_version
    → parse (dashed running) ≡ some (record { major = a; minor = b })
    → parse (dashed target) ≡ some (record { major = c; minor = d })
    → b < 2 ^ 63
    → d < 2 ^ 63
    → (version_skew_too_great parse running target ≡ true) ↔ ((c ≢ a) ⊎ ((b + 1 < d) ⊎ (d < b)))
unfolding version_skew_too_great
version_skew_too_great_iff parse running target a b c d ne p q hb hd =
    let u : same_bytes running unknown_version ≡ false =
      ground (arith, same_bytes_iff running unknown_version) in
    rw u
      (rw (p, version_skew_too_great) (rw (q, version_skew_too_great) (skew_of_iff a b c d hb hd)))
