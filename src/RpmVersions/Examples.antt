-- ===== src/RpmVersions/Examples.antt =====
-- Versions as magefiles/pkg/devtools/dnfpins/rpmvercmp.go compares them.
use cargoship.Prelude.{◌≡◌, refl, true, some, [], ◌∷◌, Bytes, is_some}
use cargoship.RpmVersions.{older, newer, kind_of, skip_plain, rpm_compare_values}
use cargoship.RpmVersions.Numbers.{turn, rpm_compare_values-turn}
use cargoship.RpmVersions.Turned.{rpm_compare_values_turned}

-- 1.9 and 1.010~1
abbrev nine : Bytes
nine = 49 ∷ 46 ∷ 57 ∷ []

abbrev ten : Bytes
ten = 49 ∷ 46 ∷ 48 ∷ 49 ∷ 48 ∷ 126 ∷ 49 ∷ []

-- el9
abbrev el_nine : Bytes
el_nine = 101 ∷ 108 ∷ 57 ∷ []

nine-ten : rpm_compare_values nine ten ≡ some older
unfolding rpm_compare_values
nine-ten = refl

rpm_compare_values-turn_example :
    (is_some (rpm_compare_values nine ten) ≡ true)
    × (rpm_compare_values ten nine ≡ turn (rpm_compare_values nine ten))
rpm_compare_values-turn_example = rpm_compare_values-turn nine ten refl refl

rpm_compare_values_turned_example :
    (rpm_compare_values nine el_nine ≡ some newer) × (rpm_compare_values el_nine nine ≡ some newer)
unfolding skip_plain kind_of
rpm_compare_values_turned_example = rpm_compare_values_turned nine el_nine refl refl
