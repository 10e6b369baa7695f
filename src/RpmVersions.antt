-- ===== src/RpmVersions.antt =====
-- magefiles/pkg/devtools/dnfpins/rpmvercmp.go: the comparison of versions by RPM's segments. The
-- indices of the source are the rests of the two texts; a text is the list of its bytes.
mod Fuel
mod Numbers
mod Turned
mod Examples
use cargoship.Prelude.{
  ℕ, zero, suc, ◌+◌, Bool, true, false, not, ◌&&◌, ◌||◌, Option, none, some, List, [], ◌∷◌, Bytes,
  ltb, leb, ◌==◌, length, if◌then◌else◌,
}
use cargoship.Values.Tree.{same_bytes}
use cargoship.Values.Text.Numbers.{is_digit}
use cargoship.Overrides.{less}

-- -1, 0 and 1.
pub data Order : Type 0 where
  older equal newer : Order

abbrev pub is_alpha : ℕ → Bool
is_alpha c = (leb 97 c && leb c 122) || (leb 65 c && leb c 90)

-- What the rest of a text begins with.
pub data Start : Type 0 where
  ended tilde caret digit letter plain : Start

pub kind_of : Bytes → Start
kind_of [] = ended
kind_of (c ∷ s) =
    if c == 126
    then tilde
    else if c == 94
    then caret
    else if is_digit c
    then digit
    else if is_alpha c
    then letter
    else plain

abbrev is_plain : Start → Bool
is_plain plain = true
is_plain _ = false

-- The first two inner loops.
pub skip_plain : Bytes → Bytes
unfolding kind_of
skip_plain [] = []
skip_plain (c ∷ s) = let rest = skip_plain s in if is_plain (kind_of (c ∷ s)) then rest else c ∷ s

abbrev tail : Bytes → Bytes
tail [] = []
tail (c ∷ s) = s

-- A run of such bytes, and what is behind it.
run_of : (ℕ → Bool) → Bytes → Bytes
run_of test [] = []
run_of test (c ∷ s) = let rest = run_of test s in if test c then c ∷ rest else []

behind_run : (ℕ → Bool) → Bytes → Bytes
behind_run test [] = []
behind_run test (c ∷ s) = let rest = behind_run test s in if test c then rest else c ∷ s

-- Leading zeros go, all but a last one.
strip_zeros : Bytes → Bytes
strip_zeros [] = []
strip_zeros (c ∷ []) = c ∷ []
strip_zeros (c ∷ (d ∷ s)) = let rest = strip_zeros (d ∷ s) in if c == 48 then rest else c ∷ (d ∷ s)

compare_texts : Bytes → Bytes → Order
unfolding less
compare_texts s t = if same_bytes s t then equal else if less s t then older else newer

compare_numbers : Bytes → Bytes → Order
unfolding compare_texts
compare_numbers s t =
    if ltb (length s) (length t)
    then older
    else if ltb (length t) (length s)
    then newer
    else compare_texts s t

-- What a segment decides, or the rest of the loop.
decide : Order → Option Order → Option Order
decide equal rest = rest
decide older rest = some older
decide newer rest = some newer

-- Behind the loop: at least one of the texts has ended.
behind_loop : Bytes → Bytes → Order
behind_loop [] [] = equal
behind_loop [] (d ∷ t) = if d == 126 then newer else older
behind_loop (c ∷ s) t = if c == 126 then older else newer

-- The body of the loop, behind the inner two; `rest` goes on with the loop.
segment : (Bytes → Bytes → Option Order) → Bytes → Bytes → Start → Start → Option Order
unfolding decide compare_numbers compare_texts run_of behind_run strip_zeros behind_loop
segment rest a b tilde tilde = rest (tail a) (tail b)
segment rest a b tilde _ = some older
segment rest a b _ tilde = some newer
segment rest a b caret caret = rest (tail a) (tail b)
segment rest a b caret _ = some older
segment rest a b _ caret = some newer
segment rest a b ended _ = some (behind_loop a b)
segment rest a b _ ended = some (behind_loop a b)
segment rest a b digit _ =
    decide (compare_numbers (strip_zeros (run_of is_digit a)) (strip_zeros (run_of is_digit b)))
      (rest (behind_run is_digit a) (behind_run is_digit b))
segment rest a b letter _ =
    decide (compare_texts (run_of is_alpha a) (run_of is_alpha b))
      (rest (behind_run is_alpha a) (behind_run is_alpha b))
segment rest a b plain _ = rest (tail a) (tail b)

-- The outer loop, none where the fuel runs out.
compare_loop : ℕ → Bytes → Bytes → Option Order
unfolding segment skip_plain behind_loop
compare_loop zero a b = none
compare_loop (suc fuel) [] b = some (behind_loop [] b)
compare_loop (suc fuel) (c ∷ a) [] = some (behind_loop (c ∷ a) [])
compare_loop (suc fuel) (c ∷ a) (d ∷ b) =
    segment (compare_loop fuel) (skip_plain (c ∷ a)) (skip_plain (d ∷ b))
      (kind_of (skip_plain (c ∷ a))) (kind_of (skip_plain (d ∷ b)))

pub rpm_compare_values : Bytes → Bytes → Option Order
unfolding compare_loop
rpm_compare_values a b =
    if same_bytes a b then some equal else compare_loop (suc (length a + length b)) a b
