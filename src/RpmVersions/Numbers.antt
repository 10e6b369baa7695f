-- ===== src/RpmVersions/Numbers.antt =====
-- `RpmCompareValues` of magefiles/pkg/devtools/dnfpins/rpmvercmp.go on texts without letters.
use cargoship.Prelude.{
  ℕ, zero, suc, ◌≡◌, refl, ap, ◌+◌, Bool, true, false, not, Option, none, some, [], ◌∷◌, Bytes,
  is_some, length, arith, if◌then◌else◌,
}
use cargoship.Values.Tree.{same_bytes}
use cargoship.Values.Text.Numbers.{is_digit}
use cargoship.Overrides.{less}
use cargoship.RpmVersions.Fuel.{rpm_compare_values_ends}
use cargoship.RpmVersions.{
  Order, older, equal, newer, is_alpha, Start, ended, tilde, caret, digit, kind_of, skip_plain,
  tail, run_of, behind_run, strip_zeros, compare_texts, compare_numbers, decide, behind_loop,
  segment, compare_loop, rpm_compare_values,
}

abbrev pub no_letters : Bytes → Bool
no_letters [] = true
no_letters (c ∷ s) = if is_alpha c then false else no_letters s

abbrev flip : Order → Order
flip older = newer
flip equal = equal
flip newer = older

abbrev pub turn : Option Order → Option Order
turn none = none
turn (some o) = some (flip o)

same_bytes_comm : (s t : Bytes) → same_bytes s t ≡ same_bytes t s
same_bytes_comm [] [] = refl
same_bytes_comm [] (d ∷ t) = refl
same_bytes_comm (c ∷ s) [] = refl
same_bytes_comm (c ∷ s) (d ∷ t) = ground (arith, same_bytes_comm s t)

less-turn : (s t : Bytes) → same_bytes s t ≡ false → less t s ≡ not (less s t)
unfolding less
less-turn [] [] h = ground arith
less-turn [] (d ∷ t) h = refl
less-turn (c ∷ s) [] h = refl
less-turn (c ∷ s) (d ∷ t) h = ground (arith, less-turn s t)

compare_texts-turn : (s t : Bytes) → compare_texts t s ≡ flip (compare_texts s t)
unfolding compare_texts
compare_texts-turn s t = ground (arith, same_bytes_comm s t, less-turn s t)

compare_numbers-turn : (s t : Bytes) → compare_numbers t s ≡ flip (compare_numbers s t)
unfolding compare_numbers
compare_numbers-turn s t = ground (arith, compare_texts-turn s t)

decide-turn : (o : Order) (r : Option Order) → decide (flip o) (turn r) ≡ turn (decide o r)
unfolding decide
decide-turn older r = refl
decide-turn equal r = refl
decide-turn newer r = refl

behind_loop-turn : (b : Bytes) → behind_loop b [] ≡ flip (behind_loop [] b)
unfolding behind_loop
behind_loop-turn [] = refl
behind_loop-turn (d ∷ b) = ground arith

behind_run-no_letters :
    (test : ℕ → Bool) (s : Bytes) → no_letters s ≡ true → no_letters (behind_run test s) ≡ true
unfolding behind_run
behind_run-no_letters test [] h = refl
behind_run-no_letters test (c ∷ s) h = ground (arith, behind_run-no_letters test s)

skip_plain-no_letters : (s : Bytes) → no_letters s ≡ true → no_letters (skip_plain s) ≡ true
unfolding skip_plain
skip_plain-no_letters [] h = refl
skip_plain-no_letters (c ∷ s) h = ground (arith, skip_plain-no_letters s)

abbrev counts : Start → Bool
counts tilde = true
counts caret = true
counts digit = true
counts _ = false

abbrev counts_or_ended : Bytes → Bool
counts_or_ended [] = true
counts_or_ended (c ∷ s) = counts (kind_of (c ∷ s))

skip_plain-counts : (s : Bytes) → no_letters s ≡ true → counts_or_ended (skip_plain s) ≡ true
unfolding skip_plain kind_of
skip_plain-counts [] h = refl
skip_plain-counts (c ∷ s) h = ground (arith, skip_plain-counts s)

-- `rest` gives turned arguments the turned answer.
abbrev Turns : (Bytes → Bytes → Option Order) → Type 0
Turns rest = (x y : Bytes) → no_letters x ≡ true → no_letters y ≡ true → rest y x ≡ turn (rest x y)

digits-turn :
    (rest : Bytes → Bytes → Option Order) (s t : Bytes)
    → Turns rest
    → no_letters s ≡ true
    → no_letters t ≡ true
    → segment rest t s digit digit ≡ turn (segment rest s t digit digit)
unfolding segment
digits-turn rest s t r h k =
    rw
      (
        compare_numbers-turn (strip_zeros (run_of is_digit s)) (strip_zeros (run_of is_digit t)),
        r (behind_run is_digit s) (behind_run is_digit t) (behind_run-no_letters is_digit s h)
            (behind_run-no_letters is_digit t k),
      )
      (decide-turn
        (compare_numbers (strip_zeros (run_of is_digit s)) (strip_zeros (run_of is_digit t)))
        (rest (behind_run is_digit s) (behind_run is_digit t)))

tail-no_letters : (s : Bytes) → no_letters s ≡ true → no_letters (tail s) ≡ true
tail-no_letters [] h = refl
tail-no_letters (c ∷ s) h = ground arith

segment-turn :
    (rest : Bytes → Bytes → Option Order) (s t : Bytes) (k m : Start)
    → Turns rest
    → no_letters s ≡ true
    → no_letters t ≡ true
    → counts k ≡ true
    → counts m ≡ true
    → segment rest t s m k ≡ turn (segment rest s t k m)
unfolding segment
segment-turn rest s t k m r h l a b = ground (
  arith,
  digits-turn rest s t r h l,
  r (tail s) (tail t) (tail-no_letters s h) (tail-no_letters t l),
)

behind_loop-turned : (b : Bytes) → behind_loop [] b ≡ flip (behind_loop b [])
unfolding behind_loop
behind_loop-turned [] = refl
behind_loop-turned (d ∷ b) = ground arith

ended-turn :
    (rest : Bytes → Bytes → Option Order) (b : Bytes) (k : Start)
    → segment rest b [] k ended ≡ turn (segment rest [] b ended k)
unfolding segment
ended-turn rest b k = ground (arith, behind_loop-turn b)

other_ended-turn :
    (rest : Bytes → Bytes → Option Order) (b : Bytes) (k : Start)
    → segment rest [] b ended k ≡ turn (segment rest b [] k ended)
unfolding segment
other_ended-turn rest b k = ground (arith, behind_loop-turned b)

segments-turn :
    (rest : Bytes → Bytes → Option Order) (a b : Bytes)
    → Turns rest
    → no_letters a ≡ true
    → no_letters b ≡ true
    → counts_or_ended a ≡ true
    → counts_or_ended b ≡ true
    → segment rest b a (kind_of b) (kind_of a) ≡ turn (segment rest a b (kind_of a) (kind_of b))
unfolding kind_of
segments-turn rest [] [] r h k i j = ended-turn rest [] ended
segments-turn rest [] (d ∷ b) r h k i j = ended-turn rest (d ∷ b) (kind_of (d ∷ b))
segments-turn rest (c ∷ a) [] r h k i j = other_ended-turn rest (c ∷ a) (kind_of (c ∷ a))
segments-turn rest (c ∷ a) (d ∷ b) r h k i j =
    segment-turn rest (c ∷ a) (d ∷ b) (kind_of (c ∷ a)) (kind_of (d ∷ b)) r h k i j

compare_loop-turn : (n : ℕ) → Turns (compare_loop n)
unfolding compare_loop
compare_loop-turn zero a b h k = refl
compare_loop-turn (suc n) [] [] h k = ap some (behind_loop-turn [])
compare_loop-turn (suc n) [] (d ∷ b) h k = ap some (behind_loop-turn (d ∷ b))
compare_loop-turn (suc n) (c ∷ a) [] h k = ap some (behind_loop-turned (c ∷ a))
compare_loop-turn (suc n) (c ∷ a) (d ∷ b) h k =
    segments-turn (compare_loop n) (skip_plain (c ∷ a)) (skip_plain (d ∷ b)) (compare_loop-turn n)
      (skip_plain-no_letters (c ∷ a) h) (skip_plain-no_letters (d ∷ b) k)
      (skip_plain-counts (c ∷ a) h) (skip_plain-counts (d ∷ b) k)

-- The comparison of two texts without letters ends with an answer, and the other way round with
-- the opposite one: older becomes newer, newer older, and equal stays.
pub rpm_compare_values-turn :
    (a b : Bytes)
    → no_letters a ≡ true
    → no_letters b ≡ true
    → (is_some (rpm_compare_values a b) ≡ true)
      × (rpm_compare_values b a ≡ turn (rpm_compare_values a b))
unfolding rpm_compare_values
rpm_compare_values-turn a b h k = (
  rpm_compare_values_ends a b,
  grind (arith, same_bytes_comm a b, compare_loop-turn (suc (length a + length b)) a b h k),
)
