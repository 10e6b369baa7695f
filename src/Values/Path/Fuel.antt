-- ===== src/Values/Path/Fuel.antt =====
-- The fuel of the loop over indices in the model of pkg/helmvalues/values.go.
use cargoship.Prelude.{
  ℕ, zero, suc, ◌≤◌, ◌≡◌, refl, inl, inr, some, List, [], ◌∷◌, ◌++◌, Bytes, length, arith, ◌==◌,
  Bool-cases, Option-cases,
}
use cargoship.Values.Text.{open_bracket, close_bracket, cut, atoi}
use cargoship.Values.Tree.{Answer, ok, fail, on_ok}
use cargoship.Values.Path.{checked_index, bracketed, indices_loop}

cut-length :
    (sep : ℕ) (s before after : Bytes)
    → cut sep s ≡ some (before, after)
    → suc (length after) ≤ length s
unfolding cut
cut-length sep [] before after h = ground arith
cut-length sep (c ∷ s) before after h = elim (Bool-cases (c == sep)) [
  | inl e ↦ ground (arith, e)
  | inr e ↦ elim (Option-cases (cut sep s)) [
    | inl n ↦ ground (arith, e, n)
    | inr ((b, a), n) ↦ ground (arith, e, n, cut-length sep s b a n)
  ]
]

bracketed-length :
    (s number rest : Bytes) → bracketed s ≡ some (number, rest) → suc (length rest) ≤ length s
unfolding bracketed
bracketed-length [] number rest h = ground arith
bracketed-length (c ∷ s) number rest h = elim (Bool-cases (c == open_bracket)) [
  | inl e ↦
      let k : cut close_bracket s ≡ some (number, rest) = ground (arith, e) in
      omega (arith, cut-length close_bracket s number rest k)
  | inr e ↦ ground (arith, e)
]

on_ok-ext {ℓ κ} :
    {A : Type ℓ} {B : Type κ} (a : Answer A) (f g : A → Answer B)
    → ((x : A) → f x ≡ g x)
    → on_ok a f ≡ on_ok a g
on_ok-ext (ok x) f g h = h x
on_ok-ext (fail e) f g h = refl

-- Any fuel of at least the length of the text gives the same answer.
indices_loop_enough :
    (m n : ℕ) (found : List ℕ) (s : Bytes)
    → length s ≤ m
    → length s ≤ n
    → indices_loop m found s ≡ indices_loop n found s
unfolding indices_loop
indices_loop_enough m n found [] hm hn = refl
indices_loop_enough zero n found (c ∷ s) hm hn = ground arith
indices_loop_enough (suc m) zero found (c ∷ s) hm hn = ground arith
indices_loop_enough (suc m) (suc n) found (c ∷ s) hm hn = elim (Option-cases (bracketed (c ∷ s))) [
  | inl e ↦ rw (e, indices_loop) refl
  | inr ((number, rest), e) ↦
      rw (e, indices_loop)
        (on_ok-ext (checked_index (atoi number)) _ _ λ i.
          indices_loop_enough m n (found ++ i ∷ []) rest
            (omega (arith, bracketed-length (c ∷ s) number rest e, hm))
            (omega (arith, bracketed-length (c ∷ s) number rest e, hn)))
]
