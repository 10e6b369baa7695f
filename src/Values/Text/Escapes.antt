-- ===== src/Values/Text/Escapes.antt =====
-- The scans of pkg/helmvalues/values.go on escaped text.
use mathlib.Core.Path.{subst}
use cargoship.Prelude.{
  ℕ, ◌≡◌, refl, ◌∙◌, ap, inl, inr, true, false, ◌||◌, List, [], ◌∷◌, ◌++◌, append-nil, map, any,
  arith, Bytes, ◌==◌, if◌then◌else◌, Bool-cases,
}
use cargoship.Values.Text.{
  dot, backslash, open_bracket, is_structural, split_loop, split_escaped, unescape_loop, unescape,
  key_loop, split_key_indices,
}

abbrev pub join : ℕ → List Bytes → Bytes
join sep [] = []
join sep (p ∷ []) = p
join sep (p ∷ (q ∷ ps)) = p ++ (sep ∷ join sep (q ∷ ps))

-- A backslash before every byte that has a meaning in a path.
abbrev pub escape : Bytes → Bytes
escape [] = []
escape (c ∷ s) = (if is_structural c then backslash ∷ c ∷ [] else c ∷ []) ++ escape s

not_backslash : (c : ℕ) → is_structural c ≡ false → (c == backslash) ≡ false
not_backslash c e = ground arith

not_dot : (c : ℕ) → is_structural c ≡ false → (c == dot) ≡ false
not_dot c e = ground arith

not_bracket : (c : ℕ) → is_structural c ≡ false → (c == open_bracket) ≡ false
not_bracket c e = ground arith

-- One byte, or two, between two texts.
snoc_lem {ℓ} :
    {A : Type ℓ} (xs : List A) (c : A) (ys : List A) → (xs ++ c ∷ []) ++ ys ≡ xs ++ (c ∷ ys)
snoc_lem [] c ys = refl
snoc_lem (x ∷ xs) c ys = rw (snoc_lem xs c ys) refl

snoc_snoc_lem :
    (xs : Bytes) (c d : ℕ) (ys : Bytes) → ((xs ++ c ∷ []) ++ d ∷ []) ++ ys ≡ xs ++ (c ∷ d ∷ ys)
snoc_snoc_lem xs c d ys = snoc_lem (xs ++ c ∷ []) d ys ∙ snoc_lem xs c (d ∷ ys)

split_loop-escape :
    (k cur : Bytes) (parts : List Bytes) (s : Bytes)
    → split_loop dot false cur parts (escape k ++ s)
      ≡ split_loop dot false (cur ++ escape k) parts s
unfolding split_loop
split_loop-escape [] cur parts s = rw (append-nil) refl
split_loop-escape (c ∷ k) cur parts s = elim (Bool-cases (is_structural c)) [
  | inl e ↦ rw e (
      split_loop-escape k ((cur ++ backslash ∷ []) ++ c ∷ []) parts s
      ∙ ap (λ x. split_loop dot false x parts s) (snoc_snoc_lem cur backslash c (escape k)))
  | inr e ↦ rw e (
      rw (not_backslash c e, split_loop)
        (rw (not_dot c e, split_loop)
          (split_loop-escape k (cur ++ c ∷ []) parts s
            ∙ ap (λ x. split_loop dot false x parts s) (snoc_lem cur c (escape k)))))
]

split_loop-join :
    (k : Bytes) (ks : List Bytes) (parts : List Bytes)
    → split_loop dot false [] parts (join dot (map escape (k ∷ ks))) ≡ parts ++ map escape (k ∷ ks)
unfolding split_loop
split_loop-join k [] parts =
    subst (λ x. split_loop dot false [] parts x ≡ parts ++ escape k ∷ []) (append-nil (escape k))
      (split_loop-escape k [] parts [])
split_loop-join k (l ∷ ks) parts =
    split_loop-escape k [] parts (dot ∷ join dot (map escape (l ∷ ks)))
    ∙ split_loop-join l ks (parts ++ escape k ∷ [])
    ∙ snoc_lem parts (escape k) (map escape (l ∷ ks))

key_loop-escape :
    (k key s : Bytes) → key_loop false key (escape k ++ s) ≡ key_loop false (key ++ escape k) s
unfolding key_loop
key_loop-escape [] key s = rw (append-nil) refl
key_loop-escape (c ∷ k) key s = elim (Bool-cases (is_structural c)) [
  | inl e ↦ rw e (
      key_loop-escape k ((key ++ backslash ∷ []) ++ c ∷ []) s
      ∙ ap (λ x. key_loop false x s) (snoc_snoc_lem key backslash c (escape k)))
  | inr e ↦ rw e (
      rw (not_backslash c e, key_loop)
        (rw (not_bracket c e, key_loop)
          (key_loop-escape k (key ++ c ∷ []) s
            ∙ ap (λ x. key_loop false x s) (snoc_lem key c (escape k)))))
]

-- An escaped key has no index behind it.
pub split_key_indices-escape : (k : Bytes) → split_key_indices (escape k) ≡ (escape k, [])
unfolding split_key_indices key_loop
split_key_indices-escape k =
    subst (λ x. key_loop false [] x ≡ (escape k, [])) (append-nil (escape k))
      (key_loop-escape k [] [])

unescape_loop-escape : (k b : Bytes) → unescape_loop false b (escape k) ≡ b ++ k
unfolding unescape_loop
unescape_loop-escape [] b = rw (append-nil) refl
unescape_loop-escape (c ∷ k) b = elim (Bool-cases (is_structural c)) [
  | inl e ↦ rw e (rw (e, unescape_loop) (unescape_loop-escape k (b ++ c ∷ []) ∙ snoc_lem b c k))
  | inr e ↦ rw e (
      rw (not_backslash c e, unescape_loop) (unescape_loop-escape k (b ++ c ∷ []) ∙ snoc_lem b c k))
]

escape-structural :
    (c : ℕ) (k : Bytes) → is_structural c ≡ true → any (λ d. d == backslash) (escape (c ∷ k)) ≡ true
escape-structural c k e = rw e refl

escape-other :
    (c : ℕ) (k : Bytes)
    → is_structural c ≡ false
    → any (λ d. d == backslash) (escape (c ∷ k))
      ≡ (c == backslash) || any (λ d. d == backslash) (escape k)
escape-other c k e = rw e refl

escape-plain : (k : Bytes) → any (λ c. c == backslash) (escape k) ≡ false → escape k ≡ k
escape-plain [] h = refl
escape-plain (c ∷ k) h = elim (Bool-cases (is_structural c)) [
  | inl e ↦ ground (arith, escape-structural c k e)
  | inr e ↦
      rw e
        (ap (λ x. c ∷ x) (escape-plain k (ground (arith, escape-other c k e, not_backslash c e))))
]

pub unescape-escape : (k : Bytes) → unescape (escape k) ≡ k
unfolding unescape
unescape-escape k = elim (Bool-cases (any (λ c. c == backslash) (escape k))) [
  | inl e ↦ rw e (unescape_loop-escape k [])
  | inr e ↦ rw e (escape-plain k e)
]

-- Splitting the joined texts at the dots gives the escaped texts.
pub split_escaped-join :
    (k : Bytes) (ks : List Bytes)
    → split_escaped (join dot (map escape (k ∷ ks))) dot ≡ map escape (k ∷ ks)
unfolding split_escaped
split_escaped-join k ks = split_loop-join k ks []
