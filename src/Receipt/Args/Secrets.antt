-- ===== src/Receipt/Args/Secrets.antt =====
-- Command lines with other secrets under `redactArgs` of internal/receipt/write.go.
use Prim.Native.Char.{code}
use Prim.Native.String.{◌++◌ as text_append}
use text.Mathlib.TextEquality.{Char-path}
use text.Mathlib.TextLemmas.{nil-append, cons-append}
use cargoship.Prelude.{
  String, ◌≡◌, refl, sym, ap, ◌∙◌, inl, inr, true, false, List, [], ◌∷◌, any, All, arith, ◌==◌,
  str_eq, eq_iff, Bool-cases, if◌then◌else◌,
}
use mathlib.Core.Path.{subst}
use cargoship.Receipt.Args.{
  redacted_value, credential_flags, is_credential, cut_more, cut_at_equals, has_dash, trim_dashes,
  redact_arg, redact_loop, redact_args,
}

-- The name of a credential behind one or more dashes.
pub data IsSecretFlag : String → Type 0 where
  one_dash : (name : String) → is_credential name ≡ true → IsSecretFlag (String.◌∷◌ "-" name)
  more_dashes : (flag : String) → IsSecretFlag flag → IsSecretFlag (String.◌∷◌ "-" flag)

-- Two command lines that differ at most in the value of credential flags, whether it is behind an
-- equals sign or the next argument.
pub data SameButSecrets : List String → List String → Type 0 where
  no_more : SameButSecrets [] []
  plain :
      (arg : String) (xs ys : List String)
      → ¬ IsSecretFlag arg
      → SameButSecrets xs ys
      → SameButSecrets (arg ∷ xs) (arg ∷ ys)
  joined_value :
      (flag v w : String) (xs ys : List String)
      → IsSecretFlag flag
      → SameButSecrets xs ys
      → SameButSecrets
          (text_append flag (text_append "=" v) ∷ xs)
          (text_append flag (text_append "=" w) ∷ ys)
  next_value :
      (flag v w : String) (xs ys : List String)
      → IsSecretFlag flag
      → SameButSecrets xs ys
      → SameButSecrets (flag ∷ v ∷ xs) (flag ∷ w ∷ ys)

any_true {ℓ} :
    (P : String → Type ℓ) (n : String) (xs : List String)
    → All P xs
    → any (str_eq n) xs ≡ true
    → P n
any_true P n [] h e = ground arith
any_true P n (x ∷ xs) (p, h) e = elim (Bool-cases (str_eq n x)) [
  | inl k ↦ subst P (sym (ground (arith, eq_iff n x))) p
  | inr k ↦ any_true P n xs h (ground (arith, k))
]

-- The name of a credential has no dash in front and no equals sign.
abbrev IsBare : String → Type 0
IsBare n = (trim_dashes n ≡ n) × (cut_at_equals n ≡ record { name = n; joined = false })

credential-IsBare : (n : String) → is_credential n ≡ true → IsBare n
unfolding is_credential trim_dashes cut_at_equals cut_more
credential-IsBare n h =
    any_true IsBare n credential_flags
      (
        (refl, refl),
        (
          (refl, refl),
          (
            (refl, refl),
            ((refl, refl), ((refl, refl), ((refl, refl), ((refl, refl), ((refl, refl), tt))))),
          ),
        ),
      )
      h

cut_dash :
    (s : String)
    → cut_at_equals s ≡ record { name = s; joined = false }
    → cut_at_equals (String.◌∷◌ "-" s) ≡ record { name = String.◌∷◌ "-" s; joined = false }
unfolding cut_at_equals cut_more
cut_dash s h = rw h refl

flag_cut : (f : String) → IsSecretFlag f → cut_at_equals f ≡ record { name = f; joined = false }
flag_cut f (one_dash n h) = let (_, e) = credential-IsBare n h in cut_dash n e
flag_cut f (more_dashes g h) = cut_dash g (flag_cut g h)

flag_name : (f : String) → IsSecretFlag f → is_credential (trim_dashes f) ≡ true
unfolding trim_dashes
flag_name f (one_dash n h) = let (e, _) = credential-IsBare n h in ap is_credential e ∙ h
flag_name f (more_dashes g h) = flag_name g h

flag_dash : (f : String) → IsSecretFlag f → has_dash f ≡ true
unfolding has_dash
flag_dash f (one_dash n h) = refl
flag_dash f (more_dashes g h) = refl

cut_joined :
    (f v : String)
    → (cut_at_equals f).joined ≡ false
    → cut_at_equals (text_append f (text_append "=" v)) ≡ record { name = f; joined = true }
unfolding cut_at_equals cut_more
cut_joined String.[] v h = rw (nil-append (text_append "=" v), cons-append "=" "" v) refl
cut_joined (String.◌∷◌ c f) v h = elim (Bool-cases (code c == 61)) [
  | inl e ↦ ground (arith, e)
  | inr e ↦
      rw
        (
          cons-append c f (text_append "=" v),
          e,
          cut_joined f v (
              subst
                (λ b.
                  (if b
                    then record { name = ""; joined = true }
                    else cut_more c (cut_at_equals f)).joined
                  ≡ false)
                e h),
        )
        refl
]

redact_flag : (f : String) → IsSecretFlag f → redact_arg f (cut_at_equals f) ≡ (f, true)
unfolding redact_arg
redact_flag f s = rw (flag_cut f s, flag_dash f s, flag_name f s) refl

redact_joined :
    (f v : String)
    → IsSecretFlag f
    → redact_arg
        (text_append f (text_append "=" v))
        (cut_at_equals (text_append f (text_append "=" v)))
      ≡ (text_append f (text_append "=" redacted_value), false)
unfolding redact_arg
redact_joined f v s =
    rw (cut_joined f v (ap (λ r. r.joined) (flag_cut f s)), flag_dash f s, flag_name f s) refl

-- A name without an equals sign is the whole argument.
cut_whole : (s : String) → (cut_at_equals s).joined ≡ false → (cut_at_equals s).name ≡ s
unfolding cut_at_equals cut_more
cut_whole String.[] h = refl
cut_whole (String.◌∷◌ c s) h = elim (Bool-cases (code c == 61)) [
  | inl e ↦ ground (arith, e)
  | inr e ↦
      rw
        (
          e,
          cut_whole s (
              subst
                (λ b.
                  (if b
                    then record { name = ""; joined = true }
                    else cut_more c (cut_at_equals s)).joined
                  ≡ false)
                e h),
        )
        refl
]

trim_nothing : (s : String) → has_dash s ≡ false → trim_dashes s ≡ s
unfolding has_dash trim_dashes
trim_nothing String.[] h = refl
trim_nothing (String.◌∷◌ c s) h = rw h refl

secret_of : (s : String) → has_dash s ≡ true → is_credential (trim_dashes s) ≡ true → IsSecretFlag s
unfolding has_dash trim_dashes
secret_of String.[] d h = ground arith
secret_of (String.◌∷◌ c s) d h =
    let n = subst (λ b. is_credential (if b then trim_dashes s else String.◌∷◌ c s) ≡ true) d h in
    subst (λ k. IsSecretFlag (String.◌∷◌ k s)) (Char-path "-" c (ground arith))
      (elim (Bool-cases (has_dash s)) [
        | inl e ↦ more_dashes s (secret_of s e n)
        | inr e ↦ one_dash s (sym (ap is_credential (trim_nothing s e)) ∙ n)
      ])

redact_plain : (a : String) → ¬ IsSecretFlag a → (redact_arg a (cut_at_equals a)).1 ≡ false
unfolding redact_arg
redact_plain a n = elim (Bool-cases (has_dash (cut_at_equals a).name)) [
  | inr d ↦ rw d refl
  | inl d ↦ elim (Bool-cases (is_credential (trim_dashes (cut_at_equals a).name))) [
    | inr c ↦ rw (d, c) refl
    | inl c ↦ elim (Bool-cases (cut_at_equals a).joined) [
      | inl j ↦ rw (d, c, j) refl
      | inr j ↦
          absurd (n (subst IsSecretFlag (cut_whole a j) (secret_of (cut_at_equals a).name d c)))
    ]
  ]
]

redact_loop_same :
    (xs ys : List String) → SameButSecrets xs ys → redact_loop false xs ≡ redact_loop false ys
unfolding redact_loop
redact_loop_same [] [] no_more = refl
redact_loop_same [] (_ ∷ _) h = elim h [ ]
redact_loop_same (_ ∷ _) [] h = elim h [ ]
redact_loop_same (_ ∷ _) (_ ∷ _) (plain arg xs ys n h) =
    rw (redact_plain arg n, redact_loop_same xs ys h) refl
redact_loop_same (_ ∷ _) (_ ∷ _) (joined_value f v w xs ys s h) =
    rw (redact_joined f v s, redact_joined f w s, redact_loop_same xs ys h) refl
redact_loop_same (_ ∷ _) (_ ∷ _) (next_value f v w xs ys s h) =
    rw (redact_flag f s, redact_loop_same xs ys h) refl

-- Two command lines that differ only in the values of credential flags, in either spelling and
-- behind any number of dashes, are recorded as the same one.
pub redact_args_same :
    (xs ys : List String) → SameButSecrets xs ys → redact_args xs ≡ redact_args ys
unfolding redact_args
redact_args_same xs ys h = redact_loop_same xs ys h
