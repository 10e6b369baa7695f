-- ===== src/Cluster/Firewall/Names.antt =====
-- `Key` and `sanitizeName` of api/colonel-byte.dev/v1alpha1/cluster/firewall.go.
use cargoship.Prelude.{
  ℕ, ◌≡◌, refl, inl, inr, Bool, true, false, ◌||◌, [], ◌∷◌, Bytes, ◌==◌, All, Bool-cases,
}
use cargoship.Phase.Removed.{to_lower}
use cargoship.Cluster.Firewall.{
  FirewallRule, is_safe, safe_bytes, trim_front, keep_end, trim_back, sanitize_name, derived_name,
  key_of, key,
}

abbrev AllSafe : Bytes → Type 0
AllSafe = All (λ c. is_safe c ≡ true)

abbrev pub starts_dashed : Bytes → Bool
starts_dashed [] = false
starts_dashed (c ∷ s) = c == 45

abbrev pub ends_dashed : Bytes → Bool
ends_dashed [] = false
ends_dashed (c ∷ []) = c == 45
ends_dashed (c ∷ (d ∷ s)) = ends_dashed (d ∷ s)

-- A name made of lower case letters, digits, dashes and underscores, without a dash at either end.
abbrev pub IsSafeName : Bytes → Type 0
IsSafeName s = All (λ c. is_safe c ≡ true) s × (starts_dashed s ≡ false) × (ends_dashed s ≡ false)

safe_bytes-AllSafe : (s : Bytes) → AllSafe (safe_bytes s)
unfolding safe_bytes
safe_bytes-AllSafe [] = tt
safe_bytes-AllSafe (c ∷ s) = elim (Bool-cases (is_safe c)) [
  | inl y ↦ rw y (y, safe_bytes-AllSafe s)
  | inr n ↦ elim (Bool-cases ((c == 46) || ((c == 47) || ((c == 32) || (c == 58))))) [
    | inl y ↦ rw n (rw y (refl, safe_bytes-AllSafe s))
    | inr m ↦ rw n (rw m (safe_bytes-AllSafe s))
  ]
]

trim_front-AllSafe : (s : Bytes) → AllSafe s → AllSafe (trim_front s)
unfolding trim_front
trim_front-AllSafe [] h = tt
trim_front-AllSafe (c ∷ s) (h, hs) = elim (Bool-cases (c == 45)) [
  | inl y ↦ rw y (trim_front-AllSafe s hs)
  | inr n ↦ rw n (h, hs)
]

trim_front_start : (s : Bytes) → starts_dashed (trim_front s) ≡ false
unfolding trim_front
trim_front_start [] = refl
trim_front_start (c ∷ s) = elim (Bool-cases (c == 45)) [
  | inl y ↦ rw y (trim_front_start s)
  | inr n ↦ rw n n
]

keep_end-AllSafe : (c : ℕ) (s : Bytes) → is_safe c ≡ true → AllSafe s → AllSafe (keep_end c s)
unfolding keep_end
keep_end-AllSafe c [] h hs = elim (Bool-cases (c == 45)) [ inl y ↦ rw y tt | inr n ↦ rw n (h, tt) ]
keep_end-AllSafe c (d ∷ s) h hs = (h, hs)

keep_end_ends : (c : ℕ) (s : Bytes) → ends_dashed s ≡ false → ends_dashed (keep_end c s) ≡ false
unfolding keep_end
keep_end_ends c [] h = elim (Bool-cases (c == 45)) [ inl y ↦ rw y refl | inr n ↦ rw n n ]
keep_end_ends c (d ∷ s) h = h

keep_end_start : (c : ℕ) (s : Bytes) → (c == 45) ≡ false → starts_dashed (keep_end c s) ≡ false
unfolding keep_end
keep_end_start c [] h = rw h h
keep_end_start c (d ∷ s) h = h

trim_back-AllSafe : (s : Bytes) → AllSafe s → AllSafe (trim_back s)
unfolding trim_back
trim_back-AllSafe [] h = tt
trim_back-AllSafe (c ∷ s) (h, hs) = keep_end-AllSafe c (trim_back s) h (trim_back-AllSafe s hs)

trim_back_ends : (s : Bytes) → ends_dashed (trim_back s) ≡ false
unfolding trim_back
trim_back_ends [] = refl
trim_back_ends (c ∷ s) = keep_end_ends c (trim_back s) (trim_back_ends s)

trim_back_start : (s : Bytes) → starts_dashed s ≡ false → starts_dashed (trim_back s) ≡ false
unfolding trim_back
trim_back_start [] h = refl
trim_back_start (c ∷ s) h = keep_end_start c (trim_back s) h

sanitize_name-IsSafeName : (s : Bytes) → IsSafeName (sanitize_name s)
unfolding sanitize_name
sanitize_name-IsSafeName s =
    let front = trim_front (safe_bytes (to_lower s)) in
    (
      trim_back-AllSafe front
          (trim_front-AllSafe (safe_bytes (to_lower s)) (safe_bytes-AllSafe (to_lower s))),
      trim_back_start front (trim_front_start (safe_bytes (to_lower s))),
      trim_back_ends front,
    )

key_of-IsSafeName : (name : Bytes) (r : FirewallRule) → IsSafeName (key_of name r)
unfolding key_of
key_of-IsSafeName [] r = sanitize_name-IsSafeName (derived_name r)
key_of-IsSafeName (c ∷ name) r = sanitize_name-IsSafeName (c ∷ name)

-- The key of a rule, given or derived, is made of lower case letters, digits, dashes and
-- underscores alone, and has no dash at either end.
pub key-IsSafeName : (r : FirewallRule) → IsSafeName (key r)
unfolding key
key-IsSafeName r = key_of-IsSafeName r.name r
