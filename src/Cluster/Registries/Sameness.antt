-- ===== src/Cluster/Registries/Sameness.antt =====
-- Lemmas on `sameRegistryConfig` of api/colonel-byte.dev/v1alpha1/cluster/spec.go.
use mathlib.Core.Path.{subst}
use cargoship.Prelude.{
  ◌≡◌, refl, sym, ap, ◌∙◌, inl, inr, Bool, true, false, not, ◌&&◌, ◌||◌, Option, none, some, arith,
  eq_iff, eq_refl, Bool-cases, if◌then◌else◌,
}
use cargoship.Cluster.Registries.{
  RegistryAuth, RegistryTls, Registry, same_auth, same_bool, same_tls, all_sealed, auth_refused,
  is_blank, same_registry_config,
}

same_auth_equal : (a b : RegistryAuth) → same_auth a b ≡ true → a ≡ b
same_auth_equal a b h =
    let u : a.username ≡ b.username = ground (arith, eq_iff a.username b.username) in
    let v : a.password ≡ b.password = ground (arith, eq_iff a.password b.password) in
    let w : a.token ≡ b.token = ground (arith, eq_iff a.token b.token) in
    λ i. record { username = u i; password = v i; token = w i }

same_tls_equal : (s t : Option RegistryTls) → same_tls s t ≡ true → s ≡ t
same_tls_equal none none h = refl
same_tls_equal none (some t) h = ground arith
same_tls_equal (some s) none h = ground arith
same_tls_equal (some s) (some t) h =
    let a : s.ca ≡ t.ca = ground (arith, eq_iff s.ca t.ca) in
    let b : s.ca_file ≡ t.ca_file = ground (arith, eq_iff s.ca_file t.ca_file) in
    let c : s.cert_file ≡ t.cert_file = ground (arith, eq_iff s.cert_file t.cert_file) in
    let d : s.key_file ≡ t.key_file = ground (arith, eq_iff s.key_file t.key_file) in
    let e : s.insecure_skip_verify ≡ t.insecure_skip_verify =
      same_bool_equal s.insecure_skip_verify t.insecure_skip_verify (ground arith) in
    λ i. some (record {
      ca = a i;
      ca_file = b i;
      cert_file = c i;
      key_file = d i;
      insecure_skip_verify = e i;
    })
  where
    same_bool_equal : (x y : Bool) → same_bool x y ≡ true → x ≡ y
    same_bool_equal true y h = sym h
    same_bool_equal false true h = ground arith
    same_bool_equal false false h = refl

abbrev let_through : RegistryAuth → RegistryAuth → Bool
let_through a b = not (not (same_auth a b) && auth_refused a b)

-- Credentials that are all encrypted or empty, without a token.
abbrev hidden : RegistryAuth → Bool
hidden a = all_sealed a && is_blank a.token

pushed :
    (s x y u v : Bool)
    → not (not s && (not x || (not y || (not u || not v)))) ≡ (s || ((x && u) && (y && v)))
pushed true x y u v = refl
pushed false false y u v = refl
pushed false true false u v = ground arith
pushed false true true u v = ground arith

let_through_lem : (a b : RegistryAuth) → let_through a b ≡ (same_auth a b || (hidden a && hidden b))
unfolding auth_refused
let_through_lem a b =
    pushed (same_auth a b) (all_sealed a) (all_sealed b) (is_blank a.token) (is_blank b.token)

same_auth_self : (a : RegistryAuth) → same_auth a a ≡ true
same_auth_self a = rw (eq_refl a.username, eq_refl a.password, eq_refl a.token) refl

let_through_self : (a : RegistryAuth) → let_through a a ≡ true
let_through_self a = let_through_lem a a ∙ rw (same_auth_self a) refl

swapped :
    (x y z s t : Bool)
    → s ≡ false
    → t ≡ false
    → (false || (x && y)) ≡ true
    → (s || (y && z)) ≡ (t || (x && z))
swapped true true z s t h k e = rw (h, k) refl
swapped true false z s t h k e = ground arith
swapped false y z s t h k e = ground arith

let_through_swap :
    (a b c : RegistryAuth) → let_through a b ≡ true → let_through b c ≡ let_through a c
let_through_swap a b c h = elim (Bool-cases (same_auth a b)) [
  | inl e ↦ ap (λ x. let_through x c) (sym (same_auth_equal a b e))
  | inr n ↦
      let g = subst (λ s. (s || (hidden a && hidden b)) ≡ true) n (sym (let_through_lem a b) ∙ h) in
      elim (Bool-cases (same_auth b c)) [
        | inl e ↦
            subst (λ x. let_through b x ≡ let_through a x) (same_auth_equal b c e)
              (let_through_self b ∙ sym h)
        | inr m ↦ elim (Bool-cases (same_auth a c)) [
          | inl e ↦
              subst (λ x. let_through b x ≡ let_through a x) (same_auth_equal a c e)
                (through_back g)
          | inr o ↦
              let_through_lem b c
              ∙ swapped (hidden a) (hidden b) (hidden c) (same_auth b c) (same_auth a c) m o g
              ∙ sym (let_through_lem a c)
        ]
      ]
]
  where
    both : (s x y : Bool) → (false || (x && y)) ≡ true → (s || (y && x)) ≡ true
    both s true true e = ground arith
    both s true false e = ground arith
    both s false y e = ground arith

    through_back : (false || (hidden a && hidden b)) ≡ true → let_through b a ≡ let_through a a
    through_back g =
        let_through_lem b a
        ∙ both (same_auth b a) (hidden a) (hidden b) g
        ∙ sym (let_through_self a)

same_registry_config_lem :
    (a b : Registry)
    → same_registry_config a b
      ≡ (let_through a.authentication b.authentication && same_tls a.tls b.tls)
unfolding same_registry_config
same_registry_config_lem a b =
    chosen
      (not (same_auth a.authentication b.authentication)
        && auth_refused a.authentication b.authentication)
      (same_tls a.tls b.tls)
  where
    chosen : (x y : Bool) → (if x then false else y) ≡ (not x && y)
    chosen true y = refl
    chosen false y = refl

-- What is compatible with an entry is compatible with one that has the same configuration.
pub same_registry_config_swap :
    (a b c : Registry)
    → same_registry_config a b ≡ true
    → same_registry_config b c ≡ same_registry_config a c
same_registry_config_swap a b c h =
    let g = sym (same_registry_config_lem a b) ∙ h in
    let l =
      let_through_swap a.authentication b.authentication c.authentication
        (fst_true (let_through a.authentication b.authentication) (same_tls a.tls b.tls) g) in
    let t =
      same_tls_equal a.tls b.tls
        (snd_true (let_through a.authentication b.authentication) (same_tls a.tls b.tls) g) in
    same_registry_config_lem b c
    ∙ (λ i. l i && same_tls (sym t i) c.tls)
    ∙ sym (same_registry_config_lem a c)
  where
    fst_true : (x y : Bool) → (x && y) ≡ true → x ≡ true
    fst_true true y e = refl
    fst_true false y e = ground arith

    snd_true : (x y : Bool) → (x && y) ≡ true → y ≡ true
    snd_true true y e = e
    snd_true false y e = ground arith
