-- ===== src/Cluster/Registries/Sharing.antt =====
-- The registries of api/colonel-byte.dev/v1alpha1/cluster/spec.go against each other.
use mathlib.Core.Path.{subst}
use cargoship.Prelude.{
  String, ◌≡◌, refl, sym, ap, ◌∙◌, inl, inr, Bool, true, false, not, ◌&&◌, ◌||◌, List, [], ◌∷◌, any,
  arith, str_eq, eq_iff, eq_refl, Bool-cases, Option-cases, is_some,
}
use cargoship.Cluster.Registries.{
  Registry, Parsers, validate, config_host, same_registry_config, find_host, clashes, note_host,
  validate_loop, validate_registries,
}
use cargoship.Cluster.Registries.Sameness.{same_registry_config_swap}

abbrev every : (Registry → Bool) → List Registry → Bool
every t [] = true
every t (q ∷ qs) = t q && every t qs

-- Another name, and another host or the same configuration.
abbrev pub compatible : Parsers → Registry → Registry → Bool
compatible p q r =
    not (str_eq q.name r.name)
    && (not (str_eq (config_host p q) (config_host p r)) || same_registry_config q r)

-- Each entry is valid, and compatible with every one before it.
abbrev pub acceptable : Parsers → List Registry → List Registry → Bool
acceptable p before [] = true
acceptable p before (r ∷ rs) =
    not (is_some (validate p r))
    && (every (λ q. compatible p q r) before && acceptable p (r ∷ before) rs)

module _ (p : Parsers) where
  names : List Registry → List String
  names [] = []
  names (q ∷ qs) = q.name ∷ names qs

  hosts : List Registry → List (String × Registry)
  hosts [] = []
  hosts (q ∷ qs) = note_host (find_host (config_host p q) (hosts qs)) (config_host p q) q (hosts qs)

  -- No entry of the host has another configuration.
  abbrev agrees : String → Registry → List Registry → Bool
  agrees h r qs = every (λ q. not (str_eq (config_host p q) h) || same_registry_config q r) qs

  abbrev Consistent : List Registry → Type 0
  Consistent [] = Unit
  Consistent (q ∷ qs) = (agrees (config_host p q) q qs ≡ true) × Consistent qs

  agrees-hosts :
      (qs : List Registry)
      → Consistent qs
      → (h : String) (r : Registry) → agrees h r qs ≡ not (clashes (find_host h (hosts qs)) r)
  unfolding hosts find_host note_host
  agrees-hosts [] c h r = refl
  agrees-hosts (q ∷ qs) (a, c) h r = elim (Bool-cases (str_eq (config_host p q) h)) [
    | inr e ↦ elim (Option-cases (find_host (config_host p q) (hosts qs))) [
      | inl n ↦ rw (n, e) (agrees-hosts qs c h r)
      | inr (s, f) ↦ rw (f, e) (agrees-hosts qs c h r)
    ]
    | inl e ↦
        subst (λ k. agrees k r (q ∷ qs) ≡ not (clashes (find_host k (hosts (q ∷ qs))) r))
          (same_text (config_host p q) h e)
          (elim (Option-cases (find_host (config_host p q) (hosts qs))) [
            | inl n ↦
                rw (n, eq_refl (config_host p q), agrees-hosts qs c (config_host p q) r, n)
                  (twice (same_registry_config q r))
            | inr (s, f) ↦
                let t = twice_back (same_registry_config s q) (
                  sym (ap (λ o. not (clashes o q)) f)
                  ∙ sym (agrees-hosts qs c (config_host p q) q)
                  ∙ a) in
                rw
                  (
                    f,
                    eq_refl (config_host p q),
                    agrees-hosts qs c (config_host p q) r,
                    f,
                    same_registry_config_swap s q r t,
                  )
                  (absorbed (same_registry_config s r))
          ])
  ]
    where
      same_text : (x y : String) → str_eq x y ≡ true → x ≡ y
      same_text x y k = ground (arith, eq_iff x y)

      twice : (x : Bool) → (x && true) ≡ not (not x)
      twice true = refl
      twice false = refl

      twice_back : (x : Bool) → not (not x) ≡ true → x ≡ true
      twice_back true k = refl
      twice_back false k = k

      absorbed : (x : Bool) → (x && not (not x)) ≡ not (not x)
      absorbed true = refl
      absorbed false = refl

  any-names :
      (r : Registry) (qs : List Registry)
      → any (λ n. str_eq n r.name) (names qs) ≡ not (every (λ q. not (str_eq q.name r.name)) qs)
  unfolding names
  any-names r [] = refl
  any-names r (q ∷ qs) =
      rw (any-names r qs)
        (pulled (str_eq q.name r.name) (every (λ q. not (str_eq q.name r.name)) qs))
    where
      pulled : (x y : Bool) → (x || not y) ≡ not (not x && y)
      pulled true y = refl
      pulled false y = refl

  every-compatible :
      (r : Registry) (qs : List Registry)
      → every (λ q. compatible p q r) qs
        ≡ (every (λ q. not (str_eq q.name r.name)) qs && agrees (config_host p r) r qs)
  every-compatible r [] = refl
  every-compatible r (q ∷ qs) = rw (every-compatible r qs) (
      sorted (not (str_eq q.name r.name))
        (not (str_eq (config_host p q) (config_host p r)) || same_registry_config q r)
        (every (λ q. not (str_eq q.name r.name)) qs) (agrees (config_host p r) r qs))
    where
      sorted : (x y z t : Bool) → ((x && y) && (z && t)) ≡ ((x && z) && (y && t))
      sorted false y z t = refl
      sorted true false false t = refl
      sorted true false true t = refl
      sorted true true z t = refl

  validate_loop_lem :
      (qs rs : List Registry)
      → Consistent qs
      → not (is_some (validate_loop p (names qs) (hosts qs) rs)) ≡ acceptable p qs rs
  unfolding validate_loop names hosts
  validate_loop_lem qs [] c = refl
  validate_loop_lem qs (r ∷ rs) c = elim (Option-cases (validate p r)) [
    | inr (e, n) ↦ rw n refl
    | inl n ↦ elim (Bool-cases (every (λ q. not (str_eq q.name r.name)) qs)) [
      | inr x ↦ rw (n, every-compatible r qs, any-names r qs, x) refl
      | inl x ↦ elim (Bool-cases (agrees (config_host p r) r qs)) [
        | inr y ↦
            rw (n, every-compatible r qs, any-names r qs, x, y)
              (rw
                (no_to_yes (clashes (find_host (config_host p r) (hosts qs)) r)
                  (sym (agrees-hosts qs c (config_host p r) r) ∙ y))
                refl)
        | inl y ↦
            rw (n, every-compatible r qs, any-names r qs, x, y)
              (rw
                (yes_to_no (clashes (find_host (config_host p r) (hosts qs)) r)
                  (sym (agrees-hosts qs c (config_host p r) r) ∙ y))
                (validate_loop_lem (r ∷ qs) rs (y, c)))
      ]
    ]
  ]
    where
      no_to_yes : (x : Bool) → not x ≡ false → x ≡ true
      no_to_yes true k = refl
      no_to_yes false k = sym k

      yes_to_no : (x : Bool) → not x ≡ true → x ≡ false
      yes_to_no true k = sym k
      yes_to_no false k = refl

-- A list of registries is accepted exactly if each entry is valid, has another name than every entry
-- before it, and counts for `sameRegistryConfig` as the same as every entry before it that has the
-- same host.
pub validate_registries_lem :
    (p : Parsers) (rs : List Registry)
    → not (is_some (validate_registries p rs)) ≡ acceptable p [] rs
unfolding validate_registries names hosts
validate_registries_lem p rs = validate_loop_lem p [] rs tt
