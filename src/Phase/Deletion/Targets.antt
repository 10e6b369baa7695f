-- ===== src/Phase/Deletion/Targets.antt =====
-- `CheckTargetHosts` of pkg/phase/85_delete_common.go, and the hosts that the phases select.
use cargoship.Prelude.{
  ◌≡◌, ◌↔◌, ◌⊎◌, refl, sym, ◌∙◌, ap, inl, inr, Bool, true, ◌||◌, none, List, [], ◌∷◌, Bytes, All,
  All-mono, any, Bool-cases, arith,
}
use cargoship.Overrides.{equal_fold}
use cargoship.Phase.Removed.Detection.{any-append}
use cargoship.Phase.Deletion.Nodes.{Host}
use cargoship.Phase.Deletion.{
  filter, host_identifiers, matches_target_host, filter_target_hosts, known_names, unmatched,
  check_unmatched, check_target_hosts,
}

-- The target is one of the names that some host of the list answers to.
abbrev pub is_named : List Host → Bytes → Bool
is_named hosts t = any (λ h. any (equal_fold t) (host_identifiers h)) hosts

abbrev pub EmptyOr : (Bytes → Bool) → Bytes → Type 0
EmptyOr test t = (t ≡ []) ⊎ (test t ≡ true)

any-known_names :
    (t : Bytes) (hosts : List Host) → any (equal_fold t) (known_names hosts) ≡ is_named hosts t
unfolding known_names
any-known_names t [] = refl
any-known_names t (h ∷ hosts) =
    any-append (equal_fold t) (host_identifiers h) (known_names hosts)
    ∙ ap (λ b. any (equal_fold t) (host_identifiers h) || b) (any-known_names t hosts)

unmatched-All :
    (known targets : List Bytes)
    → unmatched known targets ≡ []
    → All (EmptyOr (λ t. any (equal_fold t) known)) targets
unfolding unmatched
unmatched-All known [] e = tt
unmatched-All known ([] ∷ targets) e = (inl refl, unmatched-All known targets e)
unmatched-All known ((c ∷ t) ∷ targets) e = elim (Bool-cases (any (equal_fold (c ∷ t)) known)) [
  | inl y ↦ (inr y, unmatched-All known targets (rw y at e))
  | inr n ↦ ground (arith, rw n at e)
]

unmatched-nil :
    (known targets : List Bytes)
    → All (EmptyOr (λ t. any (equal_fold t) known)) targets
    → unmatched known targets ≡ []
unfolding unmatched
unmatched-nil known [] hyps = refl
unmatched-nil known ([] ∷ targets) (e, es) = unmatched-nil known targets es
unmatched-nil known ((c ∷ t) ∷ targets) (inl e, es) = ground (arith, e)
unmatched-nil known ((c ∷ t) ∷ targets) (inr e, es) = rw e (unmatched-nil known targets es)

check_unmatched-nil : (known us : List Bytes) → check_unmatched known us ≡ none → us ≡ []
unfolding check_unmatched
check_unmatched-nil known [] e = refl
check_unmatched-nil known (u ∷ us) e = ground (arith, e)

-- A target that is not empty selects each host that answers to it.
abbrev Selects : List Bytes → Bytes → Type 0
Selects targets t =
    (t ≡ [])
    ⊎ ((h : Host)
        → any (equal_fold t) (host_identifiers h) ≡ true
        → matches_target_host h targets ≡ true)

Selects-first : (t : Bytes) (targets : List Bytes) → Selects (t ∷ targets) t
unfolding matches_target_host
Selects-first [] targets = inl refl
Selects-first (c ∷ t) targets = inr (λ h e. rw e refl)

matches_more :
    (h : Host) (t : Bytes) (targets : List Bytes)
    → matches_target_host h targets ≡ true
    → matches_target_host h (t ∷ targets) ≡ true
unfolding matches_target_host
matches_more h [] targets e = e
matches_more h (c ∷ t) targets e = rw e (ground arith)

Selects-more :
    (u : Bytes) (targets : List Bytes) (t : Bytes) → Selects targets t → Selects (u ∷ targets) t
Selects-more u targets t (inl e) = inl e
Selects-more u targets t (inr f) = inr (λ h e. matches_more h u targets (f h e))

Selects-All : (targets : List Bytes) → All (Selects targets) targets
Selects-All [] = tt
Selects-All (t ∷ targets) = (
  Selects-first t targets,
  All-mono (Selects targets) (Selects (t ∷ targets)) targets (Selects-more t targets)
      (Selects-All targets),
)

is_named-filter :
    (t : Bytes) (q : Host → Bool) (hosts : List Host)
    → ((h : Host) → any (equal_fold t) (host_identifiers h) ≡ true → q h ≡ true)
    → is_named (filter q hosts) t ≡ is_named hosts t
unfolding filter
is_named-filter t q [] imp = refl
is_named-filter t q (h ∷ hosts) imp = elim (Bool-cases (any (equal_fold t) (host_identifiers h))) [
  | inl y ↦ rw (imp h y) (rw y refl)
  | inr n ↦ elim (Bool-cases (q h)) [
    | inl y ↦ rw y (rw n (is_named-filter t q hosts imp))
    | inr m ↦ rw m (rw n (is_named-filter t q hosts imp))
  ]
]

EmptyOr-carry :
    (p q : Bytes → Bool) (t : Bytes) → (t ≡ []) ⊎ (p t ≡ q t) → EmptyOr p t → EmptyOr q t
EmptyOr-carry p q t (inl e) h = inl e
EmptyOr-carry p q t (inr e) (inl f) = inl f
EmptyOr-carry p q t (inr e) (inr h) = inr (sym e ∙ h)

All-carry :
    (p q : Bytes → Bool) (ts : List Bytes)
    → All (λ t. (t ≡ []) ⊎ (p t ≡ q t)) ts
    → All (EmptyOr p) ts
    → All (EmptyOr q) ts
All-carry p q [] same hyps = tt
All-carry p q (t ∷ ts) (e, same) (h, hyps) = (EmptyOr-carry p q t e h, All-carry p q ts same hyps)

module _ (hosts : List Host) (targets : List Bytes) where
  selected : List Host
  selected = filter (λ h. matches_target_host h targets) hosts

  -- The known names and the selected hosts answer to the same targets.
  known_answers :
      (t : Bytes)
      → Selects targets t
      → (t ≡ []) ⊎ (any (equal_fold t) (known_names hosts) ≡ is_named selected t)
  unfolding selected
  known_answers t (inl e) = inl e
  known_answers t (inr f) = inr (
      any-known_names t hosts
      ∙ sym (is_named-filter t (λ h. matches_target_host h targets) hosts f))

  selected_answers :
      (t : Bytes)
      → Selects targets t
      → (t ≡ []) ⊎ (is_named selected t ≡ any (equal_fold t) (known_names hosts))
  selected_answers t s = elim (known_answers t s) [ inl e ↦ inl e | inr e ↦ inr (sym e) ]

-- Targets are accepted exactly if each is the empty text, or but for its case a name that one of
-- the hosts answers to that the phases then go through.
pub check_target_hosts_lem :
    (hosts : List Host) (targets : List Bytes)
    → (check_target_hosts hosts targets ≡ none)
      ↔ All (EmptyOr (is_named (filter_target_hosts hosts targets))) targets
unfolding check_target_hosts filter_target_hosts selected check_unmatched
check_target_hosts_lem hosts [] = ((λ e. tt), (λ e. refl))
check_target_hosts_lem hosts (t ∷ targets) = (accepted, covered)
  where
    all : List Bytes
    all = t ∷ targets

    accepted :
        check_unmatched (known_names hosts) (unmatched (known_names hosts) all) ≡ none
        → All (EmptyOr (is_named (selected hosts all))) all
    accepted e =
        All-carry _ _ all (All-mono (Selects all) _ all (known_answers hosts all) (Selects-All all))
          (unmatched-All (known_names hosts) all
            (check_unmatched-nil (known_names hosts) (unmatched (known_names hosts) all) e))

    covered :
        All (EmptyOr (is_named (selected hosts all))) all
        → check_unmatched (known_names hosts) (unmatched (known_names hosts) all) ≡ none
    covered hyps = ap (check_unmatched (known_names hosts)) (
        unmatched-nil (known_names hosts) all (
          All-carry _ _ all
            (All-mono (Selects all) _ all (selected_answers hosts all) (Selects-All all)) hyps))
