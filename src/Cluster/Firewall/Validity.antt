-- ===== src/Cluster/Firewall/Validity.antt =====
-- `FirewallConfig.Validate` of api/colonel-byte.dev/v1alpha1/cluster/firewall.go, behind a merge.
use cargoship.Prelude.{
  ◌≡◌, refl, sym, ◌∙◌, ap, inl, inr, Bool, true, false, ◌||◌, Option, none, some, List, [], ◌∷◌,
  ◌++◌, Bytes, All, Bool-cases, arith,
}
use cargoship.Values.Tree.{same_bytes}
use cargoship.Cluster.Firewall.{
  FirewallRule, FirewallError, Nets, key, validate_rule, has_key, after_rule, validate_loop,
  validate, merge_loop, merge,
}
use cargoship.Cluster.Firewall.Merging.{keys, Tracks, Tracks-append, merge_known, merge_new}

after_rule-none :
    (o : Option FirewallError) (seen : Bool) (rest : Option FirewallError)
    → after_rule o seen rest ≡ none
    → (o ≡ none) × (seen ≡ false) × (rest ≡ none)
unfolding after_rule
after_rule-none (some e) seen rest h = ground (arith, h)
after_rule-none none true rest h = ground (arith, h)
after_rule-none none false rest h = (refl, refl, h)

neither : (a b : Bool) → (a || b) ≡ false → (a ≡ false) × (b ≡ false)
neither true b h = ground (arith, h)
neither false b h = (refl, h)

moved : (a b c : Bool) → (a || (b || c)) ≡ false → ((b || a) || c) ≡ false
moved true b c h = ground (arith, h)
moved false true c h = ground (arith, h)
moved false false c h = h

-- A valid rule with a new key may be put behind valid rules.
validate-append :
    (nets : Nets) (seen : List Bytes) (rules : List FirewallRule) (r : FirewallRule)
    → validate_loop nets seen rules ≡ none
    → validate_rule nets r ≡ none
    → (has_key (key r) seen || has_key (key r) (keys rules)) ≡ false
    → validate_loop nets seen (rules ++ r ∷ []) ≡ none
unfolding validate_loop after_rule
validate-append nets seen [] r h v fresh =
    rw v (rw (neither (has_key (key r) seen) false fresh).0 refl)
validate-append nets seen (x ∷ rules) r h v fresh =
    let (a, b, c) =
      after_rule-none (validate_rule nets x) (has_key (key x) seen)
        (validate_loop nets (key x ∷ seen) rules) h in
    rw a (
      rw b (
        validate-append nets (key x ∷ seen) rules r c v (
          moved (has_key (key r) seen) (same_bytes (key x) (key r)) (has_key (key r) (keys rules))
            fresh)))

merge_loop_valid :
    (nets : Nets) (defined : List Bytes) (rules update : List FirewallRule)
    → Tracks defined rules
    → validate_loop nets [] rules ≡ none
    → All (λ r. validate_rule nets r ≡ none) update
    → validate_loop nets [] (merge_loop defined rules update) ≡ none
unfolding merge_loop
merge_loop_valid nets defined rules [] t h vs = h
merge_loop_valid nets defined rules (r ∷ update) t h (v, vs) =
    elim (Bool-cases (has_key (key r) defined)) [
      | inl y ↦
          ap (validate_loop nets []) (merge_known defined rules r update y)
          ∙ merge_loop_valid nets defined rules update t h vs
      | inr n ↦
          ap (validate_loop nets []) (merge_new defined rules r update n)
          ∙ merge_loop_valid nets (key r ∷ defined) (rules ++ r ∷ []) update
              (Tracks-append defined rules r t)
              (validate-append nets [] rules r h v (sym (t (key r)) ∙ n)) vs
    ]

-- Rules that are accepted are still accepted once they are merged with others of which each by
-- itself is valid, whatever keys these have.
pub validate-merge :
    (nets : Nets) (rules update : List FirewallRule)
    → validate nets rules ≡ none
    → All (λ r. validate_rule nets r ≡ none) update
    → validate nets (merge rules update) ≡ none
unfolding validate merge
validate-merge nets rules [] h vs = h
validate-merge nets rules (r ∷ update) h vs =
    merge_loop_valid nets (keys rules) rules (r ∷ update) (λ k. refl) h vs
