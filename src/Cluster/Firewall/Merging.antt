-- ===== src/Cluster/Firewall/Merging.antt =====
-- `FirewallConfig.Merge` of api/colonel-byte.dev/v1alpha1/cluster/firewall.go, by the keys of the
-- rules.
use mathlib.Core.Path.{subst}
use cargoship.Prelude.{
  ◌≡◌, refl, sym, ◌∙◌, ap, inl, inr, Bool, true, false, ◌||◌, Option, none, some, List, [], ◌∷◌,
  ◌++◌, map, Bytes, append-nil, append_assoc, map-append, Bool-cases, arith, if◌then◌else◌,
}
use cargoship.Values.Tree.{same_bytes}
use cargoship.Values.Tree.Keys.{same_bytes_iff}
use cargoship.Phase.Removed.Detection.{any-append}
use cargoship.Cluster.Firewall.{FirewallRule, key, has_key, merge_loop, merge}

-- The rule that a list has under a key: the first of them.
abbrev pub rule_at : Bytes → List FirewallRule → Option FirewallRule
rule_at k [] = none
rule_at k (r ∷ rules) = if same_bytes (key r) k then some r else rule_at k rules

abbrev pub or_else : Option FirewallRule → Option FirewallRule → Option FirewallRule
or_else none o = o
or_else (some r) o = some r

abbrev pub keys : List FirewallRule → List Bytes
keys rules = map key rules

-- The map `defined` holds the keys of the rules.
abbrev pub Tracks : List Bytes → List FirewallRule → Type 0
Tracks defined rules = (k : Bytes) → has_key k defined ≡ has_key k (keys rules)

rule_at-append :
    (k : Bytes) (xs ys : List FirewallRule)
    → rule_at k (xs ++ ys) ≡ or_else (rule_at k xs) (rule_at k ys)
rule_at-append k [] ys = refl
rule_at-append k (r ∷ xs) ys = elim (Bool-cases (same_bytes (key r) k)) [
  | inl y ↦ rw y refl
  | inr n ↦ rw n (rule_at-append k xs ys)
]

-- A key that is there has a rule.
rule_at-has_key :
    (k : Bytes) (rules : List FirewallRule)
    → has_key k (keys rules) ≡ true
    → (r : FirewallRule) × (rule_at k rules ≡ some r)
rule_at-has_key k [] h = ground (arith, h)
rule_at-has_key k (r ∷ rules) h = elim (Bool-cases (same_bytes (key r) k)) [
  | inl y ↦ (r, rw y refl)
  | inr n ↦ let (s, e) = rule_at-has_key k rules (rw n at h) in (s, rw n e)
]

or_comm_false : (b : Bool) → (b || false) ≡ b
or_comm_false true = refl
or_comm_false false = refl

or_flip : (a b : Bool) → (a || b) ≡ (b || (a || false))
or_flip true true = refl
or_flip true false = refl
or_flip false true = refl
or_flip false false = refl

has_key-append :
    (k : Bytes) (rules : List FirewallRule) (r : FirewallRule)
    → has_key k (keys (rules ++ r ∷ []))
      ≡ (has_key k (keys rules) || (same_bytes (key r) k || false))
has_key-append k rules r =
    ap (has_key k) (map-append key rules (r ∷ []))
    ∙ any-append (λ j. same_bytes j k) (keys rules) (key r ∷ [])

pub Tracks-append :
    (defined : List Bytes) (rules : List FirewallRule) (r : FirewallRule)
    → Tracks defined rules
    → Tracks (key r ∷ defined) (rules ++ r ∷ [])
Tracks-append defined rules r t k =
    ap (λ b. same_bytes (key r) k || b) (t k)
    ∙ or_flip (same_bytes (key r) k) (has_key k (keys rules))
    ∙ sym (has_key-append k rules r)

module _ (defined : List Bytes) (rules : List FirewallRule) (r : FirewallRule)
    (update : List FirewallRule) where
  pub merge_known :
      has_key (key r) defined ≡ true
      → merge_loop defined rules (r ∷ update) ≡ merge_loop defined rules update
  unfolding merge_loop
  merge_known y = rw (y, merge_loop)

  pub merge_new :
      has_key (key r) defined ≡ false
      → merge_loop defined rules (r ∷ update)
        ≡ merge_loop (key r ∷ defined) (rules ++ r ∷ []) update
  unfolding merge_loop
  merge_new n = rw (n, merge_loop)

or_else-none : (o : Option FirewallRule) → or_else o none ≡ o
or_else-none none = refl
or_else-none (some r) = refl

or_else_assoc : (a b c : Option FirewallRule) → or_else (or_else a b) c ≡ or_else a (or_else b c)
or_else_assoc none b c = refl
or_else_assoc (some r) b c = refl

-- A rule whose key is there already is never found.
rule_at_hidden :
    (k : Bytes) (rules : List FirewallRule) (r : FirewallRule) (update : List FirewallRule)
    → has_key (key r) (keys rules) ≡ true
    → or_else (rule_at k rules) (rule_at k update)
      ≡ or_else (rule_at k rules) (rule_at k (r ∷ update))
rule_at_hidden k rules r update h = elim (Bool-cases (same_bytes (key r) k)) [
  | inl y ↦
      let (s, e) = rule_at-has_key (key r) rules h in
      let e' : rule_at k rules ≡ some s =
        subst (λ j. rule_at j rules ≡ some s) ((same_bytes_iff (key r) k).0 y) e in
      rw e' refl
  | inr n ↦ rw n refl
]

merge_loop_added :
    (defined : List Bytes) (rules update : List FirewallRule)
    → (added : List FirewallRule) × (merge_loop defined rules update ≡ rules ++ added)
unfolding merge_loop
merge_loop_added defined rules [] = ([], sym (append-nil rules))
merge_loop_added defined rules (r ∷ update) = elim (Bool-cases (has_key (key r) defined)) [
  | inl y ↦
      let (added, e) = merge_loop_added defined rules update in
      (added, merge_known defined rules r update y ∙ e)
  | inr n ↦
      let (added, e) = merge_loop_added (key r ∷ defined) (rules ++ r ∷ []) update in
      (r ∷ added, merge_new defined rules r update n ∙ e ∙ append_assoc rules (r ∷ []) added)
]

rule_at-merge_loop :
    (k : Bytes) (defined : List Bytes) (rules update : List FirewallRule)
    → Tracks defined rules
    → rule_at k (merge_loop defined rules update) ≡ or_else (rule_at k rules) (rule_at k update)
unfolding merge_loop
rule_at-merge_loop k defined rules [] t = sym (or_else-none (rule_at k rules))
rule_at-merge_loop k defined rules (r ∷ update) t = elim (Bool-cases (has_key (key r) defined)) [
  | inl y ↦
      ap (rule_at k) (merge_known defined rules r update y)
      ∙ rule_at-merge_loop k defined rules update t
      ∙ rule_at_hidden k rules r update (sym (t (key r)) ∙ y)
  | inr n ↦
      ap (rule_at k) (merge_new defined rules r update n)
      ∙ rule_at-merge_loop k (key r ∷ defined) (rules ++ r ∷ []) update
          (Tracks-append defined rules r t)
      ∙ ap (λ o. or_else o (rule_at k update)) (rule_at-append k rules (r ∷ []))
      ∙ or_else_assoc (rule_at k rules) (rule_at k (r ∷ [])) (rule_at k update)
      ∙ ap (or_else (rule_at k rules)) (sym (rule_at-append k (r ∷ []) update))
]

-- Merging keeps the host's rules, in their order, at the front, and under each key the merged rules
-- hold the host's rule where it has one, and else the first one of the profile's that has the key.
pub rule_at-merge :
    (k : Bytes) (rules update : List FirewallRule)
    → (rule_at k (merge rules update) ≡ or_else (rule_at k rules) (rule_at k update))
      × ((added : List FirewallRule) × (merge rules update ≡ rules ++ added))
unfolding merge
rule_at-merge k rules [] = (sym (or_else-none (rule_at k rules)), ([], sym (append-nil rules)))
rule_at-merge k rules (r ∷ update) = (
  rule_at-merge_loop k (keys rules) rules (r ∷ update) (λ j. refl),
  merge_loop_added (keys rules) rules (r ∷ update),
)
