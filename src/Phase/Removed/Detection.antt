-- ===== src/Phase/Removed/Detection.antt =====
-- Which nodes pkg/phase/13_detect_removed_hosts.go reports, and when it stops an apply.
use mathlib.Core.List.{Perm}
use mathlib.Core.List.Perm
use mathlib.Core.Path.{subst}
use cargoship.Prelude.{
  ◌≡◌, ◌↔◌, ◌⊎◌, refl, sym, ◌∙◌, ap, inl, inr, Bool, true, false, not, ◌&&◌, ◌||◌, none, some, List,
  [], ◌∷◌, ◌++◌, map, any, Bytes, Bool-cases, arith, if◌then◌else◌,
}
use cargoship.Values.Tree.{same_bytes}
use cargoship.Phase.Removed.{
  Identity, KubectlNode, to_lower, contains, identifiers, known_ids, known_of, known_address,
  is_known_node, described, unmanaged_loop, text_le, insert_text, sort_texts, unmanaged_nodes,
  refuse, detect,
}

abbrev is_empty : Bytes → Bool
is_empty [] = true
is_empty (c ∷ s) = false

-- An identifier of a host names an identifier of a node.
abbrev pub names : Bytes → Bytes → Bool
names id other = not (is_empty id) && same_bytes (to_lower id) (to_lower other)

-- Some identifier of some host names this one.
abbrev pub named : List Identity → Bytes → Bool
named hosts other = any (λ h. any (λ id. names id other) (identifiers h)) hosts

-- Some identifier of some host names some identifier of the node.
abbrev pub accounted : List Identity → KubectlNode → Bool
accounted hosts node = any (named hosts) (node.name ∷ node.addresses)

-- The nodes that no host accounts for, in their order in the list.
abbrev pub unaccounted : List Identity → List KubectlNode → List KubectlNode
unaccounted hosts [] = []
unaccounted hosts (node ∷ nodes) =
    let rest = unaccounted hosts nodes in if accounted hosts node then rest else node ∷ rest

or_assoc : (a b c : Bool) → (a || b) || c ≡ a || (b || c)
or_assoc true b c = refl
or_assoc false b c = refl

pub any-append {ℓ} :
    {A : Type ℓ} (p : A → Bool) (xs ys : List A) → any p (xs ++ ys) ≡ any p xs || any p ys
any-append p [] ys = refl
any-append p (x ∷ xs) ys = rw (any-append p xs ys) (sym (or_assoc (p x) (any p xs) (any p ys)))

contains-known_ids :
    (other : Bytes) (ids : List Bytes)
    → contains (to_lower other) (known_ids ids) ≡ any (λ id. names id other) ids
unfolding known_ids
contains-known_ids other [] = refl
contains-known_ids other ([] ∷ ids) = contains-known_ids other ids
contains-known_ids other ((c ∷ id) ∷ ids) =
    ap (λ b. same_bytes (to_lower (c ∷ id)) (to_lower other) || b) (contains-known_ids other ids)

contains-known_of :
    (other : Bytes) (hosts : List Identity)
    → contains (to_lower other) (known_of hosts) ≡ named hosts other
unfolding known_of
contains-known_of other [] = refl
contains-known_of other (h ∷ hosts) =
    any-append (λ l. same_bytes l (to_lower other)) (known_ids (identifiers h)) (known_of hosts)
    ∙ ap (λ b. b || contains (to_lower other) (known_of hosts))
        (contains-known_ids other (identifiers h))
    ∙ ap (λ b. any (λ id. names id other) (identifiers h) || b) (contains-known_of other hosts)

names-nil : (id : Bytes) → names id [] ≡ false
unfolding to_lower
names-nil [] = refl
names-nil (c ∷ id) = refl

any-false {ℓ} :
    {A : Type ℓ} (p : A → Bool) (xs : List A) → ((x : A) → p x ≡ false) → any p xs ≡ false
any-false p [] h = refl
any-false p (x ∷ xs) h = rw (h x) (any-false p xs h)

named-nil : (hosts : List Identity) → named hosts [] ≡ false
named-nil hosts = any-false _ hosts (λ h. any-false (λ id. names id []) (identifiers h) names-nil)

pub if-or : (a b : Bool) → (if a then true else b) ≡ a || b
if-or true b = refl
if-or false b = refl

known_address_lem :
    (hosts : List Identity) (addresses : List Bytes)
    → known_address (known_of hosts) addresses ≡ any (named hosts) addresses
unfolding known_address
known_address_lem hosts [] = refl
known_address_lem hosts ([] ∷ addresses) =
    known_address_lem hosts addresses
    ∙ ap (λ b. b || any (named hosts) addresses) (sym (named-nil hosts))
known_address_lem hosts ((c ∷ a) ∷ addresses) =
    rw (contains-known_of (c ∷ a) hosts, known_address_lem hosts addresses)
      (if-or (named hosts (c ∷ a)) (any (named hosts) addresses))

is_known_node-accounted :
    (hosts : List Identity) (node : KubectlNode)
    → is_known_node node (known_of hosts) ≡ accounted hosts node
unfolding is_known_node
is_known_node-accounted hosts node =
    rw (contains-known_of node.name hosts, known_address_lem hosts node.addresses)
      (if-or (named hosts node.name) (any (named hosts) node.addresses))

unmanaged_loop_lem :
    (hosts : List Identity) (nodes : List KubectlNode)
    → unmanaged_loop (known_of hosts) nodes ≡ map described (unaccounted hosts nodes)
unfolding unmanaged_loop
unmanaged_loop_lem hosts [] = refl
unmanaged_loop_lem hosts (node ∷ nodes) = elim (Bool-cases (accounted hosts node)) [
  | inl e ↦ rw (is_known_node-accounted hosts node) (rw e (unmanaged_loop_lem hosts nodes))
  | inr e ↦
      rw (is_known_node-accounted hosts node)
        (rw e (ap (λ us. described node ∷ us) (unmanaged_loop_lem hosts nodes)))
]

insert_text-perm : (t : Bytes) (ts : List Bytes) → Perm (insert_text t ts) (t ∷ ts)
unfolding insert_text
insert_text-perm t [] = Perm.refl (t ∷ [])
insert_text-perm t (u ∷ us) = elim (Bool-cases (text_le t u)) [
  | inl e ↦ rw e (Perm.refl (t ∷ (u ∷ us)))
  | inr e ↦ rw e (Perm.trans (Perm.cons u (insert_text-perm t us)) (Perm.swap _ _ _))
]

sort_texts-perm : (ts : List Bytes) → Perm (sort_texts ts) ts
unfolding sort_texts
sort_texts-perm [] = Perm.refl []
sort_texts-perm (t ∷ ts) =
    Perm.trans (insert_text-perm t (sort_texts ts)) (Perm.cons t (sort_texts-perm ts))

-- The reported nodes are, up to their order, the descriptions of exactly the nodes that no host
-- accounts for: those of which no identifier is, but for its case, one of a host's that is not empty.
pub unmanaged_nodes-perm :
    (hosts : List Identity) (nodes : List KubectlNode)
    → Perm (unmanaged_nodes hosts nodes) (map described (unaccounted hosts nodes))
unfolding unmanaged_nodes
unmanaged_nodes-perm hosts nodes =
    subst (λ us. Perm (unmanaged_nodes hosts nodes) us) (unmanaged_loop_lem hosts nodes)
      (sort_texts-perm (unmanaged_loop (known_of hosts) nodes))

insert_text_nonempty : (t : Bytes) (ts : List Bytes) → insert_text t ts ≡ [] → ⊥
unfolding insert_text
insert_text_nonempty t [] h = ground arith
insert_text_nonempty t (u ∷ us) h = ground arith

sort_texts-nil : (ts : List Bytes) → sort_texts ts ≡ [] → ts ≡ []
unfolding sort_texts
sort_texts-nil [] h = refl
sort_texts-nil (t ∷ ts) h = absurd (insert_text_nonempty t (sort_texts ts) h)

map-nil {ℓ κ} : {A : Type ℓ} {B : Type κ} (f : A → B) (xs : List A) → map f xs ≡ [] → xs ≡ []
map-nil f [] h = refl
map-nil f (x ∷ xs) h = ground arith

refuse-none : (allow : Bool) (us : List Bytes) → refuse allow us ≡ none → (allow ≡ true) ⊎ (us ≡ [])
unfolding refuse
refuse-none allow [] h = inr refl
refuse-none true (u ∷ us) h = inl refl
refuse-none false (u ∷ us) h = ground arith

refuse_allowed : (us : List Bytes) → refuse true us ≡ none
unfolding refuse
refuse_allowed [] = refl
refuse_allowed (u ∷ us) = refl

-- Where the nodes could be listed, the phase lets the apply go on exactly if unmanaged nodes are
-- allowed or each node is accounted for by some host.
detect-none :
    (allow : Bool) (hosts : List Identity) (nodes : List KubectlNode)
    → (detect allow hosts (some nodes) ≡ none) ↔ ((allow ≡ true) ⊎ (unaccounted hosts nodes ≡ []))
unfolding detect unmanaged_nodes
detect-none allow hosts nodes = (passes, goes_on)
  where
    passes :
        detect allow hosts (some nodes) ≡ none → (allow ≡ true) ⊎ (unaccounted hosts nodes ≡ [])
    passes h = elim (refuse-none allow (unmanaged_nodes hosts nodes) h) [
      | inl e ↦ inl e
      | inr e ↦ inr (
          map-nil described (unaccounted hosts nodes) (
            sym (unmanaged_loop_lem hosts nodes)
            ∙ sort_texts-nil (unmanaged_loop (known_of hosts) nodes) e))
    ]

    goes_on :
        (allow ≡ true) ⊎ (unaccounted hosts nodes ≡ []) → detect allow hosts (some nodes) ≡ none
    goes_on (inl e) = rw e (refuse_allowed (unmanaged_nodes hosts nodes))
    goes_on (inr e) =
        ap (λ us. refuse allow (sort_texts us))
          (unmanaged_loop_lem hosts nodes ∙ ap (map described) e)
