-- ===== src/Phase/Deletion/Nodes/Matching.antt =====
-- `matchNodesToHosts` of pkg/phase/04_node_names.go against a search over the printed lines.
use mathlib.Core.Path.{subst}
use cargoship.Prelude.{
  ◌≡◌, refl, sym, ◌∙◌, ap, inl, inr, String, Bool, true, false, ◌&&◌, ◌||◌, Option, none, some,
  List, [], ◌∷◌, Bytes, map, any, str_eq, eq_iff, Bool-cases, Option-cases, arith, if◌then◌else◌,
}
use cargoship.Values.Tree.{same_bytes}
use cargoship.Phase.Removed.{to_lower}
use cargoship.Phase.Removed.Detection.{if-or}
use cargoship.Phase.Deletion.Nodes.{
  Host, fields_of, split_lines, known_by, identity_loop, host_matches_identities, lookup_node,
  match_host, match_hosts, match_line, match_lines, match_nodes_to_hosts,
}

abbrev pub is_given : Bytes → Bool
is_given [] = false
is_given (c ∷ s) = true

-- One of what the host is known by, not empty, is but for its case one of the fields.
abbrev pub shares : Host → List Bytes → Bool
shares h fields =
    any (λ id. is_given id && any (λ f. same_bytes (to_lower f) (to_lower id)) fields) (known_by h)

abbrev is_called : String → List Bytes → Host → Bool
is_called k fields h = str_eq h.entry.name k && shares h fields

-- The first field of the first line that shares a field with a host of this name.
abbrev pub node_for : String → List Host → List (List Bytes) → Option Bytes
node_for k hosts [] = none
node_for k hosts ([] ∷ lines) = node_for k hosts lines
node_for k hosts ((node ∷ fields) ∷ lines) =
    let rest = node_for k hosts lines in
    if any (is_called k (node ∷ fields)) hosts then some node else rest

abbrev or_else : Option Bytes → Option Bytes → Option Bytes
or_else none o = o
or_else (some b) o = some b

any-map {ℓ κ} :
    {A : Type ℓ} {B : Type κ} (p : B → Bool) (f : A → B) (xs : List A)
    → any p (map f xs) ≡ any (λ x. p (f x)) xs
any-map p f [] = refl
any-map p f (x ∷ xs) = ap (λ b. p (f x) || b) (any-map p f xs)

identity_loop_lem :
    (ids fields : List Bytes)
    → identity_loop ids (map to_lower fields)
      ≡ any (λ id. is_given id && any (λ f. same_bytes (to_lower f) (to_lower id)) fields) ids
unfolding identity_loop
identity_loop_lem [] fields = refl
identity_loop_lem ([] ∷ ids) fields = identity_loop_lem ids fields
identity_loop_lem ((c ∷ id) ∷ ids) fields =
    rw
      (
        any-map (λ l. same_bytes l (to_lower (c ∷ id))) to_lower fields,
        identity_loop_lem ids fields,
      )
      (if-or (any (λ f. same_bytes (to_lower f) (to_lower (c ∷ id))) fields) _)

matches-shares :
    (h : Host) (fields : List Bytes)
    → host_matches_identities h (map to_lower fields) ≡ shares h fields
unfolding host_matches_identities
matches-shares h fields = identity_loop_lem (known_by h) fields

abbrev found : Bool → Bytes → Option Bytes
found hit node = if hit then some node else none

or_else-none : (o : Option Bytes) → or_else o none ≡ o
or_else-none none = refl
or_else-none (some b) = refl

-- An entry that is there already stays: what the added entry would say is of no account.
lookup-match_host :
    (k : String) (node : Bytes) (ids : List Bytes) (h : Host) (acc : List (String × Bytes))
    → lookup_node k (match_host node ids h acc)
      ≡ or_else
          (lookup_node k acc)
          (found (str_eq h.entry.name k && host_matches_identities h ids) node)
unfolding match_host lookup_node
lookup-match_host k node ids h acc = elim (Option-cases (lookup_node h.entry.name acc)) [
  | inl e ↦ ground (arith, e, eq_iff h.entry.name k, ap (λ j. lookup_node j acc))
  | inr (c, e) ↦ rw e (elim (Bool-cases (str_eq h.entry.name k)) [
    | inl y ↦
        let there : lookup_node k acc ≡ some c =
          subst (λ j. lookup_node j acc ≡ some c) ((eq_iff h.entry.name k).0 y) e in
        rw there refl
    | inr n ↦ rw n (sym (or_else-none (lookup_node k acc)))
  ])
]

or_else_assoc :
    (o : Option Bytes) (a b : Bool) (node : Bytes)
    → or_else (or_else o (found a node)) (found b node) ≡ or_else o (found (a || b) node)
or_else_assoc none true b node = refl
or_else_assoc none false b node = refl
or_else_assoc (some c) a b node = refl

lookup-match_hosts :
    (k : String) (node : Bytes) (fields : List Bytes) (hosts : List Host)
    (acc : List (String × Bytes))
    → lookup_node k (match_hosts node (map to_lower fields) hosts acc)
      ≡ or_else (lookup_node k acc) (found (any (is_called k fields) hosts) node)
unfolding match_hosts
lookup-match_hosts k node fields [] acc = sym (or_else-none (lookup_node k acc))
lookup-match_hosts k node fields (h ∷ hosts) acc =
    lookup-match_hosts k node fields hosts (match_host node (map to_lower fields) h acc)
    ∙ ap (λ o. or_else o (found (any (is_called k fields) hosts) node))
        (lookup-match_host k node (map to_lower fields) h acc
          ∙ ap (λ b. or_else (lookup_node k acc) (found (str_eq h.entry.name k && b) node))
              (matches-shares h fields))
    ∙ or_else_assoc (lookup_node k acc) (is_called k fields h) (any (is_called k fields) hosts) node

abbrev line_node : String → List Host → List Bytes → Option Bytes
line_node k hosts [] = none
line_node k hosts (node ∷ fields) = found (any (is_called k (node ∷ fields)) hosts) node

lookup-match_line :
    (k : String) (fields : List Bytes) (hosts : List Host) (acc : List (String × Bytes))
    → lookup_node k (match_line fields hosts acc)
      ≡ or_else (lookup_node k acc) (line_node k hosts fields)
unfolding match_line
lookup-match_line k [] hosts acc = sym (or_else-none (lookup_node k acc))
lookup-match_line k (node ∷ fields) hosts acc = lookup-match_hosts k node (node ∷ fields) hosts acc

or_else-node_for :
    (k : String) (hosts : List Host) (o : Option Bytes) (fields : List Bytes)
    (lines : List (List Bytes))
    → or_else (or_else o (line_node k hosts fields)) (node_for k hosts lines)
      ≡ or_else o (node_for k hosts (fields ∷ lines))
or_else-node_for k hosts (some b) fields lines = refl
or_else-node_for k hosts none [] lines = refl
or_else-node_for k hosts none (node ∷ fields) lines =
    elim (Bool-cases (any (is_called k (node ∷ fields)) hosts)) [
      | inl y ↦ rw y refl
      | inr n ↦ rw n refl
    ]

lookup-match_lines :
    (k : String) (lines : List Bytes) (hosts : List Host) (acc : List (String × Bytes))
    → lookup_node k (match_lines lines hosts acc)
      ≡ or_else (lookup_node k acc) (node_for k hosts (map fields_of lines))
unfolding match_lines
lookup-match_lines k [] hosts acc = sym (or_else-none (lookup_node k acc))
lookup-match_lines k (line ∷ lines) hosts acc =
    lookup-match_lines k lines hosts (match_line (fields_of line) hosts acc)
    ∙ ap (λ o. or_else o (node_for k hosts (map fields_of lines)))
        (lookup-match_line k (fields_of line) hosts acc)
    ∙ or_else-node_for k hosts (lookup_node k acc) (fields_of line) (map fields_of lines)

-- A host is mapped to the first listed node that shares with a host of its name, but for its case, one
-- of the four identifiers that is not empty; a host is absent where there is none.
pub lookup-match_nodes :
    (k : String) (listed : Bytes) (hosts : List Host)
    → lookup_node k (match_nodes_to_hosts listed hosts)
      ≡ node_for k hosts (map fields_of (split_lines listed))
unfolding match_nodes_to_hosts lookup_node
lookup-match_nodes k listed hosts = lookup-match_lines k (split_lines listed) hosts []
