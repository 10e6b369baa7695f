-- ===== src/Receipt/Redact/Naming.antt =====
-- The aliases that a redacted receipt of internal/receipt/redact.go gives to the hosts.
use mathlib.Core.Path.{subst}
use cargoship.Prelude.{
  String, ◌≡◌, ◌≢◌, refl, ◌∙◌, inl, inr, Bool, true, false, some, List, [], ◌∷◌, map, arith, str_eq,
  eq_iff, Bool-cases, if◌then◌else◌,
}
use cargoship.Receipt.{HostChange, Phase, Host, Warning, Receipt}
use cargoship.Receipt.Aliases.{Numbering, find_alias, alias_of, assign, no_aliases}
use cargoship.Receipt.Aliases.Assigned.{assign_kept, assign_given, alias_of_single}
use cargoship.Receipt.Aliases.Numbered.{IsNumbered, none_yet, assign-IsNumbered}
use cargoship.Receipt.Redact.{
  assign_hosts, assign_changes, assign_phases, assign_warnings, numbering, host_aliases,
}

-- The addresses of a receipt: of its hosts, of the hosts of its phases, and of its warnings.
named_by_changes : List HostChange → List String → List String
named_by_changes [] rest = rest
named_by_changes (h ∷ hs) rest = h.host ∷ named_by_changes hs rest

named_by_phases : List Phase → List String → List String
named_by_phases [] rest = rest
named_by_phases (p ∷ ps) rest = named_by_changes p.hosts (named_by_phases ps rest)

named_by_hosts : List Host → List String → List String
named_by_hosts [] rest = rest
named_by_hosts (h ∷ hs) rest = h.address ∷ named_by_hosts hs rest

pub addresses : Receipt → List String
unfolding named_by_changes named_by_phases named_by_hosts
addresses r =
    named_by_hosts r.hosts (named_by_phases r.phases (map (λ w. w.host) r.outcome.warnings))

has : String → List String → Bool
has a [] = false
has a (b ∷ bs) = if str_eq b a then true else has a bs

-- A receipt names a host somewhere.
unfoldable pub mentions : String → Receipt → Bool
unfolding has addresses
mentions a r = has a (addresses r)

assign_all : List String → Numbering → Numbering
assign_all [] s = s
assign_all (a ∷ xs) s = assign_all xs (assign a s)

assign_all_changes :
    (hs : List HostChange) (rest : List String) (s : Numbering)
    → assign_all (named_by_changes hs rest) s ≡ assign_all rest (assign_changes hs s)
unfolding assign_all named_by_changes assign_changes
assign_all_changes [] rest s = refl
assign_all_changes (h ∷ hs) rest s = assign_all_changes hs rest (assign h.host s)

assign_all_phases :
    (ps : List Phase) (rest : List String) (s : Numbering)
    → assign_all (named_by_phases ps rest) s ≡ assign_all rest (assign_phases ps s)
unfolding assign_all named_by_phases assign_phases
assign_all_phases [] rest s = refl
assign_all_phases (p ∷ ps) rest s =
    assign_all_changes p.hosts (named_by_phases ps rest) s
    ∙ assign_all_phases ps rest (assign_changes p.hosts s)

assign_all_hosts :
    (hs : List Host) (rest : List String) (s : Numbering)
    → assign_all (named_by_hosts hs rest) s ≡ assign_all rest (assign_hosts hs s)
unfolding assign_all named_by_hosts assign_hosts
assign_all_hosts [] rest s = refl
assign_all_hosts (h ∷ hs) rest s = assign_all_hosts hs rest (assign h.address s)

assign_all_warnings :
    (ws : List Warning) (s : Numbering) → assign_all (map (λ w. w.host) ws) s ≡ assign_warnings ws s
unfolding assign_all assign_warnings
assign_all_warnings [] s = refl
assign_all_warnings (w ∷ ws) s = assign_all_warnings ws (assign w.host s)

assign_all_addresses : (r : Receipt) → assign_all (addresses r) no_aliases ≡ numbering r
unfolding addresses numbering
assign_all_addresses r =
    assign_all_hosts r.hosts (named_by_phases r.phases (map (λ w. w.host) r.outcome.warnings))
      no_aliases
    ∙ assign_all_phases r.phases (map (λ w. w.host) r.outcome.warnings)
        (assign_hosts r.hosts no_aliases)
    ∙ assign_all_warnings r.outcome.warnings
        (assign_phases r.phases (assign_hosts r.hosts no_aliases))

assign_all-IsNumbered :
    (xs : List String) (s : Numbering)
    → IsNumbered s.aliases s.next
    → IsNumbered (assign_all xs s).aliases (assign_all xs s).next
unfolding assign_all
assign_all-IsNumbered [] s v = v
assign_all-IsNumbered (a ∷ xs) s v = assign_all-IsNumbered xs (assign a s) (assign-IsNumbered a s v)

assign_all_kept :
    (xs : List String) (a t : String) (s : Numbering)
    → find_alias a s.aliases ≡ some t
    → find_alias a (assign_all xs s).aliases ≡ some t
unfolding assign_all
assign_all_kept [] a t s h = h
assign_all_kept (b ∷ bs) a t s h = assign_all_kept bs a t (assign b s) (assign_kept a b t s h)

assign_all_given :
    (xs : List String) (a : String) (s : Numbering)
    → a ≢ ""
    → has a xs ≡ true
    → (t : String) × (find_alias a (assign_all xs s).aliases ≡ some t)
unfolding assign_all has
assign_all_given [] a s ne h = ground arith
assign_all_given (b ∷ bs) a s ne h = elim (Bool-cases (str_eq b a)) [
  | inl e ↦
      let (t, k) = assign_given b s (λ z. ne (ground (arith, eq_iff b a))) in
      (t, assign_all_kept bs a t (assign b s) (ground (arith, eq_iff b a)))
  | inr e ↦ assign_all_given bs a (assign b s) ne (ground (arith, e))
]

numbering-IsNumbered : (r : Receipt) → IsNumbered (numbering r).aliases (numbering r).next
numbering-IsNumbered r =
    subst (λ s. IsNumbered s.aliases s.next) (assign_all_addresses r)
      (assign_all-IsNumbered (addresses r) no_aliases none_yet)

mentions_given :
    (r : Receipt) (a : String)
    → a ≢ ""
    → mentions a r ≡ true
    → (t : String) × (find_alias a (host_aliases r) ≡ some t)
unfolding mentions host_aliases
mentions_given r a ne h =
    let (t, k) = assign_all_given (addresses r) a no_aliases ne h in
    (t, subst (λ s. find_alias a s.aliases ≡ some t) (assign_all_addresses r) k)

-- A host that a receipt names by an address, in its hosts, in a phase or in a warning, has an alias
-- that is not the empty text, and only that host has it: whatever address the alias stands for,
-- of the receipt or not, is that host's.
pub host_aliases_single :
    (r : Receipt) (a b : String)
    → a ≢ ""
    → mentions a r ≡ true
    → alias_of b (host_aliases r) ≡ alias_of a (host_aliases r)
    → (alias_of a (host_aliases r) ≢ "") × (b ≡ a)
unfolding host_aliases
host_aliases_single r a b ne h e =
    let (t, k) = mentions_given r a ne h in
    alias_of_single (host_aliases r) (numbering r).next (numbering-IsNumbered r) a b t k e
