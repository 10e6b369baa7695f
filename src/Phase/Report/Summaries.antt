-- ===== src/Phase/Report/Summaries.antt =====
-- `HostSummaries` of pkg/phase/05_manager.go against a direct count of what the phases said.
use cargoship.Prelude.{
  ℕ, suc, ◌+◌, max, min, String, ◌≡◌, refl, Bool, false, ◌||◌, List, [], ◌∷◌, map, arith, All, ◌∙◌,
  inl, inr, Bool-cases, str_eq, eq_iff, if◌then◌else◌,
}
use cargoship.Phase.Report.{
  HostChange, PhaseResult, RunResult, HostSummary, note_host, note_hosts, note_phases,
  count_reporting, groups, host_summaries,
}

-- How many entries a list of summaries has for a host, and what the first of them says.
abbrev pub entries : String → List HostSummary → ℕ
entries k [] = 0
entries k (s ∷ out) = if str_eq s.host k then suc (entries k out) else entries k out

abbrev pub named_of : String → List HostSummary → ℕ
named_of k [] = 0
named_of k (s ∷ out) = if str_eq s.host k then s.named else named_of k out

abbrev pub changed_of : String → List HostSummary → Bool
changed_of k [] = false
changed_of k (s ∷ out) = if str_eq s.host k then s.changed else changed_of k out

-- How often the phases named a host, and whether one of them said that it changed.
abbrev mentions : String → List HostChange → ℕ
mentions k [] = 0
mentions k (h ∷ hs) = (if str_eq h.host k then 1 else 0) + mentions k hs

abbrev says : String → List HostChange → Bool
says k [] = false
says k (h ∷ hs) = (if str_eq h.host k then h.changed else false) || says k hs

abbrev pub mentions_by : String → List PhaseResult → ℕ
mentions_by k [] = 0
mentions_by k (p ∷ ps) = (if p.hosts_declared then mentions k p.hosts else 0) + mentions_by k ps

abbrev pub says_by : String → List PhaseResult → Bool
says_by k [] = false
says_by k (p ∷ ps) = (if p.hosts_declared then says k p.hosts else false) || says_by k ps

note_host_lem :
    (k : String) (h : HostChange) (out : List HostSummary)
    → (entries k (note_host h out) ≡ max (if str_eq h.host k then 1 else 0) (entries k out))
      × (named_of k (note_host h out) ≡ named_of k out + (if str_eq h.host k then 1 else 0))
      × (changed_of k (note_host h out)
          ≡ (changed_of k out || (if str_eq h.host k then h.changed else false)))
unfolding note_host
note_host_lem k h [] = ground arith
note_host_lem k h (s ∷ out) =
    ground (arith, note_host_lem k h out, eq_iff s.host k, eq_iff h.host k, eq_iff s.host h.host)

note_hosts_lem :
    (k : String) (hs : List HostChange) (out : List HostSummary)
    → (entries k (note_hosts hs out) ≡ max (min 1 (mentions k hs)) (entries k out))
      × (named_of k (note_hosts hs out) ≡ named_of k out + mentions k hs)
      × (changed_of k (note_hosts hs out) ≡ (changed_of k out || says k hs))
unfolding note_hosts
note_hosts_lem k [] out = ground arith
note_hosts_lem k (h ∷ hs) out =
    ground (arith, note_hosts_lem k hs (note_host h out), note_host_lem k h out)

note_phases_lem :
    (k : String) (ps : List PhaseResult) (out : List HostSummary)
    → (entries k (note_phases ps out) ≡ max (min 1 (mentions_by k ps)) (entries k out))
      × (named_of k (note_phases ps out) ≡ named_of k out + mentions_by k ps)
      × (changed_of k (note_phases ps out) ≡ (changed_of k out || says_by k ps))
unfolding note_phases
note_phases_lem k [] out = ground arith
note_phases_lem k (p ∷ ps) out = elim (Bool-cases p.hosts_declared) [
  | inl y ↦
      ground (arith, note_phases_lem k ps (note_hosts p.hosts out), note_hosts_lem k p.hosts out)
  | inr n ↦ ground (arith, note_phases_lem k ps out)
]

-- The last loop writes one number into each entry and leaves the rest alone.
module _ (n : ℕ) where
  abbrev reported : List HostSummary → List HostSummary
  reported out = map {A = HostSummary} (λ s. record s { reporting = n }) out

  reported_lem :
      (k : String) (out : List HostSummary)
      → (entries k (reported out) ≡ entries k out)
        × (named_of k (reported out) ≡ named_of k out)
        × (changed_of k (reported out) ≡ changed_of k out)
  reported_lem k [] = ground arith
  reported_lem k (s ∷ out) = ground (arith, reported_lem k out)

  reported-All : (out : List HostSummary) → All (λ s. s.reporting ≡ n) (reported out)
  reported-All [] = tt
  reported-All (s ∷ out) = (refl, reported-All out)

-- A host has at most one summary, and one exactly if a phase that reports per host named it; its
-- `named` is the number of times that it was named, its `changed` whether one of them said so. Each
-- summary holds the number of reporting phases.
pub host_summaries_lem :
    (r : RunResult) (k : String)
    → (entries k (host_summaries r) ≡ min 1 (mentions_by k (groups r)))
      × (named_of k (host_summaries r) ≡ mentions_by k (groups r))
      × (changed_of k (host_summaries r) ≡ says_by k (groups r))
      × All (λ s. s.reporting ≡ count_reporting (groups r)) (host_summaries r)
unfolding host_summaries
host_summaries_lem r k =
    let n = count_reporting (groups r) in
    let out = note_phases (groups r) [] in
    let (a, b, c) = reported_lem n k out in
    let (a', b', c') = note_phases_lem k (groups r) [] in
    (omega arith, omega arith, c ∙ c', reported-All n out)
