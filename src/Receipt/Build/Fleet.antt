-- ===== src/Receipt/Build/Fleet.antt =====
-- The hosts of a receipt, of internal/receipt/build.go, against what the phases said of each host.
use cargoship.Prelude.{
  ℕ, ◌≤◌, String, ◌≡◌, refl, sym, ap, ◌∙◌, inl, inr, ◌⊎◌, Bool, false, Option, none, some, List, [],
  ◌∷◌, map, All, arith, ◌==◌, str_eq, Bool-cases, if◌then◌else◌,
}
use cargoship.Phase.Report.{RunResult, HostSummary, count_reporting, groups, host_summaries}
use cargoship.Phase.Report.Summaries.{
  entries, named_of, changed_of, mentions_by, says_by, host_summaries_lem,
}
use cargoship.Receipt.{Host}
use cargoship.Receipt.Build.{
  Node, configured_address, index_summaries, find_summary, host_record, with_summary, hosts_loop,
  hosts_of,
}

abbrev present : List (Option Node) → List Node
present [] = []
present (none ∷ hs) = present hs
present (some h ∷ hs) = h ∷ present hs

-- What the phases said of an address, by a direct count.
abbrev counted : RunResult → String → Host → Host
counted r k rec = record rec {
  changed = says_by k (groups r);
  phases_named = mentions_by k (groups r);
  phases_reporting = if mentions_by k (groups r) == 0 then 0 else count_reporting (groups r);
}

-- The record of a host that is told of by a direct count.
unfoldable told : RunResult → Node → Host
unfolding host_record
told r h = counted r (configured_address h) (host_record h)

abbrev Absent : String → List HostSummary → List HostSummary → Type 0
Absent k out m = (entries k out ≡ 0) × (find_summary k (index_summaries out m) ≡ find_summary k m)

abbrev Found : ℕ → String → List HostSummary → List HostSummary → Type 0
Found n k out m =
    (s : HostSummary) × (entries k out ≡ 1)
    × (find_summary k (index_summaries out m) ≡ some s)
    × (s.named ≡ named_of k out)
    × (s.changed ≡ changed_of k out)
    × (s.reporting ≡ n)

find-index_summaries :
    (n : ℕ) (k : String) (out m : List HostSummary)
    → entries k out ≤ 1
    → All (λ s. s.reporting ≡ n) out
    → Absent k out m ⊎ Found n k out m
unfolding find_summary index_summaries
find-index_summaries n k [] m le all = inl (refl, refl)
find-index_summaries n k (s ∷ out) m le (a, all) = elim (Bool-cases (str_eq s.host k)) [
  | inl e ↦ elim (find-index_summaries n k out (s ∷ m) (ground (arith, e)) all) [
    | inl (z, q) ↦
        inr (s, ground (arith, e), ground (arith, e), ground (arith, e), ground (arith, e), a)
    | inr (t, z, q, _, _, _) ↦ ground (arith, e)
  ]
  | inr e ↦ elim (find-index_summaries n k out (s ∷ m) (ground (arith, e)) all) [
    | inl (z, q) ↦ inl (ground (arith, e), ground (arith, e))
    | inr (t, z, q, b, c, d) ↦
        inr (t, ground (arith, e), ground (arith, e), ground (arith, e), ground (arith, e), d)
  ]
]

no_entry :
    (k : String) (out : List HostSummary)
    → entries k out ≡ 0
    → (named_of k out ≡ 0) × (changed_of k out ≡ false)
no_entry k [] h = (refl, refl)
no_entry k (s ∷ out) h = elim (Bool-cases (str_eq s.host k)) [
  | inl e ↦ ground (arith, e)
  | inr e ↦ rw e (no_entry k out (ground (arith, e)))
]

filled :
    (rec : Host) (c d : Bool) (n m p q : ℕ)
    → c ≡ d
    → n ≡ m
    → p ≡ q
    → record rec { changed = c; phases_named = n; phases_reporting = p }
      ≡ record rec { changed = d; phases_named = m; phases_reporting = q }
filled rec c d n m p q x y z =
    λ i. record rec { changed = x i; phases_named = y i; phases_reporting = z i }

with_summary-counted :
    (r : RunResult) (k : String) (rec : Host)
    → rec.changed ≡ false
    → rec.phases_named ≡ 0
    → rec.phases_reporting ≡ 0
    → with_summary (find_summary k (index_summaries (host_summaries r) [])) rec ≡ counted r k rec
unfolding with_summary find_summary
with_summary-counted r k rec h1 h2 h3 =
    let n = count_reporting (groups r) in
    let (a, b, c, d) = host_summaries_lem r k in
    elim (find-index_summaries n k (host_summaries r) [] (omega arith) d) [
      | inl (z, q) ↦
          let (b0, c0) = no_entry k (host_summaries r) z in
          ap (λ o. with_summary o rec) q
          ∙ filled rec rec.changed (says_by k (groups r)) rec.phases_named
              (mentions_by k (groups r)) rec.phases_reporting
              (if mentions_by k (groups r) == 0 then 0 else n) (h1 ∙ sym c0 ∙ c) (omega arith)
              (ground arith)
      | inr (s, z, q, e, f, g) ↦
          ap (λ o. with_summary o rec) q
          ∙ filled rec s.changed (says_by k (groups r)) s.named (mentions_by k (groups r))
              s.reporting (if mentions_by k (groups r) == 0 then 0 else n) (f ∙ c) (e ∙ b)
              (ground arith)
    ]

-- Each host of the configuration that is not nil has one record, in the order of the configuration,
-- whether or not a phase spoke for it. It says that the host changed exactly if a phase that reports
-- per host said so of its address, holds the number of times that such phases named that address,
-- and the number of those phases if there was one such time.
hosts_of_counted :
    (r : RunResult) (hosts : List (Option Node)) → hosts_of hosts r ≡ map (told r) (present hosts)
unfolding hosts_of hosts_loop told host_record
hosts_of_counted r [] = refl
hosts_of_counted r (none ∷ hs) = hosts_of_counted r hs
hosts_of_counted r (some h ∷ hs) = λ i.
    with_summary-counted r (configured_address h) (host_record h) refl refl refl i
    ∷ hosts_of_counted r hs i
