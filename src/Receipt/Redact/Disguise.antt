-- ===== src/Receipt/Redact/Disguise.antt =====
-- Receipts of other fleets under `Redact` of internal/receipt/redact.go.
use cargoship.Prelude.{String, ◌≡◌, refl, ap, ◌∙◌, Option, none, some, List, [], ◌∷◌, map}
use cargoship.Receipt.{Package, HostChangeDetail, HostChange, Phase, Host, Warning, Receipt}
use cargoship.Receipt.Aliases.{Numbering, assign, no_aliases}
use cargoship.Receipt.Aliases.Renaming.{IsFaithful, renamed, alias_of-renamed, assign-renamed}
use cargoship.Receipt.Redact.{
  assign_hosts, assign_changes, assign_phases, assign_warnings, numbering, redact_package,
  redact_host, redact_warning, redact_detail, redact_change, redact_phase, redact_by, redact,
}

-- Another fleet, run by somebody else: new addresses for the hosts, and new values for all that
-- names the fleet or may hold a secret.
pub record Cover : Type 0 where
  pub address : String → String
  pub args : List String
  pub operator : String
  pub host : String
  pub package_path : String
  pub cluster_name : String
  pub load_balancer : String
  pub config_path : String
  pub hostname : String → String
  pub private_address : String → String
  pub private_interface : String → String
  pub diff : String → String

module _ (z : Cover) where
  cover_detail : HostChangeDetail → HostChangeDetail
  cover_detail d = record d { diff = z.diff d.diff }

  cover_change : HostChange → HostChange
  cover_change h = record h { host = z.address h.host; details = map cover_detail h.details }

  cover_phase : Phase → Phase
  cover_phase p = record p { hosts = map cover_change p.hosts }

  cover_host : Host → Host
  cover_host h = record h {
    address = z.address h.address;
    hostname = z.hostname h.hostname;
    private_address = z.private_address h.private_address;
    private_interface = z.private_interface h.private_interface;
  }

  cover_warning : Warning → Warning
  cover_warning w = record w { host = z.address w.host }

  cover_package : Option Package → Option Package
  cover_package none = none
  cover_package (some p) = some (record p { path = z.package_path })

  pub disguise : Receipt → Receipt
  unfolding cover_detail cover_change cover_phase cover_host cover_warning cover_package
  disguise r = record r {
    invocation = record r.invocation { args = z.args; operator = z.operator; host = z.host };
    pkg = cover_package r.pkg;
    cluster = record r.cluster {
      name = z.cluster_name;
      load_balancer = z.load_balancer;
      config_path = z.config_path;
    };
    phases = map cover_phase r.phases;
    hosts = map cover_host r.hosts;
    outcome = record r.outcome { warnings = map cover_warning r.outcome.warnings };
  }

module _ (z : Cover) (f : IsFaithful z.address) where
  assign_hosts-cover :
      (hs : List Host) (s : Numbering)
      → assign_hosts (map (cover_host z) hs) (renamed z.address s)
        ≡ renamed z.address (assign_hosts hs s)
  unfolding assign_hosts cover_host
  assign_hosts-cover [] s = refl
  assign_hosts-cover (h ∷ hs) s =
      ap (assign_hosts (map (cover_host z) hs)) (assign-renamed z.address f h.address s)
      ∙ assign_hosts-cover hs (assign h.address s)

  assign_changes-cover :
      (hs : List HostChange) (s : Numbering)
      → assign_changes (map (cover_change z) hs) (renamed z.address s)
        ≡ renamed z.address (assign_changes hs s)
  unfolding assign_changes cover_change
  assign_changes-cover [] s = refl
  assign_changes-cover (h ∷ hs) s =
      ap (assign_changes (map (cover_change z) hs)) (assign-renamed z.address f h.host s)
      ∙ assign_changes-cover hs (assign h.host s)

  assign_phases-cover :
      (ps : List Phase) (s : Numbering)
      → assign_phases (map (cover_phase z) ps) (renamed z.address s)
        ≡ renamed z.address (assign_phases ps s)
  unfolding assign_phases cover_phase
  assign_phases-cover [] s = refl
  assign_phases-cover (p ∷ ps) s =
      ap (assign_phases (map (cover_phase z) ps)) (assign_changes-cover p.hosts s)
      ∙ assign_phases-cover ps (assign_changes p.hosts s)

  assign_warnings-cover :
      (ws : List Warning) (s : Numbering)
      → assign_warnings (map (cover_warning z) ws) (renamed z.address s)
        ≡ renamed z.address (assign_warnings ws s)
  unfolding assign_warnings cover_warning
  assign_warnings-cover [] s = refl
  assign_warnings-cover (w ∷ ws) s =
      ap (assign_warnings (map (cover_warning z) ws)) (assign-renamed z.address f w.host s)
      ∙ assign_warnings-cover ws (assign w.host s)

  numbering-disguise : (r : Receipt) → numbering (disguise z r) ≡ renamed z.address (numbering r)
  unfolding numbering disguise renamed
  numbering-disguise r =
      let s = assign_hosts r.hosts no_aliases in
      let t = assign_phases r.phases s in
      ap
        (λ x.
          assign_warnings (map (cover_warning z) r.outcome.warnings)
            (assign_phases (map (cover_phase z) r.phases) x))
        (assign_hosts-cover r.hosts no_aliases)
      ∙ ap (assign_warnings (map (cover_warning z) r.outcome.warnings))
          (assign_phases-cover r.phases s)
      ∙ assign_warnings-cover r.outcome.warnings t

  module _ (s : Numbering) where
    redact_hosts-cover :
        (hs : List Host)
        → map (redact_host (renamed z.address s).aliases) (map (cover_host z) hs)
          ≡ map (redact_host s.aliases) hs
    unfolding redact_host cover_host
    redact_hosts-cover [] = refl
    redact_hosts-cover (h ∷ hs) =
        rw (alias_of-renamed z.address f h.address s, redact_hosts-cover hs) refl

    redact_warnings-cover :
        (ws : List Warning)
        → map (redact_warning (renamed z.address s).aliases) (map (cover_warning z) ws)
          ≡ map (redact_warning s.aliases) ws
    unfolding redact_warning cover_warning
    redact_warnings-cover [] = refl
    redact_warnings-cover (w ∷ ws) =
        rw (alias_of-renamed z.address f w.host s, redact_warnings-cover ws) refl

    redact_details-cover :
        (ds : List HostChangeDetail)
        → map redact_detail (map (cover_detail z) ds) ≡ map redact_detail ds
    unfolding redact_detail cover_detail
    redact_details-cover [] = refl
    redact_details-cover (d ∷ ds) = rw (redact_details-cover ds) refl

    redact_changes-cover :
        (hs : List HostChange)
        → map (redact_change (renamed z.address s).aliases) (map (cover_change z) hs)
          ≡ map (redact_change s.aliases) hs
    unfolding redact_change cover_change
    redact_changes-cover [] = refl
    redact_changes-cover (h ∷ hs) =
        rw
          (
            alias_of-renamed z.address f h.host s,
            redact_details-cover h.details,
            redact_changes-cover hs,
          )
          refl

    redact_phases-cover :
        (ps : List Phase)
        → map (redact_phase (renamed z.address s).aliases) (map (cover_phase z) ps)
          ≡ map (redact_phase s.aliases) ps
    unfolding redact_phase cover_phase
    redact_phases-cover [] = refl
    redact_phases-cover (p ∷ ps) = rw (redact_changes-cover p.hosts, redact_phases-cover ps) refl

  redact_package-cover :
      (o : Option Package) → redact_package (cover_package z o) ≡ redact_package o
  unfolding redact_package cover_package
  redact_package-cover none = refl
  redact_package-cover (some p) = refl

  redact_by-disguise :
      (s : Numbering) (r : Receipt)
      → redact_by (renamed z.address s).aliases (disguise z r) ≡ redact_by s.aliases r
  unfolding redact_by disguise
  redact_by-disguise s r =
      rw
        (
          redact_phases-cover s r.phases,
          redact_hosts-cover s r.hosts,
          redact_warnings-cover s r.outcome.warnings,
          redact_package-cover r.pkg,
        )
        refl

  -- A redacted receipt is the same for another fleet, run by somebody else, with other addresses,
  -- host names, private addresses, interfaces, diffs, package and configuration paths, cluster name,
  -- load balancer, operator and command line: provided that no two hosts become one, and that a host
  -- without an address stays without. The text of the error is not among what may differ.
  pub redact-disguise : (r : Receipt) → redact (disguise z r) ≡ redact r
  unfolding redact
  redact-disguise r =
      ap (λ s. redact_by s.aliases (disguise z r)) (numbering-disguise r)
      ∙ redact_by-disguise (numbering r) r
