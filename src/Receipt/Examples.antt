-- ===== src/Receipt/Examples.antt =====
-- Receipts of one run: a controller that a phase changed, and a worker behind another port.
use text.Mathlib.TextLemmas.{tail-eq_of_cons-eq, cons≢nil, nil≢cons}
use cargoship.Prelude.{
  ℕ, String, ◌≡◌, ◌↔◌, ◌≢◌, refl, true, false, Option, none, some, List, [], ◌∷◌, map,
}
use cargoship.Phase.Report.{own_path, PhaseResult, RunResult, whole, host_summaries}
use cargoship.Receipt.{Receipt}
use cargoship.Receipt.Aliases.{decimal_loop, host_alias, assign, alias_of}
use cargoship.Receipt.Aliases.Renaming.{IsFaithful}
use cargoship.Receipt.Redact.{host_aliases, redact}
use cargoship.Receipt.Redact.Disguise.{Cover, disguise, redact-disguise}
use cargoship.Receipt.Redact.Naming.{mentions, host_aliases_single}
use cargoship.Receipt.Args.{is_credential, redact_args}
use cargoship.Receipt.Args.Secrets.{
  IsSecretFlag, one_dash, more_dashes, no_more, plain, joined_value, next_value, redact_args_same,
}
use cargoship.Receipt.Ledger.{phases_of}
use cargoship.Receipt.Build.{Options, Node, configured_address, Config, Machine, outcome_of, build}
use cargoship.Phase.Report.Settled.{Settled}
use cargoship.Receipt.Build.Claims.{outcome_of-Settled}

abbrev prepared : PhaseResult
prepared = record {
  title = "Configure engine";
  explanation = "";
  dry_run = own_path;
  declared = true;
  changed = true;
  hosts_declared = true;
  hosts =
      record {
        host = "10.0.0.5";
        changed = true;
        details =
            record {
              path = "/etc/rancher/config.yaml";
              reason = "created";
              diff = "+token: secret";
            }
            ∷ [];
      }
      ∷ [];
  duration = 1500000;
}

abbrev run : RunResult
run = record {
  ran = prepared ∷ [];
  planned = [];
  skipped = [];
  warnings =
      record { phase = "Images"; host = "10.0.0.7:2222"; path = "/images"; reason = "kept" } ∷ [];
}

abbrev node : String → ℕ → Node
node address port = record {
  ssh = some (record { address = address; port = port });
  connection = "";
  hostname = "site-7";
  role = "controller";
  profile = "";
  arch = "amd64";
  private_address = "192.168.0.5";
  private_interface = "eth1";
  distro_version = "";
  os_release = some (record { id = "rocky"; version = "9" });
}

abbrev nodes : List (Option Node)
nodes = some (node "10.0.0.5" 22) ∷ none ∷ some (node "10.0.0.7" 2222) ∷ []

abbrev config : Config
config = record { name = "prod"; load_balancer = "lb.example"; hosts = nodes }

abbrev machine : Machine
machine = record {
  user = none;
  getenv = λ key. "root";
  hostname = some "admin-1";
  os = "linux";
  arch = "amd64";
  now = 5000000000;
}

abbrev options : Options
options = record {
  command = "apply";
  args = "apply" ∷ "--token" ∷ "abc" ∷ [];
  version = "1.0";
  commit = "";
  config_path = "/prod.yaml";
  pkg = none;
  started_at = 1000000000;
  dry_run = false;
  observed = true;
  err = none;
}

abbrev receipt : Receipt
receipt = build machine (some config) run options

-- Another fleet: each address that is not empty has one more letter.
abbrev moved : String → String
moved String.[] = ""
moved (String.◌∷◌ c s) = String.◌∷◌ "x" (String.◌∷◌ c s)

moved-IsFaithful : IsFaithful moved
moved-IsFaithful = record { inj = inj; empty = refl }
  where
    inj : (a b : String) → moved a ≡ moved b → a ≡ b
    inj String.[] String.[] h = refl
    inj String.[] (String.◌∷◌ c s) h = absurd (nil≢cons h)
    inj (String.◌∷◌ c s) String.[] h = absurd (cons≢nil h)
    inj (String.◌∷◌ c s) (String.◌∷◌ d t) h = tail-eq_of_cons-eq h

abbrev other_fleet : Cover
other_fleet = record {
  address = moved;
  args = [];
  operator = "guest";
  host = "";
  package_path = "/tmp";
  cluster_name = "lab";
  load_balancer = "";
  config_path = "lab.yaml";
  hostname = λ h. "lab";
  private_address = λ a. "";
  private_interface = λ i. "";
  diff = λ d. "";
}

redact-disguise_example : redact (disguise other_fleet receipt) ≡ redact receipt
redact-disguise_example = redact-disguise other_fleet moved-IsFaithful receipt

receipt-mentions : mentions "10.0.0.7:2222" receipt ≡ true
unfolding mentions build host_summaries configured_address decimal_loop
receipt-mentions = refl

redacted_addresses : map (λ h. h.address) (redact receipt).hosts ≡ "host-01" ∷ "host-02" ∷ []
unfolding redact alias_of assign host_alias build phases_of host_summaries configured_address
    decimal_loop
redacted_addresses = refl

kept_args : redact_args ("apply" ∷ "--token" ∷ "abc" ∷ []) ≡ "apply" ∷ "--token" ∷ "<redacted>" ∷ []
unfolding redact_args
kept_args = refl

abbrev aliases : List (String × String)
aliases = host_aliases receipt

host_aliases_single_example :
    (alias_of "10.0.0.7:2222" aliases ≢ "") × (◌≡◌ {A = String} "10.0.0.7:2222" "10.0.0.7:2222")
host_aliases_single_example =
    host_aliases_single receipt "10.0.0.7:2222" "10.0.0.7:2222" cons≢nil receipt-mentions refl

token_flag : IsSecretFlag "--token"
unfolding is_credential
token_flag = more_dashes "-token" (one_dash "token" refl)

apply_plain : ¬ IsSecretFlag "apply"
apply_plain h = elim h [ ]

redact_args_same_example :
    redact_args ("apply" ∷ "--token=abc" ∷ "--token" ∷ "abc" ∷ [])
    ≡ redact_args ("apply" ∷ "--token=de" ∷ "--token" ∷ "f" ∷ [])
redact_args_same_example =
    redact_args_same ("apply" ∷ "--token=abc" ∷ "--token" ∷ "abc" ∷ [])
      ("apply" ∷ "--token=de" ∷ "--token" ∷ "f" ∷ [])
      (plain "apply" ("--token=abc" ∷ "--token" ∷ "abc" ∷ []) ("--token=de" ∷ "--token" ∷ "f" ∷ [])
        apply_plain
        (joined_value "--token" "abc" "de" ("--token" ∷ "abc" ∷ []) ("--token" ∷ "f" ∷ [])
          token_flag (next_value "--token" "abc" "f" [] [] token_flag no_more)))

outcome_of-Settled_example :
    (((outcome_of run options).changed ≡ false) × ((outcome_of run options).changed_signal ≡ whole))
    ↔ ((options.observed ≡ true) × Settled options.dry_run run)
outcome_of-Settled_example = outcome_of-Settled run options
