-- ===== src/Receipt.antt =====
-- internal/receipt/receipt.go: the record of one run that is kept for audit. A time is a number of
-- nanoseconds. A duration stands for the rounded number that its text shows, and none for no text.
pub mod Ledger
pub mod Build
pub mod Aliases
pub mod Redact
pub mod Args
mod Examples
use cargoship.Prelude.{
  ℕ, ◌+◌, ◌-◌, ◌%◌, String, Bool, true, false, Option, none, some, List, [], ◌∷◌, ◌++◌, ltb, ◌==◌,
  if◌then◌else◌,
}
use cargoship.Phase.Report.{Signal}

pub record Invocation : Type 0 where
  pub command : String
  pub args : List String
  pub version : String
  pub commit : String
  pub operator : String
  pub host : String
  pub platform : String
  pub dry_run : Bool
  pub started_at : ℕ
  pub finished_at : ℕ
  pub duration : Option ℕ

pub record Package : Type 0 where
  pub path : String
  pub name : String
  pub version : String
  pub sha256 : String
  pub digest : String
  pub architecture : String
  pub engine : String
  pub signed : Bool
  pub verification : String

pub record Cluster : Type 0 where
  pub name : String
  pub load_balancer : String
  pub config_path : String
  pub host_count : ℕ

pub data Disposition : Type 0 where
  ran planned skipped : Disposition

pub record HostChangeDetail : Type 0 where
  pub path : String
  pub reason : String
  pub diff : String

pub record HostChange : Type 0 where
  pub host : String
  pub changed : Bool
  pub details : List HostChangeDetail

pub record Phase : Type 0 where
  pub title : String
  pub explanation : String
  pub disposition : Disposition
  pub dry_run : String
  pub declared : Bool
  pub changed : Bool
  pub hosts_declared : Bool
  pub hosts : List HostChange
  pub duration : Option ℕ

pub record Host : Type 0 where
  pub address : String
  pub hostname : String
  pub role : String
  pub profile : String
  pub arch : String
  pub os : String
  pub os_version : String
  pub private_address : String
  pub private_interface : String
  pub engine_version : String
  pub changed : Bool
  pub phases_named : ℕ
  pub phases_reporting : ℕ

pub record Warning : Type 0 where
  pub phase : String
  pub host : String
  pub path : String
  pub reason : String

pub record Outcome : Type 0 where
  pub succeeded : Bool
  pub error : String
  pub changed : Bool
  pub changed_signal : Signal
  pub changed_undeclared : List String
  pub hosts_undeclared : List String
  pub warnings : List Warning

pub record Receipt : Type 0 where
  pub schema_version : String
  pub redacted : Bool
  pub invocation : Invocation
  pub pkg : Option Package
  pub cluster : Cluster
  pub phases : List Phase
  pub hosts : List Host
  pub outcome : Outcome

-- `Duration.Round` of a duration that is not negative: half of the unit rounds up.
pub rounded : ℕ → ℕ → ℕ
rounded d unit = let r = d % unit in if ltb (r + r) unit then d - r else d + (unit - r)

pub duration_of : ℕ → Option ℕ
unfolding rounded
duration_of d =
    if d == 0
    then none
    else if ltb d 1000000000
    then some (rounded d 1000)
    else some (rounded d 1000000)
