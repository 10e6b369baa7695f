-- ===== src/Phase/Changes/Examples.antt =====
-- Two runs of a phase on two hosts: the sweep reaches the hosts in another order.
use cargoship.Prelude.{ℕ, ◌≡◌, refl, true, List, [], ◌∷◌, any, arith, ◌==◌, Bool-cases, inl, inr}
use cargoship.Phase.Report.{HostChangeDetail}
use cargoship.Phase.Changes.{
  Entry, Call, observed, changed_host, changed_file, set_changed, add_detail, fresh, find_entry,
  changes, any_changed, hosts_changed,
}
use cargoship.Phase.Changes.Log.{calls_of, is_change, summary, changes_lem}
use cargoship.Phase.Changes.Reports.{IsRange, hosts_changed_same}
use cargoship.Receipt.Aliases.{host_alias}
use cargoship.Receipt.Aliases.Digits.{host_alias-inj}

abbrev config : HostChangeDetail
config = record { path = "/etc/config.yaml"; reason = "created"; diff = "" }

abbrev first_run : List Call
first_run = observed 1 ∷ changed_file 0 config ∷ changed_host 1 ∷ []

abbrev second_run : List Call
second_run = observed 1 ∷ changed_host 1 ∷ changed_file 0 config ∷ []

changes_lem_example :
    (find_entry 0 (changes host_alias first_run) ≡ summary (host_alias 0) (calls_of 0 first_run))
    × (any_changed (changes host_alias first_run) ≡ any is_change first_run)
changes_lem_example = changes_lem host_alias first_run 0

same_calls : (h : ℕ) → calls_of h first_run ≡ calls_of h second_run
unfolding calls_of
same_calls h = elim (Bool-cases (1 == h)) [ inl y ↦ rw (y) (ground arith) | inr n ↦ rw (n) refl ]

first-IsRange : IsRange (changes host_alias first_run) (changes host_alias first_run)
unfolding changes
first-IsRange = record { once = ((refl, tt), (tt, tt)); same = λ h. refl }

abbrev backwards : List Entry
backwards =
    record {
      host = 0;
      change = record { host = host_alias 0; changed = true; details = config ∷ [] };
    }
    ∷ record { host = 1; change = record { host = host_alias 1; changed = true; details = [] } }
    ∷ []

second-IsRange : IsRange backwards (changes host_alias second_run)
unfolding changes find_entry fresh set_changed add_detail
second-IsRange = record { once = ((refl, tt), (tt, tt)); same = alike }
  where
    alike : (h : ℕ) → find_entry h backwards ≡ find_entry h (changes host_alias second_run)
    alike h = elim (Bool-cases (0 == h)) [
      | inl y ↦ elim (Bool-cases (1 == h)) [ inl z ↦ ground (arith, y, z) | inr z ↦ rw (y, z) refl ]
      | inr n ↦ rw n refl
    ]

hosts_changed_same_example : hosts_changed (changes host_alias first_run) ≡ hosts_changed backwards
hosts_changed_same_example =
    hosts_changed_same host_alias host_alias-inj first_run second_run (changes host_alias first_run)
      backwards same_calls first-IsRange second-IsRange
