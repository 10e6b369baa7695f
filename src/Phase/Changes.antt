-- ===== src/Phase/Changes.antt =====
-- What a phase did host by host: `hostChanges` of pkg/phase/00_host_changes.go. A pointer to a host is
-- a number, and `address` is its `ConfiguredAddress`. The mutex makes each call one step.
pub mod Log
pub mod Order
pub mod Reports
mod Examples
use Prim.Native.Char.{Char, code}
use cargoship.Prelude.{
  ℕ, String, Bool, true, false, ◌||◌, Option, none, some, List, [], ◌∷◌, ◌++◌, map, any, ltb, ◌==◌,
  if◌then◌else◌,
}
use cargoship.Phase.Report.{HostChange, HostChangeDetail}

-- An entry of the map `changes`.
pub record Entry : Type 0 where
  pub host : ℕ
  pub change : HostChange

pub data Call : Type 0 where
  observed : ℕ → Call
  changed_host : ℕ → Call
  changed_file : ℕ → HostChangeDetail → Call

pub find_entry : ℕ → List Entry → Option HostChange
find_entry h [] = none
find_entry h (e ∷ m) = if e.host == h then some e.change else find_entry h m

pub set_changed : HostChange → HostChange
set_changed c = record { host = c.host; changed = true; details = c.details }

pub add_detail : HostChangeDetail → HostChange → HostChange
add_detail d c = record { host = c.host; changed = true; details = c.details ++ d ∷ [] }

module _ (address : ℕ → String) where
  pub fresh : ℕ → HostChange
  fresh h = record { host = address h; changed = false; details = [] }

  -- `entry`, and what the caller then does to the record behind the pointer.
  with_entry : (HostChange → HostChange) → ℕ → List Entry → List Entry
  unfolding fresh
  with_entry f h [] = record { host = h; change = f (fresh h) } ∷ []
  with_entry f h (e ∷ m) =
      if e.host == h
      then record { host = e.host; change = f e.change } ∷ m
      else e ∷ with_entry f h m

  -- The methods `observed`, `changedHost` and `changedFile`.
  record_call : Call → List Entry → List Entry
  unfolding with_entry set_changed add_detail
  record_call (observed h) m = with_entry (λ c. c) h m
  record_call (changed_host h) m = with_entry set_changed h m
  record_call (changed_file h d) m = with_entry (add_detail d) h m

  record_calls : List Call → List Entry → List Entry
  record_calls [] m = m
  record_calls (c ∷ cs) m = record_calls cs (record_call c m)

  -- The map behind the calls, in the order in which they took the mutex.
  pub changes : List Call → List Entry
  unfolding record_call record_calls
  changes cs = record_calls cs []

-- `Changed`
pub any_changed : List Entry → Bool
any_changed m = any (λ e. e.change.changed) m

-- `<` on texts.
less : String → String → Bool
less String.[] String.[] = false
less String.[] (String.◌∷◌ d t) = true
less (String.◌∷◌ c s) String.[] = false
less (String.◌∷◌ c s) (String.◌∷◌ d t) =
    let rest = less s t in
    if ltb (code c) (code d) then true else if code c == code d then rest else false

-- `sort.Slice` by the address.
insert_entry : Entry → List Entry → List Entry
unfolding less
insert_entry e [] = e ∷ []
insert_entry e (x ∷ xs) =
    let rest = insert_entry e xs in
    if less e.change.host x.change.host then e ∷ x ∷ xs else x ∷ rest

sort_entries : List Entry → List Entry
unfolding insert_entry
sort_entries [] = []
sort_entries (e ∷ es) = insert_entry e (sort_entries es)

-- `HostsChanged`, of the entries of the map in the order in which the loop over it meets them.
pub hosts_changed : List Entry → List HostChange
unfolding sort_entries
hosts_changed range = map (λ e. e.change) (sort_entries range)
