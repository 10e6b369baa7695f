-- ===== src/Phase/Changes/Log.antt =====
-- `hostChanges` of pkg/phase/00_host_changes.go against a log of the calls for each host.
use mathlib.Core.Path.{subst}
use cargoship.Prelude.{
  ℕ, String, ◌≡◌, refl, sym, ap, ◌∙◌, inl, inr, Bool, true, false, ◌||◌, Option, none, some, List,
  [], ◌∷◌, ◌++◌, any, append-nil, append_assoc, arith, ◌==◌, Bool-cases, if◌then◌else◌,
}
use cargoship.Phase.Report.{HostChange, HostChangeDetail}
use cargoship.Phase.Changes.{
  Entry, Call, observed, changed_host, changed_file, find_entry, set_changed, add_detail, fresh,
  with_entry, record_call, record_calls, changes, any_changed,
}

abbrev pub host_of : Call → ℕ
host_of (observed h) = h
host_of (changed_host h) = h
host_of (changed_file h d) = h

abbrev pub is_change : Call → Bool
is_change (observed h) = false
is_change (changed_host h) = true
is_change (changed_file h d) = true

abbrev file_of : Call → List HostChangeDetail
file_of (observed h) = []
file_of (changed_host h) = []
file_of (changed_file h d) = d ∷ []

abbrev files : List Call → List HostChangeDetail
files [] = []
files (c ∷ cs) = file_of c ++ files cs

-- The calls for one host, in their order.
unfoldable pub calls_of : ℕ → List Call → List Call
calls_of h [] = []
calls_of h (c ∷ cs) = if host_of c == h then c ∷ calls_of h cs else calls_of h cs

-- What a log of calls for one host comes to.
pub summary : String → List Call → Option HostChange
summary a [] = none
summary a (c ∷ cs) =
    some (record { host = a; changed = any is_change (c ∷ cs); details = files (c ∷ cs) })

pub summary_address :
    (a : String) (cs : List Call) (c : HostChange) → summary a cs ≡ some c → c.host ≡ a
unfolding summary
summary_address a [] c h = ground arith
summary_address a (x ∷ cs) c h = sym (ap (λ o. address_in a o) h)
  where
    address_in : String → Option HostChange → String
    address_in z none = z
    address_in z (some d) = d.host

effect : Call → HostChange → HostChange
effect (observed h) c = c
effect (changed_host h) c = set_changed c
effect (changed_file h d) c = add_detail d c

abbrev or_fresh : HostChange → Option HostChange → HostChange
or_fresh z none = z
or_fresh z (some c) = c

extend : HostChange → Option HostChange → List Call → Option HostChange
extend z o [] = o
extend z o (c ∷ cs) = extend z (some (effect c (or_fresh z o))) cs

-- The summary of a host that was looked at, behind a record of it.
abbrev behind : HostChange → List Call → HostChange
behind c cs = record {
  host = c.host;
  changed = c.changed || any is_change cs;
  details = c.details ++ files cs;
}

abbrev reported : String → Bool → List HostChangeDetail → Option HostChange
reported a b d = some (record { host = a; changed = b; details = d })

written :
    (a : String) (b b' : Bool) (d d' : List HostChangeDetail)
    → b ≡ b'
    → d ≡ d'
    → reported a b d ≡ reported a b' d'
written a b b' d d' x y = λ i. some (record { host = a; changed = x i; details = y i })

extend-some : (z c : HostChange) (cs : List Call) → extend z (some c) cs ≡ some (behind c cs)
unfolding extend effect set_changed add_detail
extend-some z c [] =
    written c.host c.changed (c.changed || false) c.details (c.details ++ []) (ground arith)
      (sym (append-nil c.details))
extend-some z c (observed h ∷ cs) = extend-some z c cs
extend-some z c (changed_host h ∷ cs) =
    extend-some z (set_changed c) cs
    ∙ written c.host true (c.changed || true) (c.details ++ files cs) (c.details ++ files cs)
        (ground arith) refl
extend-some z c (changed_file h d ∷ cs) =
    extend-some z (add_detail d c) cs
    ∙ written c.host true (c.changed || true) ((c.details ++ d ∷ []) ++ files cs)
        (c.details ++ d ∷ files cs) (ground arith) (append_assoc c.details (d ∷ []) (files cs))

module _ (address : ℕ → String) where
  find-with_entry :
      (f : HostChange → HostChange) (h : ℕ) (m : List Entry)
      → find_entry h (with_entry address f h m)
        ≡ some (f (or_fresh (fresh address h) (find_entry h m)))
  unfolding find_entry with_entry
  find-with_entry f h [] = ground arith
  find-with_entry f h (e ∷ m) = elim (Bool-cases (e.host == h)) [
    | inl y ↦ rw (y, y) refl
    | inr n ↦ rw (n, n, find-with_entry f h m) refl
  ]

  find-with_entry_other :
      (f : HostChange → HostChange) (k h : ℕ) (m : List Entry)
      → (k == h) ≡ false
      → find_entry h (with_entry address f k m) ≡ find_entry h m
  unfolding find_entry with_entry
  find-with_entry_other f k h [] ne = rw ne refl
  find-with_entry_other f k h (e ∷ m) ne = elim (Bool-cases (e.host == k)) [
    | inl y ↦ ground (arith, y)
    | inr n ↦ ground (arith, n, find-with_entry_other f k h m ne)
  ]

  find-record_call :
      (c : Call) (h : ℕ) (m : List Entry)
      → host_of c ≡ h
      → find_entry h (record_call address c m)
        ≡ some (effect c (or_fresh (fresh address h) (find_entry h m)))
  unfolding record_call effect
  find-record_call (observed k) h m e =
      subst
        (λ j.
          find_entry h (with_entry address (λ c. c) j m)
          ≡ some (or_fresh (fresh address h) (find_entry h m)))
        (sym e) (find-with_entry (λ c. c) h m)
  find-record_call (changed_host k) h m e =
      subst
        (λ j.
          find_entry h (with_entry address set_changed j m)
          ≡ some (set_changed (or_fresh (fresh address h) (find_entry h m))))
        (sym e) (find-with_entry set_changed h m)
  find-record_call (changed_file k d) h m e =
      subst
        (λ j.
          find_entry h (with_entry address (add_detail d) j m)
          ≡ some (add_detail d (or_fresh (fresh address h) (find_entry h m))))
        (sym e) (find-with_entry (add_detail d) h m)

  find-record_call_other :
      (c : Call) (h : ℕ) (m : List Entry)
      → (host_of c == h) ≡ false
      → find_entry h (record_call address c m) ≡ find_entry h m
  unfolding record_call
  find-record_call_other (observed k) h m = find-with_entry_other (λ c. c) k h m
  find-record_call_other (changed_host k) h m = find-with_entry_other set_changed k h m
  find-record_call_other (changed_file k d) h m = find-with_entry_other (add_detail d) k h m

  find-record_calls :
      (cs : List Call) (h : ℕ) (m : List Entry)
      → find_entry h (record_calls address cs m)
        ≡ extend (fresh address h) (find_entry h m) (calls_of h cs)
  unfolding record_calls extend calls_of
  find-record_calls [] h m = refl
  find-record_calls (c ∷ cs) h m = elim (Bool-cases (host_of c == h)) [
    | inl y ↦
        rw
          (
            y,
            find-record_calls cs h (record_call address c m),
            find-record_call c h m (ground arith),
          )
          refl
    | inr n ↦
        rw (n, find-record_calls cs h (record_call address c m), find-record_call_other c h m n)
          refl
  ]

  extend-fresh :
      (h : ℕ) (cs : List Call) → extend (fresh address h) none cs ≡ summary (address h) cs
  unfolding extend fresh effect summary set_changed add_detail
  extend-fresh h [] = refl
  extend-fresh h (observed k ∷ cs) = extend-some (fresh address h) (fresh address h) cs
  extend-fresh h (changed_host k ∷ cs) =
      extend-some (fresh address h) (set_changed (fresh address h)) cs
  extend-fresh h (changed_file k d ∷ cs) =
      extend-some (fresh address h) (add_detail d (fresh address h)) cs

  any_changed-with_entry :
      (f : HostChange → HostChange) (b : Bool)
      → ((c : HostChange) → (f c).changed ≡ (c.changed || b))
      → (h : ℕ) (m : List Entry) → any_changed (with_entry address f h m) ≡ (any_changed m || b)
  unfolding with_entry any_changed fresh
  any_changed-with_entry f b w h [] = rw (w (fresh address h)) (ground arith)
  any_changed-with_entry f b w h (e ∷ m) = elim (Bool-cases (e.host == h)) [
    | inl y ↦ rw (y, w e.change) (ground arith)
    | inr n ↦ rw (n, any_changed-with_entry f b w h m) (ground arith)
  ]

  any_changed-record_call :
      (c : Call) (m : List Entry)
      → any_changed (record_call address c m) ≡ (any_changed m || is_change c)
  unfolding record_call set_changed add_detail
  any_changed-record_call (observed h) m =
      any_changed-with_entry (λ c. c) false (λ c. ground arith) h m
  any_changed-record_call (changed_host h) m =
      any_changed-with_entry set_changed true (λ c. ground arith) h m
  any_changed-record_call (changed_file h d) m =
      any_changed-with_entry (add_detail d) true (λ c. ground arith) h m

  any_changed-record_calls :
      (cs : List Call) (m : List Entry)
      → any_changed (record_calls address cs m) ≡ (any_changed m || any is_change cs)
  unfolding record_calls
  any_changed-record_calls [] m = ground arith
  any_changed-record_calls (c ∷ cs) m =
      any_changed-record_calls cs (record_call address c m)
      ∙ rw (any_changed-record_call c m) (ground arith)

  -- Whatever the order of the calls, the map implements one log per host: a host that no call named
  -- has no entry, and any other has one with its address, that says that it changed exactly if a
  -- call for it said so, and with its files in the order of the calls for it. The phase says that it
  -- changed something exactly if a call said so.
  pub changes_lem :
      (cs : List Call) (h : ℕ)
      → (find_entry h (changes address cs) ≡ summary (address h) (calls_of h cs))
        × (any_changed (changes address cs) ≡ any is_change cs)
  unfolding changes find_entry any_changed summary
  changes_lem cs h =
      (find-record_calls cs h [] ∙ extend-fresh h (calls_of h cs), any_changed-record_calls cs [])
