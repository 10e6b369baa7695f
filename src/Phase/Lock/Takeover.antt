-- ===== src/Phase/Lock/Takeover.antt =====
-- Two instances that call `tryLock` of pkg/phase/91_lock.go one after the other.
use cargoship.Prelude.{
  ℕ, ◌-◌, ◌≤◌, ◌<◌, String, ◌≡◌, ◌≢◌, ◌∙◌, ◌⊎◌, ◌↔◌, inl, inr, refl, sym, ap, false, Bool-cases,
  ltb, str_eq, Option, none, some, arith, eq_iff,
}
use cargoship.Phase.Lock.{
  LockFile, Faults, World, LockError, busy, delete_file, try_existing, try_created, try_file,
  try_lock,
}

-- No call of the file system fails.
abbrev working : Faults
working = record {
  create = false;
  stat = false;
  read = false;
  write = false;
  close = false;
  delete = false;
}

abbrev pub host_at : ℕ → Option LockFile → World
host_at now file = record { file = file; now = now; faults = working }

stale_lem :
    (id : String) (now : ℕ) (f : LockFile)
    → f.content ≢ id
    → 30 ≤ now - f.mod_time
    → try_lock id (host_at now (some f)) ≡ (none, host_at now none)
unfolding try_lock try_file try_existing delete_file
stale_lem id now f ne le = ground (arith, eq_iff f.content id)

fresh_lem :
    (id : String) (now : ℕ)
    → try_lock id (host_at now none)
      ≡ (none, host_at now (some (record { content = id; mod_time = now })))
unfolding try_lock try_file try_created
fresh_lem id now = refl

held_lem :
    (id : String) (now : ℕ) (f : LockFile)
    → f.content ≢ id
    → now - f.mod_time < 30
    → try_lock id (host_at now (some f)) ≡ (some busy, host_at now (some f))
unfolding try_lock try_file try_existing
held_lem id now f ne l = ground (arith, eq_iff f.content id)

own_lem :
    (id : String) (now : ℕ) (f : LockFile)
    → f.content ≡ id
    → try_lock id (host_at now (some f)) ≡ (none, host_at now (some f))
unfolding try_lock try_file try_existing
own_lem id now f e = ground (arith, eq_iff f.content id)

-- What two instances get that call `tryLock` at the same time, one after the other.
abbrev pub first_answer : String → World → Option LockError
first_answer a w = (try_lock a w).0

abbrev pub second_answer : String → String → World → Option LockError
second_answer a b w = (try_lock b (try_lock a w).1).0

answers :
    {r s : Option LockError} {v u : World} (a b : String) (w : World)
    → try_lock a w ≡ (r, v)
    → try_lock b v ≡ (s, u)
    → second_answer a b w ≡ s
answers a b w e f = ap (λ x. (try_lock b x.1).0) e ∙ ap (λ x. x.0) f

abbrev time_of : Option LockFile → ℕ
time_of none = 0
time_of (some f) = f.mod_time

abbrev pub IsStale : ℕ → Option LockFile → Type 0
IsStale now file = (f : LockFile) × (file ≡ some f) × (30 ≤ now - f.mod_time)

abbrev BothEnter : String → String → ℕ → Option LockFile → Type 0
BothEnter a b now file =
    (first_answer a (host_at now file) ≡ none) × (second_answer a b (host_at now file) ≡ none)

refused : (r : Option LockError) → r ≡ some busy → r ≢ none
refused r h k = ground (arith, h, k)

fresh-IsStale : (now : ℕ) (f : LockFile) → now - f.mod_time < 30 → ¬ IsStale now (some f)
fresh-IsStale now f l (g, e, le) =
    let m : f.mod_time ≡ g.mod_time = ap (λ o. time_of o) e in omega arith

shut_without : (a b : String) (now : ℕ) → a ≢ b → ¬ BothEnter a b now none
shut_without a b now ne h =
    let own : LockFile = record { content = a; mod_time = now } in
    refused (second_answer a b (host_at now none))
      (answers a b _ (fresh_lem a now) (held_lem b now own ne (omega arith))) h.1

shut_fresh :
    (a b : String) (now : ℕ) (f : LockFile)
    → a ≢ b
    → now - f.mod_time < 30
    → ¬ BothEnter a b now (some f)
shut_fresh a b now f ne l h = elim (Bool-cases (str_eq f.content a)) [
  | inl y ↦
      let e : f.content ≡ a = ground (arith, eq_iff f.content a) in
      refused (second_answer a b (host_at now (some f)))
        (answers a b _ (own_lem a now f e) (held_lem b now f (λ k. ne (sym e ∙ k)) l)) h.1
  | inr n ↦
      refused (first_answer a (host_at now (some f)))
        (ap (λ x. x.0) (held_lem a now f (ground (arith, eq_iff f.content a)) l)) h.0
]

open_stale :
    (a b : String) (now : ℕ) (f : LockFile)
    → a ≢ b
    → 30 ≤ now - f.mod_time
    → BothEnter a b now (some f)
open_stale a b now f ne le = elim (Bool-cases (str_eq f.content a)) [
  | inl y ↦
      let e : f.content ≡ a = ground (arith, eq_iff f.content a) in
      let own = own_lem a now f e in
      (ap (λ x. x.0) own, answers a b _ own (stale_lem b now f (λ k. ne (sym e ∙ k)) le))
  | inr n ↦
      let first = stale_lem a now f (ground (arith, eq_iff f.content a)) le in
      (ap (λ x. x.0) first, answers a b _ first (fresh_lem b now))
]

file_cases :
    (a b : String) (now : ℕ) (file : Option LockFile)
    → a ≢ b
    → ((¬ BothEnter a b now file) × (¬ IsStale now file))
      ⊎ (BothEnter a b now file × IsStale now file)
file_cases a b now none ne = inl (shut_without a b now ne, λ st. ground (arith, st.1))
file_cases a b now (some f) ne = elim (Bool-cases (ltb (now - f.mod_time) 30)) [
  | inl l ↦ inl (shut_fresh a b now f ne (ground arith), fresh-IsStale now f (ground arith))
  | inr g ↦ inr (open_stale a b now f ne (ground arith), (f, refl, ground arith))
]

-- Of two instances that call `tryLock` one after the other where no call fails, both are let in
-- exactly if there is a lock file, of either of them or of a third, that was last touched 30
-- seconds ago or earlier. Where there is no lock file, or a fresh one, at most one is.
pub try_lock-shared :
    (a b : String) (now : ℕ) (file : Option LockFile)
    → a ≢ b
    → ((first_answer a (host_at now file) ≡ none) × (second_answer a b (host_at now file) ≡ none))
      ↔ IsStale now file
try_lock-shared a b now file ne = elim (file_cases a b now file ne) [
  | inl (shut, fresh) ↦ (λ h. absurd (shut h), λ st. absurd (fresh st))
  | inr (both, st) ↦ (λ h. st, λ h. both)
]
