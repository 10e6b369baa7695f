-- ===== src/Phase/Lock/Safety.antt =====
-- What `tryLock` and `startLock` of pkg/phase/91_lock.go guarantee.
use mathlib.Core.Path.{subst}
use cargoship.Prelude.{
  ◌-◌, ◌<◌, ◌≤◌, String, ◌≡◌, ◌≢◌, refl, ◌⊎◌, inl, inr, none, some, List, arith, str_eq, eq_iff,
  Bool-cases, Option-cases,
}
use cargoship.Retry.{Event, returned}
use cargoship.Retry.Bounds.{Explained, times-Explained}
use cargoship.Phase.Lock.{
  LockFile, World, LockError, create_failed, disappeared, read_failed, busy, delete_file,
  try_existing, try_created, try_file, try_lock, never_aborts, start_lock,
}

-- The host's lock file holds the identity.
abbrev pub Holds : String → World → Type 0
Holds id w = (f : LockFile) × (w.file ≡ some f) × (f.content ≡ id)

created_lem :
    (id : String) (w : World) → (try_created id w).0 ≡ none → Holds id (try_created id w).1
unfolding try_created
created_lem id w h = elim (Bool-cases w.faults.write) [
  | inl n ↦ ground (arith, n)
  | inr n ↦ elim (Bool-cases w.faults.close) [
    | inl m ↦ ground (arith, n, m)
    | inr m ↦ (record { content = id; mod_time = w.now }, rw (n, m), refl)
  ]
]

existing_lem :
    (id : String) (f : LockFile) (w : World)
    → w.file ≡ some f
    → (try_existing id f w).0 ≡ none
    → Holds id (try_existing id f w).1
      ⊎ ((f.content ≢ id) × (30 ≤ w.now - f.mod_time) × ((try_existing id f w).1.file ≡ none))
unfolding try_existing delete_file
existing_lem id f w e h = elim (Bool-cases (str_eq f.content id)) [
  | inl n ↦ inl (f, ground arith, ground (arith, eq_iff f.content id))
  | inr n ↦ inr (ground (arith, eq_iff f.content id), ground arith, ground arith)
]

-- When `tryLock` returns nil, whatever calls fail, either the lock file holds the own identity, or
-- it held another one, last touched 30 seconds ago or earlier, and no lock file is left.
try_lock-acquires :
    (id : String) (w : World)
    → (try_lock id w).0 ≡ none
    → Holds id (try_lock id w).1
      ⊎ ((f : LockFile) × (w.file ≡ some f)
          × (f.content ≢ id)
          × (30 ≤ w.now - f.mod_time)
          × ((try_lock id w).1.file ≡ none))
unfolding try_lock try_file
try_lock-acquires id w h = elim (Bool-cases w.faults.create) [
  | inl n ↦ ground (arith, n)
  | inr n ↦ elim (Option-cases w.file) [
    | inl m ↦ simp (n, m) (inl (created_lem id w (ground (arith, n, m))))
    | inr (f, m) ↦ elim (existing_lem id f w m (ground (arith, n, m))) [
      | inl k ↦ simp (n, m) (inl k)
      | inr (a, b, c) ↦ simp (n, m) (inr (f, refl, a, b, c))
    ]
  ]
]

-- A lock file of another instance that was touched less than 30 seconds ago keeps `tryLock` from
-- returning nil and from changing anything on the host, whatever calls fail.
pub try_lock-refuses :
    (id : String) (w : World) (f : LockFile)
    → w.file ≡ some f
    → f.content ≢ id
    → w.now - f.mod_time < 30
    → (e : LockError) × (try_lock id w ≡ (some e, w))
unfolding try_lock try_file try_existing
try_lock-refuses id w f m ne lt = elim (Bool-cases w.faults.create) [
  | inl n ↦ (create_failed, rw n refl)
  | inr n ↦ elim (Bool-cases w.faults.stat) [
    | inl k ↦ (disappeared, rw (n, m, k) refl)
    | inr k ↦ elim (Bool-cases w.faults.read) [
      | inl l ↦ (read_failed, rw (n, m, k, l) refl)
      | inr l ↦ (busy, ground (arith, n, m, k, l, eq_iff f.content id))
    ]
  ]
]

nil_lem :
    (id : String) (s : World)
    → Explained never_aborts (try_lock id) 10 (returned none s)
    → Holds id s ⊎ (s.file ≡ none)
nil_lem id s (t, h, e) = elim (try_lock-acquires id t h) [
  | inl k ↦ inl (rw⁻¹ e k)
  | inr (f, _, _, _, k) ↦ inr (rw⁻¹ e k)
]

-- When `startLock` returns nil, whatever calls fail, however often it tried and whatever the rest of
-- the world did between its tries, the lock file holds the own identity or there is none.
start_lock-acquires :
    (id : String) (w s : World) (es : List (Event World))
    → start_lock id w es ≡ returned none s
    → Holds id s ⊎ (s.file ≡ none)
unfolding start_lock
start_lock-acquires id w s es h = nil_lem id s (
    subst (Explained never_aborts (try_lock id) 10) h
      (times-Explained never_aborts (try_lock id) 10 w es))
