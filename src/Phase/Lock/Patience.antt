-- ===== src/Phase/Lock/Patience.antt =====
-- `startLock` of pkg/phase/91_lock.go where nobody else is at work.
use cargoship.Prelude.{
  ℕ, ◌+◌, ◌-◌, ◌<◌, ◌≤◌, String, ◌≡◌, refl, ◌⊎◌, inl, inr, Option, none, some, List, ◌∷◌, arith,
  ltb, str_eq, Bool-cases,
}
use cargoship.Retry.{Event, tick, returned, times}
use cargoship.Phase.Lock.{
  LockFile, World, busy, delete_file, try_existing, try_created, try_file, try_lock, start_lock,
}
use cargoship.Phase.Lock.Takeover.{host_at}

-- Nothing but time passes between two tries.
unfoldable pub pause : ℕ → Event World
pause d = tick (λ w. record w { now = w.now + d })

abbrev Free : String → ℕ → Option LockFile → Type 0
Free id now file = (s : World) × (try_lock id (host_at now file) ≡ (none, s)) × (s.now ≡ now)

abbrev Held : String → ℕ → Option LockFile → Type 0
Held id now file =
    (f : LockFile) × (file ≡ some f)
    × (now - f.mod_time < 30)
    × (try_lock id (host_at now file) ≡ (some busy, host_at now file))

try_lock_cases :
    (id : String) (now : ℕ) (file : Option LockFile) → Free id now file ⊎ Held id now file
unfolding try_lock try_file try_existing try_created delete_file
try_lock_cases id now none =
    inl (host_at now (some (record { content = id; mod_time = now })), refl, refl)
try_lock_cases id now (some f) = elim (Bool-cases (str_eq f.content id)) [
  | inl n ↦ inl (host_at now (some f), rw n refl, refl)
  | inr n ↦ elim (Bool-cases (ltb (now - f.mod_time) 30)) [
    | inl m ↦ inr (f, refl, ground arith, rw (n, m) refl)
    | inr m ↦ inl (host_at now none, rw (n, m) refl, refl)
  ]
]

-- Where no call fails and nobody touches the host meanwhile, `startLock` returns nil behind at most
-- two rounds of the ticker, 15 seconds or more each, whoever holds a lock file that was last touched
-- in the past.
pub start_lock_succeeds :
    (id : String) (now : ℕ) (file : Option LockFile) (d e : ℕ) (es : List (Event World))
    → 15 ≤ d
    → 15 ≤ e
    → ((f : LockFile) → file ≡ some f → f.mod_time ≤ now)
    → (s : World) × (start_lock id (host_at now file) (pause d ∷ pause e ∷ es) ≡ returned none s)
      × (s.now ≤ now + d + e)
unfolding start_lock times pause
start_lock_succeeds id now file d e es hd he past = elim (try_lock_cases id now file) [
  | inl (s, p, q) ↦ (s, rw p refl, omega arith)
  | inr (f, m, l, p) ↦ elim (try_lock_cases id (now + d) file) [
    | inl (s, p', q) ↦ (s, rw (p, p') refl, omega arith)
    | inr (f', m', l', p') ↦ elim (try_lock_cases id (now + d + e) file) [
      | inl (s, p'', q) ↦ (s, rw (p, p', p'') refl, omega arith)
      | inr (g, m'', l'', p'') ↦ let le = past g m'' in absurd (omega arith)
    ]
  ]
]
