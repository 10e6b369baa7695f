-- ===== src/Phase/Lock.antt =====
-- pkg/phase/91_lock.go: the lock file of one host. One call of `tryLock` is one step: no other
-- instance acts between its calls of the file system. Which of these calls fail is part of the world.
pub mod Safety
pub mod Takeover
pub mod Patience
mod Examples
use cargoship.Prelude.{
  ℕ, ◌-◌, String, Bool, true, false, Option, none, some, List, ltb, str_eq, if◌then◌else◌,
}
use cargoship.Retry.{Event, Outcome, times}

pub record LockFile : Type 0 where
  pub content : String
  pub mod_time : ℕ

-- Which calls of the file system fail, for another reason than the file being there.
pub record Faults : Type 0 where
  pub create : Bool
  pub stat : Bool
  pub read : Bool
  pub write : Bool
  pub close : Bool
  pub delete : Bool

-- The lock file, the time in seconds, and the faults of the calls.
pub record World : Type 0 where
  pub file : Option LockFile
  pub now : ℕ
  pub faults : Faults

pub data LockError : Type 0 where
  create_failed disappeared read_failed busy delete_failed write_failed close_failed : LockError

-- `h.DeleteFile`.
delete_file : World → Option LockError × World
delete_file w =
    if w.faults.delete then (some delete_failed, w) else (none, record w { file = none })

-- The file is there: ours, held by another instance, or stale.
try_existing : String → LockFile → World → Option LockError × World
unfolding delete_file
try_existing id f w =
    if w.faults.stat
    then (some disappeared, w)
    else if w.faults.read
    then (some read_failed, w)
    else if str_eq f.content id
    then (none, w)
    else if ltb (w.now - f.mod_time) 30
    then (some busy, w)
    else delete_file w

-- `O_EXCL` created the file: write the identity into it.
try_created : String → World → Option LockError × World
unfolding delete_file
try_created id w =
    let opened = record w { file = some (record { content = ""; mod_time = w.now }) } in
    let written = record w { file = some (record { content = id; mod_time = w.now }) } in
    if w.faults.write
    then (some write_failed, (delete_file opened).1)
    else if w.faults.close
    then (some close_failed, (delete_file written).1)
    else (none, written)

try_file : String → Option LockFile → World → Option LockError × World
unfolding try_existing try_created
try_file id none w = try_created id w
try_file id (some f) w = try_existing id f w

unfoldable pub try_lock : String → World → Option LockError × World
unfolding try_file
try_lock id w = if w.faults.create then (some create_failed, w) else try_file id w.file w

-- No error of `tryLock` wraps `ErrAbort`.
abbrev pub never_aborts : LockError → Bool
never_aborts e = false

pub start_lock : String → World → List (Event World) → Outcome LockError World
start_lock id = times never_aborts (try_lock id) 10
