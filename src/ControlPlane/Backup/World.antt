-- ===== src/ControlPlane/Backup/World.antt =====
-- What the backup scheduler works on: the registry's tables, the blobs, and what happens while it
-- awaits: the call may fail, and stop() may be called. A call that fails has changed nothing.
use dnd_notes.Common.{ℕ, String, Bool, ◌||◌, ◌≡◌, refl, Option, none, some, List, [], ◌∷◌}
use dnd_notes.Common.Prog.{Result, ok, err, Prog}

pub data BackupStatus : Type 0 where
  queued running completed failed : BackupStatus

-- The columns of backup_catalog that the scheduler's statements read or write.
pub record BackupRow : Type 0 where
  pub id : String
  pub tenant_id : String
  pub status : BackupStatus
  pub triggered_by : String
  pub reason : Option String
  pub location : Option String
  pub size_bytes : Option ℕ
  pub checksum : Option String
  pub started_at : Option ℕ
  pub completed_at : Option ℕ
  pub failure_reason : Option String
  pub location_deleted : Bool

pub record AuditEntry : Type 0 where
  pub tenant_id : String
  pub actor : String
  pub action : String
  pub resource_id : String
  pub outcome : String
  pub details : String

pub record Tenant : Type 0 where
  pub id : String
  pub current_state : String
  pub storage_reference : Option String

pub record Blob : Type 0 where
  pub name : String
  pub last_modified : ℕ

pub record Turn : Type 0 where
  pub stop : Bool
  pub fault : Option String

pub record State : Type 0 where
  pub tenants : List Tenant
  pub catalog : List BackupRow
  pub audit : List AuditEntry
  pub blobs : List Blob
  pub clock : ℕ
  pub stopped : Bool
  -- The delay of the tick that is scheduled; none while a tick runs.
  pub timer : Option ℕ
  pub turns : List Turn

abbrev pub take_turn : List Turn → State → Option String × State
take_turn [] s = (none, s)
take_turn (t ∷ ts) s = (t.fault, record s { stopped = s.stopped || t.stop; turns = ts })

unfoldable pub turn : State → Option String × State
turn s = take_turn s.turns s

abbrev pub deliver : {A : Type 0} → Option String × State → (State → A × State) → Result A × State
deliver (none, s) q = let (a, t) = q s in (ok a, t)
deliver (some message, s) q = (err message, s)

unfoldable pub await : {A : Type 0} → (State → A × State) → Prog State A
await q s = deliver (turn s) q

-- A turn changes nothing but the turns and the stop flag.
pub turn-same :
    {A : Type 0} (f : State → A)
    → ((s : State) (b : Bool) (ts : List Turn) → f (record s { stopped = b; turns = ts }) ≡ f s)
    → (s : State) → f (turn s).1 ≡ f s
unfolding turn
turn-same f apart s = by_turns s.turns
  where
    by_turns : (ts : List Turn) → f (take_turn ts s).1 ≡ f s
    by_turns [] = refl
    by_turns (t ∷ ts) = apart s (s.stopped || t.stop) ts
