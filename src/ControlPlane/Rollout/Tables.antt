-- ===== src/ControlPlane/Rollout/Tables.antt =====
-- The tables of the fleet rollout (fleet-rollout-orchestrator.ts and migration
-- 0010_fleet_rollouts.sql: fleet_rollouts and fleet_rollout_tenants), the advisory lock, the pool,
-- and what a query meets: time that has passed, an abort request, or a database failure.
use dnd_notes.Common.{
  ℕ, ◌+◌, String, Bool, true, false, ◌&&◌, Option, none, some, List, [], ◌∷◌, ◌==◌, ◌=ℕ◌,
  if◌then◌else◌, update_where, find,
}
use dnd_notes.Common.Prog.{Result, ok, err, Prog}

pub data RolloutStatus : Type 0 where
  running completed aborted failed : RolloutStatus

pub data TenantStatus : Type 0 where
  pending succeeded failed skipped : TenantStatus

pub record RolloutRow : Type 0 where
  pub id : String
  pub target_version : String
  pub status : RolloutStatus
  pub triggered_by : String
  pub started_at : ℕ
  pub ended_at : Option ℕ
  pub abort_reason : Option String
  pub failed_tenant : Option String
  pub failed_error : Option String

pub record TenantRow : Type 0 where
  pub rollout_id : String
  pub tenant_id : String
  pub status : TenantStatus
  pub reason : Option String
  pub started_at : Option ℕ
  pub ended_at : Option ℕ

-- The columns of `tenants` that the orchestrator reads, in the order of created_at.
pub record Tenant : Type 0 where
  pub id : String
  pub current_state : String

pub record ProvisionCall : Type 0 where
  pub tenant_id : String
  pub triggered_by : String
  pub reason : String
  pub version : String

pub data Event : Type 0 where
  quiet : Event
  fault : String → Event
  abort_request : (rollout_id reason : String) → Event

-- What happens while a query is awaited.
pub record Turn : Type 0 where
  pub elapsed : ℕ
  pub event : Event

pub record State : Type 0 where
  pub rollouts : List RolloutRow
  pub rollout_tenants : List TenantRow
  pub tenants : List Tenant
  -- The sessions that hold the lock: empty, or one session as often as it took the lock.
  pub lock_holds : List ℕ
  pub checked_out : ℕ
  pub clock : ℕ
  pub schedule : List Turn
  pub calls : List ProvisionCall
  pub current_tenant_id : Option String

abbrev pub is_running : RolloutStatus → Bool
is_running RolloutStatus.running = true
is_running _ = false

-- UPDATE fleet_rollouts SET abort_reason WHERE id AND status = 'running'.
abbrev pub set_abort_reason : String → String → List RolloutRow → List RolloutRow
set_abort_reason rollout_id reason =
    update_where (λ r. r.id == rollout_id && is_running r.status)
      (λ r. record r { abort_reason = some reason })

abbrev pub meet : Event → State → Option String × State
meet quiet s = (none, s)
meet (fault message) s = (some message, s)
meet (abort_request rollout_id reason) s =
    (none, record s { rollouts = set_abort_reason rollout_id reason s.rollouts })

abbrev pub settle_from : List Turn → State → Option String × State
settle_from [] s = (none, s)
settle_from (t ∷ ts) s = meet t.event (record s { clock = s.clock + t.elapsed; schedule = ts })

-- The next turn of the schedule; a schedule that has run out is quiet.
unfoldable pub settle : State → Option String × State
settle s = settle_from s.schedule s

abbrev pub deliver : {A : Type 0} → Option String × State → (State → A × State) → Result A × State
deliver (none, s) q = let (a, s') = q s in (ok a, s')
deliver (some message, s) q = (err message, s)

-- `await pool.query(...)`.
unfoldable pub await : {A : Type 0} → (State → A × State) → Prog State A
await q s = deliver (settle s) q

abbrev pub await_update : (State → State) → Prog State (Unit {0})
await_update f = await (λ s. (tt, f s))

abbrev pub update_rollouts : (RolloutRow → Bool) → (RolloutRow → RolloutRow) → State → State
update_rollouts p f s = record s { rollouts = update_where p f s.rollouts }

abbrev pub is_tenant_row : String → String → TenantRow → Bool
is_tenant_row rollout_id tenant_id r = r.rollout_id == rollout_id && r.tenant_id == tenant_id

abbrev pub update_tenant_rows : (TenantRow → Bool) → (TenantRow → TenantRow) → State → State
update_tenant_rows p f s = record s { rollout_tenants = update_where p f s.rollout_tenants }

abbrev pub find_rollout : String → List RolloutRow → Option RolloutRow
find_rollout rollout_id = find (λ r. r.id == rollout_id)

abbrev pub find_tenant_row : String → String → List TenantRow → Option TenantRow
find_tenant_row rollout_id tenant_id = find (is_tenant_row rollout_id tenant_id)

-- pg_try_advisory_lock: free, or held by the same session, which takes it once more.
abbrev pub try_lock : ℕ → List ℕ → Bool × List ℕ
try_lock session [] = (true, session ∷ [])
try_lock session (holder ∷ holds) =
    if holder =ℕ session then (true, session ∷ holder ∷ holds) else (false, holder ∷ holds)

-- pg_advisory_unlock: gives one hold of the session back.
abbrev pub unlock : ℕ → List ℕ → List ℕ
unlock session [] = []
unlock session (holder ∷ holds) = if holder =ℕ session then holds else holder ∷ holds
