-- ===== src/ControlPlane/RoleSync.antt =====
-- The role-sync retry loop, apps/control-plane/src/role-sync-retry.ts.
pub mod Laws
pub mod Marks
mod Tests
use dnd_notes.Common.{
  ℕ, ◌*◌, min, String, Bool, true, false, ◌&&◌, ◌||◌, Option, none, some, List, [], ◌∷◌, ◌++◌, ltb,
  if◌then◌else◌, given,
}

pub record Account : Type 0 where
  pub id : String
  pub keycloak_sub : Option String

-- What assignClientRoleToUser does: it returns, it throws a 404, or it throws something else.
pub data Assignment : Type 0 where
  assigned absent refused : Assignment

-- What the registry and Keycloak answer during one tick; `none` and `false` are thrown errors.
pub record Answers : Type 0 where
  pub pending_accounts : Option (List Account)
  pub tenants_of : String → Option (List String)
  pub assign : (sub tenant : String) → Assignment
  pub marks : String → Bool

pub record Intervals : Type 0 where
  pub base : ℕ
  pub maximum : ℕ

-- `stops` says of each await to come whether stop() is called meanwhile, `timer` is the delay of
-- the tick that is scheduled, and `completed` the accounts that were marked.
pub record State : Type 0 where
  pub stopped : Bool
  pub interval : ℕ
  pub timer : Option ℕ
  pub stops : List Bool
  pub completed : List String

abbrev pub stop : State → State
stop s = record s { stopped = true; timer = none }

abbrev pub pause_from : List Bool → State → State
pause_from [] s = s
pause_from (true ∷ rest) s = stop (record s { stops = rest })
pause_from (false ∷ rest) s = record s { stops = rest }

unfoldable pub pause : State → State
pause s = pause_from s.stops s

abbrev pub is_resolved : Assignment → Bool
is_resolved Assignment.refused = false
is_resolved _ = true

-- The tenants of one account: whether all slots are resolved, or `none` where stop() ends the tick.
unfoldable pub assign_tenants : Answers → String → List String → Bool → State → Option Bool × State
assign_tenants w sub [] all s = (some all, s)
assign_tenants w sub (t ∷ ts) all s =
    if s.stopped
    then (none, s)
    else assign_tenants w sub ts (all && is_resolved (w.assign sub t)) (pause s)

-- markRoleSyncComplete; its error is only logged.
unfoldable pub mark_complete : Answers → String → State → State
mark_complete w id s =
    let t = pause s in if w.marks id then record t { completed = t.completed ++ id ∷ [] } else t

abbrev pub finish_account : Answers → String → Option Bool × State → Option Bool × State
finish_account w id (none, s) = (none, s)
finish_account w id (some false, s) = (some false, s)
finish_account w id (some true, s) = (some true, mark_complete w id s)

abbrev pub sync_tenants :
    Answers → String → String → Option (List String) → State → Option Bool × State
sync_tenants w id sub none s = (some false, s)
sync_tenants w id sub (some tenants) s = finish_account w id (assign_tenants w sub tenants true s)

abbrev pub sync_as : Answers → String → Option String → State → Option Bool × State
sync_as w id none s = (some false, s)
sync_as w id (some sub) s = sync_tenants w id sub (w.tenants_of id) (pause s)

-- Whether the account succeeded, or `none` where stop() ends the tick.
unfoldable pub sync_account : Answers → Account → State → Option Bool × State
sync_account w a s = sync_as w a.id (given a.keycloak_sub) s

-- The accounts that follow, unless stop() ended the tick at this one.
abbrev pub next_account :
    (Bool → State → Option Bool × State) → Bool → Option Bool × State → Option Bool × State
next_account loop any (none, s) = (none, s)
next_account loop any (some succeeded, s) = loop (any || succeeded) s

unfoldable pub sync_accounts : Answers → List Account → Bool → State → Option Bool × State
sync_accounts w [] any s = (some any, s)
sync_accounts w (a ∷ rest) any s =
    if s.stopped then (none, s) else next_account (sync_accounts w rest) any (sync_account w a s)

unfoldable pub schedule_next : Intervals → Bool → State → State
schedule_next i any s =
    let next = if any then i.base else min (s.interval * 2) i.maximum in
    if s.stopped then s else record s { interval = next; timer = some next }

abbrev pub schedule_if_done : Intervals → Option Bool × State → State
schedule_if_done i (none, s) = s
schedule_if_done i (some any, s) = schedule_next i any s

abbrev pub tick_found : Intervals → Answers → Option (List Account) → State → State
tick_found i w none s = schedule_next i false s
tick_found i w (some []) s = schedule_next i true s
tick_found i w (some (a ∷ rest)) s = schedule_if_done i (sync_accounts w (a ∷ rest) false s)

unfoldable pub tick : Intervals → Answers → State → State
tick i w s = if s.stopped then s else tick_found i w w.pending_accounts (pause s)

-- The timer that was set goes off; without one nothing happens any more.
abbrev pub fire : Intervals → Answers → Option ℕ → State → State
fire i w none s = s
fire i w (some delay) s = tick i w (record s { timer = none })

-- Between two ticks time passes until the timer goes off, or stop() is called.
pub data TimerEvent : Type 0 where
  time_passes : Answers → TimerEvent
  stop_called : TimerEvent

abbrev pub on_event : Intervals → TimerEvent → State → State
on_event i (time_passes w) s = fire i w s.timer s
on_event i stop_called s = stop s

unfoldable pub run_events : Intervals → List TimerEvent → State → State
run_events i [] s = s
run_events i (e ∷ rest) s = run_events i rest (on_event i e s)

-- `none` is the error of an invalid interval.
unfoldable pub start_loop : Intervals → List Bool → Option State
start_loop i stops =
    if ltb i.base 1 || ltb i.maximum i.base
    then none
    else some (record {
      stopped = false;
      interval = i.base;
      timer = some i.base;
      stops = stops;
      completed = [];
    })
