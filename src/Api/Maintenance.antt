-- ===== src/Api/Maintenance.antt =====
-- The maintenance mode of a tenant: apps/api/src/control-state.ts, the write gate and the tracking of
-- writes in apps/api/src/app.ts, and apps/api/src/routes/control-routes.ts. Texts that are cut or measured are
-- code units. The request handlers behind the two middlewares are events: each tracked response finishes or
-- closes, in any order, at most once each or more often.
pub mod Inflight
pub mod Drain
pub mod Auth
mod Tests
use dnd_notes.Common.{
  ℕ, zero, suc, ◌+◌, ◌-◌, max, String, Bool, true, false, ◌&&◌, ◌||◌, not, Option, none, some, List,
  [], ◌∷◌, ◌++◌, ◌==◌, ltb, leb, ◌=ℕ◌, codes, same_codes, is_some, length, if◌then◌else◌,
}
use dnd_notes.Api.References.{strip_prefix, trim, is_empty}

pub data Mode : Type 0 where
  enabled disabled : Mode

abbrev pub is_enabled : Mode → Bool
is_enabled enabled = true
is_enabled disabled = false

pub record MaintenanceState : Type 0 where
  pub mode : Mode
  pub since : Option ℕ
  pub reason : Option (List ℕ)

pub record ControlState : Type 0 where
  pub maintenance : MaintenanceState
  pub last_write_at : Option ℕ
  pub last_probe_at : Option ℕ
  pub inflight_writes : ℕ

abbrev pub not_in_maintenance : MaintenanceState
not_in_maintenance = record { mode = disabled; since = none; reason = none }

unfoldable pub create_control_state : ControlState
create_control_state = record {
  maintenance = not_in_maintenance;
  last_write_at = none;
  last_probe_at = none;
  inflight_writes = 0;
}

pub record Request : Type 0 where
  pub method : String
  pub path : List ℕ

-- writeMethods.has(request.method)
abbrev pub is_write : Request → Bool
is_write r =
    (r.method == "POST" || r.method == "PUT") || (r.method == "PATCH" || r.method == "DELETE")

abbrev pub is_control : Request → Bool
is_control r = is_some (strip_prefix (codes "/_control/") r.path)

-- false where the gate answers 503.
unfoldable pub passes_gate : Request → ControlState → Bool
passes_gate r s =
    if not (is_enabled s.maintenance.mode)
    then true
    else if not (is_write r)
    then true
    else is_control r

unfoldable pub should_track_write : Request → Bool
should_track_write r = is_write r && not (is_control r)

-- The `settled` flags of the tracked requests, in the order of their arrival.
pub record Tenant : Type 0 where
  pub control : ControlState
  pub settled : List Bool

abbrev pub new_tenant : Tenant
new_tenant = record { control = create_control_state; settled = [] }

abbrev pub track : Tenant → Tenant
track t = record t {
  control = record t.control { inflight_writes = t.control.inflight_writes + 1 };
  settled = t.settled ++ false ∷ [];
}

-- Both middlewares: what is not refused, and is a write, is tracked.
unfoldable pub arrive : Request → Tenant → Tenant
arrive r t = if passes_gate r t.control then if should_track_write r then track t else t else t

-- settle, on the state: `wrote` is the time where `updateLastWriteAt` holds and the status is below 400.
abbrev pub settle_control : (wrote : Option ℕ) → ControlState → ControlState
settle_control none s = record s { inflight_writes = max 0 (s.inflight_writes - 1) }
settle_control (some now) s = record s {
  inflight_writes = max 0 (s.inflight_writes - 1);
  last_write_at = some now;
}

unfoldable pub settle :
    (wrote : Option ℕ) → (request : ℕ) → List Bool → ControlState → List Bool × ControlState
settle wrote request [] s = ([], s)
settle wrote zero (true ∷ flags) s = (true ∷ flags, s)
settle wrote zero (false ∷ flags) s = (true ∷ flags, settle_control wrote s)
settle wrote (suc request) (b ∷ flags) s =
    let rest = settle wrote request flags s in (b ∷ rest.0, rest.1)

abbrev pub settle_request : (wrote : Option ℕ) → (request : ℕ) → Tenant → Tenant
settle_request wrote request t =
    let after = settle wrote request t.settled t.control in
    record { control = after.1; settled = after.0 }

unfoldable pub on_finish : (request status_code now : ℕ) → Tenant → Tenant
on_finish request status_code now t =
    settle_request (if ltb status_code 400 then some now else none) request t

unfoldable pub on_close : (request : ℕ) → Tenant → Tenant
on_close request t = settle_request none request t

-- A field of the JSON body of a control request.
pub data Field : Type 0 where
  missing null other : Field
  text : List ℕ → Field

pub data Wanted : Type 0 where
  invalid_mode invalid_reason : Wanted
  enable disable : (reason : Option (List ℕ)) → Wanted

-- none is the error, some none no reason.
abbrev pub read_reason : Field → Option (Option (List ℕ))
read_reason missing = some none
read_reason null = some none
read_reason other = none
read_reason (text raw) =
    let trimmed = trim raw in some (if is_empty trimmed then none else some trimmed)

abbrev pub with_reason : (Option (List ℕ) → Wanted) → Option (Option (List ℕ)) → Wanted
with_reason wanted none = invalid_reason
with_reason wanted (some reason) = wanted reason

unfoldable pub read_maintenance : (mode reason : Field) → Wanted
read_maintenance (text raw) reason =
    if same_codes raw (codes "enable")
    then with_reason enable (read_reason reason)
    else if same_codes raw (codes "disable")
    then with_reason disable (read_reason reason)
    else invalid_mode
read_maintenance _ reason = invalid_mode

abbrev pub set_maintenance : MaintenanceState → Tenant → Tenant
set_maintenance m t = record t { control = record t.control { maintenance = m } }

abbrev pub apply_wanted : Wanted → (now : ℕ) → Tenant → Tenant
apply_wanted invalid_mode now t = t
apply_wanted invalid_reason now t = t
apply_wanted (enable reason) now t =
    set_maintenance (record { mode = enabled; since = some now; reason = reason }) t
apply_wanted (disable reason) now t = set_maintenance not_in_maintenance t

-- What POST /_control/maintenance does to the state; an enabling request then waits.
unfoldable pub post_maintenance : (mode reason : Field) → (now : ℕ) → Tenant → Tenant
post_maintenance mode reason now t = apply_wanted (read_maintenance mode reason) now t

-- GET /healthz
unfoldable pub probe : (now : ℕ) → Tenant → Tenant
probe now t = record t { control = record t.control { last_probe_at = some now } }

-- waitForInflightWriteDrain; a grace below 0 is as one of 0. At turn n of the loop `inflight n` writes are in progress and the clock shows
-- `clock n`; between two turns the poll interval passes. `none` is a loop that the fuel cuts off.
unfoldable pub wait_turns : (inflight clock : ℕ → ℕ) → (deadline fuel turn : ℕ) → Option Bool
wait_turns inflight clock deadline zero turn = none
wait_turns inflight clock deadline (suc fuel) turn =
    let rest = wait_turns inflight clock deadline fuel (suc turn) in
    if ltb 0 (inflight turn)
    then if leb deadline (clock turn) then some false else rest
    else some true

unfoldable pub wait_for_inflight_write_drain :
    (inflight clock : ℕ → ℕ) → (fuel timeout_ms : ℕ) → Option Bool
wait_for_inflight_write_drain inflight clock fuel timeout_ms =
    if timeout_ms =ℕ 0
    then some (inflight 0 =ℕ 0)
    else wait_turns inflight clock (clock 0 + timeout_ms) fuel 0

pub data Answer : Type 0 where
  unconfigured token_required token_invalid authorized : Answer

-- normalizeConfiguredControlPlaneToken.
abbrev pub configured : Option (List ℕ) → Option (List ℕ)
configured none = none
configured (some token) =
    let trimmed = trim token in if is_empty trimmed then none else some trimmed

-- `utf8` is Buffer.from, `timing_safe_equal` is node:crypto's.
module _ (utf8 : List ℕ → List ℕ) (timing_safe_equal : List ℕ → List ℕ → Bool) where
  unfoldable pub compare_control_plane_tokens : (expected provided : List ℕ) → Bool
  compare_control_plane_tokens expected provided =
      if not (length (utf8 expected) =ℕ length (utf8 provided))
      then false
      else timing_safe_equal (utf8 expected) (utf8 provided)

  abbrev pub check_provided : (token : List ℕ) → Option (List ℕ) → Answer
  check_provided token none = token_required
  check_provided token (some provided) =
      if compare_control_plane_tokens token (trim provided) then authorized else token_invalid

  abbrev pub bearer : Option (List ℕ) → Option (List ℕ)
  bearer none = none
  bearer (some header) = strip_prefix (codes "Bearer ") header

  -- createControlAuthMiddleware: `authorized` calls next.
  unfoldable pub authorize : (control_plane_token authorization : Option (List ℕ)) → Answer
  authorize token header = elim (configured token) [
    | none ↦ unconfigured
    | some expected ↦ check_provided expected (bearer header)
  ]
