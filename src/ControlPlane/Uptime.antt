-- ===== src/ControlPlane/Uptime.antt =====
-- getFleetUptimes of apps/control-plane/src/tenant-registry-postgres.ts: how long each tenant was ready
-- or asleep in a window of time. Times are milliseconds. The table of transitions is in the order of its
-- identifiers. The share of the window that uptimePct gives in percent is kept in milliseconds of the
-- window, which is not empty: uptimePct is 100 * uptime_ms / window_ms, in exact arithmetic.
pub mod Timeline
pub mod Laws
mod Tests
use dnd_notes.Common.{
  ℕ, ◌+◌, ◌-◌, ◌*◌, min, max, String, Bool, true, false, ◌&&◌, ◌||◌, not, Option, none, some, List,
  [], ◌∷◌, ◌++◌, map, keep, find, count, ◌==◌, ltb, leb, or_else, coalesce, is_some, map_some,
  if◌then◌else◌,
}
use dnd_notes.Common.Sort.{order_by}

pub record StateTransition : Type 0 where
  pub tenant_id : String
  pub from_state : String
  pub to_state : String
  pub created_at : ℕ

pub record Activity : Type 0 where
  pub tenant_id : String
  pub seen_by_activator : Bool

pub record Registry : Type 0 where
  pub state_transitions : List StateTransition
  pub tenant_activity : List Activity

pub record TenantInput : Type 0 where
  pub id : String
  pub current_state : String
  pub created_at : ℕ

pub record TenantUptime : Type 0 where
  pub current_state_since : ℕ
  pub uptime_ms : ℕ
  pub total_sleep_ms : ℕ
  pub last_sleep_ms : Option ℕ
  pub wake_count : ℕ
  pub last_wake_at : Option ℕ
  pub seen_by_activator : Bool

-- The row with the largest identifier, which is the last one that fits.
unfoldable pub last_where : (StateTransition → Bool) → List StateTransition → Option StateTransition
last_where p [] = none
last_where p (x ∷ xs) = coalesce (last_where p xs) (if p x then some x else none)

abbrev pub in_window : (window_start now : ℕ) → String → StateTransition → Bool
in_window window_start now tenant_id x =
    x.tenant_id == tenant_id && (leb window_start x.created_at && ltb x.created_at now)

abbrev pub earlier : StateTransition → StateTransition → Bool
earlier a b = ltb a.created_at b.created_at

-- Query A, for one tenant.
unfoldable pub transitions_in_window :
    (window_start now : ℕ) → String → Registry → List StateTransition
transitions_in_window window_start now tenant_id s =
    order_by earlier (keep (in_window window_start now tenant_id) s.state_transitions)

-- Query B.
unfoldable pub latest_transition : String → Registry → Option StateTransition
latest_transition tenant_id s = last_where (λ x. x.tenant_id == tenant_id) s.state_transitions

-- Query C.
unfoldable pub state_before_window : (window_start : ℕ) → String → Registry → Option String
state_before_window window_start tenant_id s =
    map_some (λ (x : StateTransition). x.to_state)
      (last_where (λ x. x.tenant_id == tenant_id && ltb x.created_at window_start)
        s.state_transitions)

-- Query D.
abbrev pub is_wake : StateTransition → Bool
is_wake x = x.from_state == "sleeping" && x.to_state == "ready"

abbrev pub later_of : ℕ → Option ℕ → Option ℕ
later_of at none = some at
later_of at (some other) = some (max at other)

unfoldable pub max_created_at : List StateTransition → Option ℕ
max_created_at [] = none
max_created_at (x ∷ xs) = later_of x.created_at (max_created_at xs)

abbrev pub wakes : (window_start now : ℕ) → String → Registry → List StateTransition
wakes window_start now tenant_id s =
    keep (λ x. in_window window_start now tenant_id x && is_wake x) s.state_transitions

abbrev pub seen : Option Activity → Bool
seen none = false
seen (some a) = a.seen_by_activator

-- What the walk over the transitions carries.
pub record Walk : Type 0 where
  pub total_ready_ms : ℕ
  pub total_sleep_ms : ℕ
  pub last_sleep_ms : Option ℕ
  pub last_completed_sleep_end : Option ℕ
  pub current_interval_state : String
  pub current_interval_start : ℕ

-- max(0, end - start), on numbers that stop at 0.
abbrev pub duration : (start interval_end : ℕ) → ℕ
duration start interval_end = interval_end - start

abbrev pub add_interval : (interval_end : ℕ) → Walk → Walk
add_interval interval_end w =
    if w.current_interval_state == "ready"
    then record w {
      total_ready_ms = w.total_ready_ms + duration w.current_interval_start interval_end;
    }
    else if w.current_interval_state == "sleeping"
    then record w {
      total_sleep_ms = w.total_sleep_ms + duration w.current_interval_start interval_end;
    }
    else w

abbrev pub is_later : ℕ → Option ℕ → Bool
is_later sleep_end none = true
is_later sleep_end (some other) = ltb other sleep_end

abbrev pub close_sleep : (at : ℕ) → Walk → Walk
close_sleep at w =
    if w.current_interval_state == "sleeping"
    then (if is_later at w.last_completed_sleep_end
        then record w {
          last_completed_sleep_end = some at;
          last_sleep_ms = some (duration w.current_interval_start at);
        }
        else w)
    else w

abbrev pub pass_transition : StateTransition → Walk → Walk
pass_transition x w = record (close_sleep x.created_at (add_interval x.created_at w)) {
  current_interval_state = x.to_state;
  current_interval_start = x.created_at;
}

unfoldable pub walk : (now : ℕ) → List StateTransition → Walk → Walk
walk now [] w = add_interval now w
walk now (x ∷ xs) w = walk now xs (pass_transition x w)

abbrev pub start_walk : (window_start : ℕ) → (state_at_window_start : String) → Walk
start_walk window_start state = record {
  total_ready_ms = 0;
  total_sleep_ms = 0;
  last_sleep_ms = none;
  last_completed_sleep_end = none;
  current_interval_state = state;
  current_interval_start = window_start;
}

abbrev pub first_from_state : List StateTransition → Option String
first_from_state [] = none
first_from_state (x ∷ xs) = some x.from_state

unfoldable pub state_at_window_start : (window_start now : ℕ) → TenantInput → Registry → String
state_at_window_start window_start now tenant s =
    or_else
      (coalesce (state_before_window window_start tenant.id s)
        (first_from_state (transitions_in_window window_start now tenant.id s)))
      tenant.current_state

abbrev pub uptime_share :
    (window_ms : ℕ) → (total_ready_ms : ℕ) → TenantInput → Option StateTransition → ℕ
uptime_share window_ms ready tenant none = if tenant.current_state == "ready" then window_ms else 0
uptime_share window_ms ready tenant (some x) = max 0 (min window_ms ready)

abbrev pub since : TenantInput → Option StateTransition → ℕ
since tenant none = tenant.created_at
since tenant (some x) = x.created_at

unfoldable pub tenant_uptime : (now window_ms : ℕ) → Registry → TenantInput → TenantUptime
tenant_uptime now window_ms s tenant =
    let window_start = now - window_ms in
    let w =
      walk now (transitions_in_window window_start now tenant.id s)
        (start_walk window_start (state_at_window_start window_start now tenant s)) in
    let latest = latest_transition tenant.id s in
    let woken = wakes window_start now tenant.id s in
    record {
      current_state_since = since tenant latest;
      uptime_ms = uptime_share window_ms w.total_ready_ms tenant latest;
      total_sleep_ms = w.total_sleep_ms;
      last_sleep_ms = w.last_sleep_ms;
      wake_count = count (λ _. true) woken;
      last_wake_at = max_created_at woken;
      seen_by_activator = seen (find (λ a. a.tenant_id == tenant.id) s.tenant_activity);
    }

unfoldable pub get_fleet_uptimes :
    (now window_hours : ℕ) → Registry → List TenantInput → List (String × TenantUptime)
get_fleet_uptimes now window_hours s tenants =
    map (λ t. (t.id, tenant_uptime now (window_hours * 3600 * 1000) s t)) tenants
