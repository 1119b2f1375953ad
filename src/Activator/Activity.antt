-- ===== src/Activator/Activity.antt =====
-- The activator's writes to the registry, apps/activator/src/tenant-activity.ts. The calls run one
-- after the other, so the cache holds the identifiers that were found. `faults` says of each query
-- to come whether it throws.
pub mod Laws
mod Tests
use dnd_notes.Common.{
  ℕ, String, Bool, true, false, ◌&&◌, ◌||◌, not, Option, none, some, List, [], ◌∷◌, ◌++◌, ◌==◌,
  if◌then◌else◌, find, any, update_where,
}
use dnd_notes.Common.Prog.{Result, ok, err, Prog, ◌>>=◌, ◌>>◌, pure, modify}

pub record Tenant : Type 0 where
  pub id : String
  pub subdomain : String
  pub current_state : String
  pub desired_state : String

pub record Activity : Type 0 where
  pub tenant_id : String
  pub last_request_at : ℕ
  pub seen_by_activator : Bool

pub record Transition : Type 0 where
  pub tenant_id : String
  pub from_state : String
  pub to_state : String
  pub triggered_by : String
  pub reason : String

pub record State : Type 0 where
  pub tenants : List Tenant
  pub activities : List Activity
  pub transitions : List Transition
  pub cache : List (String × String)
  pub clock : ℕ
  pub faults : List (Option String)

abbrev pub answer :
    {A : Type 0} → (State → A × State) → List (Option String) → State → Result A × State
answer q [] s = let (a, t) = q s in (ok a, t)
answer q (some message ∷ rest) s = (err message, record s { faults = rest })
answer q (none ∷ rest) s = let (a, t) = q (record s { faults = rest }) in (ok a, t)

unfoldable pub query : {A : Type 0} → (State → A × State) → Prog State A
query q s = answer q s.faults s

abbrev pub cached : String → List (String × String) → Option String
cached subdomain [] = none
cached subdomain ((name, id) ∷ rest) =
    let later = cached subdomain rest in if name == subdomain then some id else later

abbrev pub remember : String → Option Tenant → Prog State (Option String)
remember subdomain none = pure none
remember subdomain (some t) = do
  modify (λ s. record s { cache = (subdomain, t.id) ∷ s.cache })
  pure (some t.id)

unfoldable pub look_up : String → Option String → Prog State (Option String)
look_up subdomain (some id) = pure (some id)
look_up subdomain none = do
  row ← query (λ s. (find (λ t. t.subdomain == subdomain) s.tenants, s))
  remember subdomain row

unfoldable pub resolve_tenant_id : String → Prog State (Option String)
resolve_tenant_id subdomain s = look_up subdomain (cached subdomain s.cache) s

-- INSERT ... ON CONFLICT (tenant_id) DO UPDATE.
abbrev pub upsert : String → State → State
upsert id s =
    let is_row = λ (a : Activity). a.tenant_id == id in
    if any is_row s.activities
    then record s {
      activities =
          update_where is_row
            (λ a. record a { last_request_at = s.clock; seen_by_activator = true }) s.activities;
    }
    else record s {
      activities =
          s.activities
          ++ record { tenant_id = id; last_request_at = s.clock; seen_by_activator = true } ∷ [];
    }

unfoldable pub record_resolved : Option String → Prog State (Unit {0})
record_resolved none = pure tt
record_resolved (some id) = query (λ s. (tt, upsert id s))

unfoldable pub record_activity : String → Prog State (Unit {0})
record_activity subdomain = do id ← resolve_tenant_id subdomain; record_resolved id

-- WHERE id AND current_state = 'sleeping' AND desired_state NOT IN ('deprovisioned', 'failed').
abbrev pub can_wake : String → Tenant → Bool
can_wake id t =
    t.id == id
    && t.current_state == "sleeping"
    && not (t.desired_state == "deprovisioned" || t.desired_state == "failed")

abbrev pub woken : Tenant → Tenant
woken t = record t { current_state = "ready" }

abbrev pub wake_transition : String → Transition
wake_transition id = record {
  tenant_id = id;
  from_state = "sleeping";
  to_state = "ready";
  triggered_by = "activator";
  reason = "wake-on-request";
}

unfoldable pub record_wake : String → Bool → Prog State (Unit {0})
record_wake id false = pure tt
record_wake id true =
    query (λ s. (tt, record s { transitions = s.transitions ++ wake_transition id ∷ [] }))

unfoldable pub wake_tenant : String → Prog State Bool
wake_tenant id = query (λ s. (
  any (can_wake id) s.tenants,
  record s { tenants = update_where (can_wake id) woken s.tenants },
))

unfoldable pub mark_resolved : Option String → Prog State (Unit {0})
mark_resolved none = pure tt
mark_resolved (some id) = do updated ← wake_tenant id; record_wake id updated

unfoldable pub mark_ready : String → Prog State (Unit {0})
mark_ready subdomain = do id ← resolve_tenant_id subdomain; mark_resolved id
