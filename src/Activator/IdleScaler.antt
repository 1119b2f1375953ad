-- ===== src/Activator/IdleScaler.antt =====
-- The idle scaler, apps/activator/src/idle-scaler.ts, which scales idle tenants to zero and marks
-- tenants that are awake. It shares the registry with the activator and the operators: before each
-- call that it awaits, a turn says what these do meanwhile and whether the call fails. `log` has the
-- calls that have returned, the newest first. Times are the database's, in microseconds; `to_date` is
-- what the driver makes of one that it hands over as a Date of JavaScript, which has milliseconds only. A
-- missing subdomain is the empty text. Console lines are left out.
pub mod Laws
mod Tests
use dnd_notes.Common.{
  ℕ, ◌+◌, ◌*◌, String, Bool, true, false, ◌&&◌, ◌||◌, not, Option, none, some, List, [], ◌∷◌, ◌++◌,
  ◌==◌, ◌=ℕ◌, map, leb, ltb, if◌then◌else◌, find, any, keep, update_where,
}
use dnd_notes.Activator.Activity.{Tenant, Activity, Transition}

pub record Deployment : Type 0 where
  pub subdomain : String
  pub replicas : Option ℕ

-- What the scaler shares with others.
pub record Shared : Type 0 where
  pub tenants : List Tenant
  pub activities : List Activity
  pub transitions : List Transition
  pub deployments : List Deployment
  pub now : ℕ

pub record Turn : Type 0 where
  pub meanwhile : Shared → Shared
  pub fails : Bool

pub record IdleTenant : Type 0 where
  pub tenant_id : String
  pub subdomain : String
  pub last_request_at : ℕ

-- `seen` has the rows of tenant_activity that the query found.
pub data Entry : Type 0 where
  reread : (tenant_id : String) → (since : ℕ) → (seen : List Activity) → (is_active : Bool) → Entry
  scaled : (tenant_id subdomain : String) → Entry
  marked : (tenant_id state : String) → Entry
  recorded : Transition → Entry

pub record State : Type 0 where
  pub shared : Shared
  pub turns : List Turn
  pub log : List Entry

-- Without a turn a call returns, and nobody else acts. A call that fails changes nothing.
abbrev pub taken : {A : Type 0} → (Shared → A × Shared) → List Turn → State → Option A × State
taken call [] s = let (a, after) = call s.shared in (some a, record s { shared = after })
taken call (t ∷ turns) s =
    let here = t.meanwhile s.shared in
    let (a, after) = call here in
    if t.fails
    then (none, record s { shared = here; turns = turns })
    else (some a, record s { shared = after; turns = turns })

unfoldable pub await_turn : {A : Type 0} → (Shared → A × Shared) → State → Option A × State
await_turn call s = taken call s.turns s

abbrev pub log : Entry → State → State
log e s = record s { log = e ∷ s.log }

abbrev pub is_leaving : Tenant → Bool
is_leaving t = t.desired_state == "deprovisioned" || t.desired_state == "failed"

abbrev pub is_idle : ℕ → ℕ → Activity → Bool
is_idle minutes now a = a.seen_by_activator && ltb (a.last_request_at + minutes * 60_000_000) now

-- The rows of the join for one tenant; the comparison is the database's, the answer the driver's.
abbrev pub join : (to_date : ℕ → ℕ) → ℕ → ℕ → Tenant → List Activity → List IdleTenant
join to_date minutes now t [] = []
join to_date minutes now t (a ∷ activities) =
    let rest = join to_date minutes now t activities in
    if a.tenant_id == t.id
      && t.current_state == "ready"
      && not (is_leaving t)
      && is_idle minutes now a
    then record {
      tenant_id = t.id;
      subdomain = t.subdomain;
      last_request_at = to_date a.last_request_at;
    }
      ∷ rest
    else rest

unfoldable pub query_idle_eligible_tenants :
    (to_date : ℕ → ℕ) → ℕ → ℕ → List Activity → List Tenant → List IdleTenant
query_idle_eligible_tenants to_date minutes now activities [] = []
query_idle_eligible_tenants to_date minutes now activities (t ∷ tenants) =
    join to_date minutes now t activities
    ++ query_idle_eligible_tenants to_date minutes now activities tenants

abbrev pub has_activity_since : String → ℕ → Shared → Bool
has_activity_since id since w =
    any (λ (a : Activity). a.tenant_id == id && ltb since a.last_request_at) w.activities

abbrev pub replicas_of : Option Deployment → Option ℕ
replicas_of none = none
replicas_of (some d) = elim d.replicas [ none ↦ some 0 | some n ↦ some n ]

-- readNamespacedDeployment: none when there is no such Deployment, which throws.
abbrev pub read_replicas : String → Shared → Option ℕ
read_replicas subdomain w = replicas_of (find (λ d. d.subdomain == subdomain) w.deployments)

abbrev pub scale_to_zero : String → Shared → Shared
scale_to_zero subdomain w = record w {
  deployments =
      update_where (λ d. d.subdomain == subdomain) (λ d. record d { replicas = some 0 })
        w.deployments;
}

-- UPDATE tenants SET current_state WHERE id AND current_state.
abbrev pub move_state : (id from to : String) → Shared → Shared
move_state id from to w = record w {
  tenants =
      update_where (λ t. t.id == id && t.current_state == from)
        (λ t. record t { current_state = to }) w.tenants;
}

abbrev pub transition : (id from to reason : String) → Transition
transition id from to reason = record {
  tenant_id = id;
  from_state = from;
  to_state = to;
  triggered_by = "idle-scaler";
  reason = reason;
}

-- The catch blocks: what is left of a row when a call throws.
abbrev pub or_stop : {A : Type 0} → Option A × State → (A → State → State) → State
or_stop (none, s) f = s
or_stop (some a, s) f = f a s

-- The UPDATE and the INSERT, one after the other.
unfoldable pub mark : (id from to reason : String) → State → State
mark id from to reason s = or_stop (await_turn (λ w. (tt, move_state id from to w)) s) (λ _ s.
    or_stop
      (await_turn
        (λ w. (tt, record w { transitions = w.transitions ++ transition id from to reason ∷ [] }))
        (log (marked id to) s))
      (λ _ s. log (recorded (transition id from to reason)) s))

unfoldable pub scale_down : (reason : String) → IdleTenant → ℕ → State → State
scale_down reason row replicas s =
    if replicas =ℕ 0
    then mark row.tenant_id "ready" "sleeping" reason s
    else or_stop (await_turn (λ w. (tt, scale_to_zero row.subdomain w)) s) (λ _ s.
      mark row.tenant_id "ready" "sleeping" reason (log (scaled row.tenant_id row.subdomain) s))

abbrev pub on_replicas : (reason : String) → IdleTenant → Option ℕ → State → State
on_replicas reason row none s = s
on_replicas reason row (some replicas) s = scale_down reason row replicas s

unfoldable pub verify : (reason : String) → IdleTenant → State → State
verify reason row s =
    or_stop (await_turn (λ w. (read_replicas row.subdomain w, w)) s) (on_replicas reason row)

abbrev pub on_reread : (reason : String) → IdleTenant → Bool × List Activity → State → State
on_reread reason row (is_active, activities) s =
    let seen = log (reread row.tenant_id row.last_request_at activities is_active) s in
    if is_active then seen else verify reason row seen

-- The body of the first loop for one row, in its try block.
unfoldable pub put_to_sleep : (reason : String) → IdleTenant → State → State
put_to_sleep reason row s =
    if row.subdomain == ""
    then s
    else or_stop
        (await_turn
          (λ w. ((has_activity_since row.tenant_id row.last_request_at w, w.activities), w)) s)
        (on_reread reason row)

unfoldable pub put_each_to_sleep : (reason : String) → List IdleTenant → State → State
put_each_to_sleep reason [] s = s
put_each_to_sleep reason (row ∷ rows) s = put_each_to_sleep reason rows (put_to_sleep reason row s)

abbrev pub wake_reason : String
wake_reason = "Deployment replicas > 0, syncing state"

abbrev pub on_awake : Tenant → Option ℕ → State → State
on_awake t none s = s
on_awake t (some replicas) s =
    if leb 1 replicas then mark t.id "sleeping" "ready" wake_reason s else s

-- The body of the second loop for one row.
unfoldable pub sync_back : Tenant → State → State
sync_back t s =
    if t.subdomain == ""
    then s
    else or_stop (await_turn (λ w. (read_replicas t.subdomain w, w)) s) (on_awake t)

unfoldable pub sync_each_back : List Tenant → State → State
sync_each_back [] s = s
sync_each_back (t ∷ tenants) s = sync_each_back tenants (sync_back t s)

abbrev pub sleeping_tenants : Shared → List Tenant
sleeping_tenants w = keep (λ t. t.current_state == "sleeping" && not (is_leaving t)) w.tenants

-- An exception outside the loops ends main, and the process exits with 1.
abbrev pub or_fail : {A : Type 0} → Option A × State → (A → State → Bool × State) → Bool × State
or_fail (none, s) f = (false, s)
or_fail (some a, s) f = f a s

abbrev pub idle_rows : (to_date : ℕ → ℕ) → ℕ → Shared → List IdleTenant
idle_rows to_date minutes w =
    query_idle_eligible_tenants to_date minutes w.now w.activities w.tenants

-- Both loops.
unfoldable pub loops : (reason : String) → List IdleTenant → State → Bool × State
loops reason rows s =
    or_fail (await_turn (λ w. (sleeping_tenants w, w)) (put_each_to_sleep reason rows s))
      (λ tenants s. (true, sync_each_back tenants s))

-- main: whether it completes. `reason` is the text with the threshold.
unfoldable pub main : (to_date : ℕ → ℕ) → (minutes : ℕ) → (reason : String) → State → Bool × State
main to_date minutes reason s =
    if minutes =ℕ 0
    then (false, s)
    else or_fail (await_turn (λ w. (idle_rows to_date minutes w, w)) s) (loops reason)
