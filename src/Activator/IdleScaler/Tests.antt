-- ===== src/Activator/IdleScaler/Tests.antt =====
-- Two idle tenants, of which one is woken after the selection; the theorem at work on them.
use dnd_notes.Common.{ℕ, ◌*◌, ◌/◌, List, true, false, ◌≡◌, refl, some, [], ◌∷◌, map}
use dnd_notes.Activator.Activity.{Tenant, Activity}
use dnd_notes.Activator.IdleScaler.{
  Shared, Turn, State, marked, recorded, scaled, reread, await_turn, put_to_sleep,
  put_each_to_sleep, verify, scale_down, mark, sync_back, sync_each_back,
  query_idle_eligible_tenants, loops, main, transition,
}

abbrev ada : Tenant
ada = record { id = "1"; subdomain = "ada"; current_state = "ready"; desired_state = "ready" }

abbrev bea : Tenant
bea = record { id = "2"; subdomain = "bea"; current_state = "ready"; desired_state = "ready" }

abbrev ada_was_here : Activity
ada_was_here = record { tenant_id = "1"; last_request_at = 5_000; seen_by_activator = true }

abbrev bea_was_here : Activity
bea_was_here = record { tenant_id = "2"; last_request_at = 7_000; seen_by_activator = true }

abbrev registry : Shared
registry = record {
  tenants = ada ∷ bea ∷ [];
  activities = ada_was_here ∷ bea_was_here ∷ [];
  transitions = [];
  deployments =
      record { subdomain = "ada"; replicas = some 1 }
      ∷ record { subdomain = "bea"; replicas = some 1 }
      ∷ [];
  now = 9_000_000_000;
}

abbrev quiet : Turn
quiet = record { meanwhile = λ w. w; fails = false }

abbrev visited : List Activity
visited = record ada_was_here { last_request_at = 9_000_001_000 } ∷ bea_was_here ∷ []

-- A Date of JavaScript.
abbrev to_date : ℕ → ℕ
to_date t = t / 1000 * 1000

-- A request for the first tenant.
abbrev visit : Turn
visit = record { meanwhile = λ w. record w { activities = visited }; fails = false }

-- An operator takes the tenants over.
abbrev takeover : Turn
takeover = record {
  meanwhile = λ w. record w {
    tenants = map (λ (t : Tenant). record t { current_state = "failed" }) w.tenants;
  };
  fails = false;
}

abbrev start : State
start = record { shared = registry; turns = quiet ∷ visit ∷ []; log = [] }

main-spares :
    (main to_date 30 "idle" start).1.log
    ≡ recorded (transition "2" "ready" "sleeping" "idle")
      ∷ marked "2" "sleeping"
      ∷ scaled "2" "bea"
      ∷ reread "2" 7_000 visited false
      ∷ reread "1" 5_000 visited true
      ∷ []
unfolding main loops await_turn put_to_sleep put_each_to_sleep verify scale_down mark sync_back
    sync_each_back query_idle_eligible_tenants
main-spares = refl

-- A tenant whose last request has a part of a millisecond is found active at each run, and never sleeps.
abbrev precise : List Activity
precise = record ada_was_here { last_request_at = 5_001 } ∷ []

main-wakeful :
    (main to_date 30 "idle"
      (record start { shared = record registry { activities = precise }; turns = [] })).1.log
    ≡ reread "1" 5_000 precise true ∷ []
unfolding main loops await_turn put_to_sleep put_each_to_sleep verify scale_down mark sync_back
    sync_each_back query_idle_eligible_tenants
main-wakeful = refl

-- The transition is recorded also when the update has found no tenant that is ready.
mark-unmoved :
    (mark "1" "ready" "sleeping" "idle" (record start { turns = takeover ∷ [] })).shared.transitions
    ≡ transition "1" "ready" "sleeping" "idle" ∷ []
unfolding mark await_turn
mark-unmoved = refl
