-- ===== src/Activator/Watch/Tests.antt =====
-- A tenant's Deployment that is scaled and deleted, a wait that ends in the second round, and the
-- delays of a watch that fails twice; the theorems at work on them.
use dnd_notes.Common.{
  zero, ℕ, suc, ◌≤◌, Bool, true, false, ◌≡◌, refl, ◌⊎◌, Option, none, some, List, [], ◌∷◌, codes,
  arith, or_else,
}
use dnd_notes.Activator.Watch.{
  State, get, set, delete, resource_key, Event, handle_deployment_event, handle_endpoint_event,
  ready_count, get_replicas, patch_replicas, get_ready_addresses,
}
use dnd_notes.Activator.Watch.Cache.{latest, fold_events, caches-latest}
use dnd_notes.Activator.Watch.Wait.{
  Round, Options, Waiting, check_pods, check, rest_of_round, poll_until, is_ready,
  wait_for_ready_endpoint,
}
use dnd_notes.Activator.Watch.Wait.Laws.{
  wait_for_ready_endpoint-Ends, wait_for_ready_endpoint-tells,
}
use dnd_notes.Activator.Watch.Reconnect.{
  Backoff, Turn, compute_reconnect_delay, capped, run_watch_loop,
}

abbrev caches : State
caches = record { replica_cache = []; ready_address_cache = [] }

abbrev tenant : List ℕ
tenant = codes "tenant-ada"

abbrev service : List ℕ
service = codes "dnd-notes"

-- The latest event comes first.
abbrev scaled : List (Event (Option ℕ))
scaled =
    record { type = "MODIFIED"; namespace = tenant; name = service; object = some 1 }
    ∷ record { type = "DELETED"; namespace = codes "tenant-bea"; name = service; object = some 1 }
    ∷ record { type = "ADDED"; namespace = tenant; name = service; object = none }
    ∷ []

abbrev endpoints : List (Event (List (Option ℕ)))
endpoints =
    record { type = "ADDED"; namespace = tenant; name = service; object = some 1 ∷ none ∷ [] } ∷ []

caches-latest_example :
    let key = resource_key tenant service in
    (get key (fold_events handle_deployment_event scaled caches).replica_cache
      ≡ latest (λ o. or_else o 0) tenant service scaled)
    × (get key (fold_events handle_endpoint_event endpoints caches).ready_address_cache
        ≡ latest ready_count tenant service endpoints)
caches-latest_example =
    caches-latest b't' b'd' (codes "enant-ada") (codes "nd-notes") scaled endpoints refl
      (refl, (refl, (refl, tt))) (refl, tt)

get_replicas-patched :
    (get_replicas tenant service none (patch_replicas tenant service 1 true caches).1).0 ≡ some 1
unfolding get_replicas patch_replicas set get
get_replicas-patched = refl

get_ready_addresses-missing : (get_ready_addresses tenant service none caches).0 ≡ some 0
unfolding get_ready_addresses get
get_ready_addresses-missing = refl

abbrev options : Options
options = record { poll_interval = 500; pod_schedule_budget = 30000; timeout = 1000 }

-- Nothing in the first round, one address in each later one.
abbrev outside : ℕ → Round
outside i = record {
  pods = none;
  endpoints = elim i [ zero ↦ none | suc n ↦ some (some 1 ∷ []) ];
  while_listing = λ s. s;
  while_reading = λ s. s;
  while_asleep = λ s. s;
  took = 20;
}

abbrev woken : Waiting
woken = record {
  caches = record {
    replica_cache = [];
    ready_address_cache = (resource_key tenant service, 1) ∷ [];
  };
  elapsed = 520;
  emitted = 0;
}

wait-woken :
    wait_for_ready_endpoint 3 options tenant service service outside caches ≡ some (true, woken)
unfolding wait_for_ready_endpoint poll_until check check_pods rest_of_round get set delete
wait-woken = refl

wait_for_ready_endpoint-Ends_example :
    (end : Bool × Waiting) × (wait_for_ready_endpoint 3 options tenant service service outside
        caches
      ≡ some end)
wait_for_ready_endpoint-Ends_example =
    wait_for_ready_endpoint-Ends 2 options tenant service service outside caches (omega arith)

wait_for_ready_endpoint-tells_example :
    (((true ≡ true)
        × (is_ready (get (resource_key tenant service) woken.caches.ready_address_cache) ≡ true))
      ⊎ ((true ≡ false) × (1000 ≤ 520)))
    × (0 ≤ 1)
wait_for_ready_endpoint-tells_example =
    wait_for_ready_endpoint-tells 3 options tenant service service outside caches true woken
      wait-woken

abbrev backoff : Backoff
backoff = record { base_ms = 1000; cap_ms = 30000 }

abbrev turns : List Turn
turns =
    record { has_failed = true; is_stopped = false; draw = 0 }
    ∷ record { has_failed = true; is_stopped = false; draw = 4503599627370496 }
    ∷ record { has_failed = false; is_stopped = false; draw = 0 }
    ∷ record { has_failed = true; is_stopped = true; draw = 0 }
    ∷ []

run_watch_loop-twice : run_watch_loop backoff 0 turns ≡ 800 ∷ 2000 ∷ 800 ∷ []
unfolding run_watch_loop compute_reconnect_delay capped
run_watch_loop-twice = refl
