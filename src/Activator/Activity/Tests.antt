-- ===== src/Activator/Activity/Tests.antt =====
-- A sleeping tenant and one that is torn down, and the theorems on waking at work on them.
use dnd_notes.Common.{none, some, [], ◌∷◌}
use dnd_notes.Activator.Activity.{Tenant, State}

abbrev asleep : Tenant
asleep = record { id = "1"; subdomain = "ada"; current_state = "sleeping"; desired_state = "ready" }

abbrev leaving : Tenant
leaving = record {
  id = "2";
  subdomain = "bea";
  current_state = "sleeping";
  desired_state = "deprovisioned";
}

abbrev state : State
state = record {
  tenants = leaving ∷ asleep ∷ [];
  activities = [];
  transitions = [];
  cache = [];
  clock = 5;
  faults = [];
}

abbrev flaky : State
flaky = record state { faults = none ∷ some "connection lost" ∷ [] }
