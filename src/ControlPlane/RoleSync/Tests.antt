-- ===== src/ControlPlane/RoleSync/Tests.antt =====
-- Two accounts of which one is in sync, and the theorems on the retry loop at work on them.
use dnd_notes.Common.{true, false, ◌≡◌, refl, some, List, [], ◌∷◌, ◌==◌, if◌then◌else◌}
use dnd_notes.ControlPlane.RoleSync.{
  Account, Answers, Assignment, Intervals, State, TimerEvent, time_passes, stop_called, run_events,
  start_loop,
}
use dnd_notes.ControlPlane.RoleSync.Laws.{IsAlive, start_loop-IsAlive}
use dnd_notes.ControlPlane.RoleSync.Marks.{Marks}

abbrev accounts : List Account
accounts =
    record { id = "ada"; keycloak_sub = some "k1" }
    ∷ record { id = "bea"; keycloak_sub = some "k2" }
    ∷ []

-- Keycloak refuses the second tenant, which the second account owns.
abbrev answers : Answers
answers = record {
  pending_accounts = some accounts;
  tenants_of = λ id. if id == "ada" then some ("t1" ∷ []) else some ("t1" ∷ "t2" ∷ []);
  assign = λ sub t. if t == "t2" then Assignment.refused else Assignment.assigned;
  marks = λ id. true;
}

abbrev intervals : Intervals
intervals = record { base = 60000; maximum = 300000 }

abbrev first : State
first = record { stopped = false; interval = 60000; timer = some 60000; stops = []; completed = [] }

starts : start_loop intervals [] ≡ some first
unfolding start_loop
starts = refl

-- One tick, and stop() before the next.
abbrev events : List TimerEvent
events = time_passes answers ∷ stop_called ∷ time_passes answers ∷ []

start_loop-IsAlive_example : IsAlive intervals (run_events intervals events first)
start_loop-IsAlive_example = start_loop-IsAlive intervals [] events first starts
