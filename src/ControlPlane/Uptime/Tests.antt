-- ===== src/ControlPlane/Uptime/Tests.antt =====
-- A tenant that is provisioned, wakes and sleeps again; the theorem at work on it.
use dnd_notes.Common.{ℕ, String, true, ◌≡◌, refl, [], ◌∷◌}
use dnd_notes.Common.Sort.{place, order_by}
use dnd_notes.ControlPlane.Uptime.{
  StateTransition, Registry, TenantInput, last_where, transitions_in_window, latest_transition,
  state_before_window, walk, state_at_window_start, tenant_uptime,
}

abbrev went : String → String → ℕ → StateTransition
went from to at = record { tenant_id = "t1"; from_state = from; to_state = to; created_at = at }

abbrev registry : Registry
registry = record {
  state_transitions =
      went "provisioning" "provisioning" 50
      ∷ went "provisioning" "ready" 92
      ∷ went "ready" "sleeping" 97
      ∷ went "sleeping" "ready" 99
      ∷ [];
  tenant_activity = record { tenant_id = "t1"; seen_by_activator = true } ∷ [];
}

abbrev tenant : TenantInput
tenant = record { id = "t1"; current_state = "ready"; created_at = 50 }

-- Ready from 92 to 97 and from 99 to 100.
ready_six : (tenant_uptime 100 10 registry tenant).uptime_ms ≡ 6
unfolding tenant_uptime walk transitions_in_window order_by place latest_transition last_where
    state_at_window_start state_before_window
ready_six = refl
