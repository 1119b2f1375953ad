-- ===== src/ControlPlane/Uptime/Laws.antt =====
-- The totals of the walk are the milliseconds of each state in the window.
use dnd_notes.Common.{ℕ, String}
use dnd_notes.ControlPlane.Uptime.{
  Registry, TenantInput, transitions_in_window, state_at_window_start,
}
use dnd_notes.ControlPlane.Uptime.Timeline.{state_at}

-- The state of a tenant at a time in the window.
abbrev pub tenant_state : (window_start now : ℕ) → Registry → TenantInput → ℕ → String
tenant_state window_start now s tenant =
    state_at (state_at_window_start window_start now tenant s)
      (transitions_in_window window_start now tenant.id s)
