-- ===== src/Activator/IdleScaler/Laws.antt =====
-- A tenant that was active again is left alone.
use dnd_notes.Common.{
  ℕ, String, Bool, true, false, ◌&&◌, not, ◌≡◌, List, [], ◌∷◌, any, ◌==◌, ◌=ℕ◌, leb, ◌||◌,
  if◌then◌else◌,
}
use dnd_notes.Activator.Activity.{Activity}
use dnd_notes.Activator.IdleScaler.{Shared, Turn, IdleTenant, Entry, reread, scaled, marked}

abbrev pub is_row : String → ℕ → IdleTenant → Bool
is_row id since row = row.tenant_id == id && row.last_request_at =ℕ since

-- None of the rows is an activity of the tenant after that time.
abbrev pub is_quiet : (tenant_id : String) → (since : ℕ) → List Activity → Bool
is_quiet id since [] = true
is_quiet id since (a ∷ activities) =
    (not (a.tenant_id == id) || leb a.last_request_at since) && is_quiet id since activities

-- The re-read of one of the rows, when the registry had no activity of the tenant after the row's.
abbrev pub is_clear : List IdleTenant → String → Entry → Bool
is_clear rows id (reread i since seen is_active) =
    i == id && is_quiet i since seen && any (is_row i since) rows
is_clear rows id _ = false

abbrev pub is_guarded : List IdleTenant → Entry → List Entry → Bool
is_guarded rows (scaled id subdomain) earlier = any (is_clear rows id) earlier
is_guarded rows (marked id state) earlier =
    if state == "sleeping" then any (is_clear rows id) earlier else true
is_guarded rows _ earlier = true

abbrev pub Guarded : List IdleTenant → List Entry → Type 0
Guarded rows [] = Unit
Guarded rows (e ∷ earlier) = (is_guarded rows e earlier ≡ true) × Guarded rows earlier

module _ (rows : List IdleTenant) where
  IsListed : IdleTenant → Type 0
  IsListed row = any (is_row row.tenant_id row.last_request_at) rows ≡ true

-- What the scaler selects from the registry at its start: after the first turn's other actions.
abbrev pub seen_first : List Turn → Shared → Shared
seen_first [] w = w
seen_first (t ∷ turns) w = t.meanwhile w
