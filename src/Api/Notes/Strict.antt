-- ===== src/Api/Notes/Strict.antt =====
-- Which references a note gets where faults count, without the loops: all of them, or the first fault.
use dnd_notes.Common.{ℕ, String, Option, none, some, List, [], ◌∷◌, map, coalesce}
use dnd_notes.Api.Store.{Store}
use dnd_notes.Api.References.{InlineReference}
use dnd_notes.Api.Notes.Sync.{
  NoteError, Outcome, done, failed, PendingReference, validate_reference_target,
}

abbrev pub first_error : (campaign_id : String) → Store → List (List ℕ) → Option NoteError
first_error campaign_id s [] = none
first_error campaign_id s (id ∷ ids) =
    coalesce (validate_reference_target id campaign_id s) (first_error campaign_id s ids)

abbrev pub unless_error : Option NoteError → List PendingReference → Outcome (List PendingReference)
unless_error none ps = done ps
unless_error (some e) ps = failed e

abbrev pub inline_targets : List InlineReference → List (List ℕ)
inline_targets rs = map (λ (r : InlineReference). r.target_note_id) rs
