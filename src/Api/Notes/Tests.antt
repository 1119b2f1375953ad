-- ===== src/Api/Notes/Tests.antt =====
-- A note with three references, and an explicit list in another order; the theorem at work on them.
use dnd_notes.Common.{ℕ, none, codes, String, ◌≡◌, refl, List, [], ◌∷◌}
use dnd_notes.Api.Store.{ReferenceType, linked, inline, NoteReference}
use dnd_notes.Api.Notes.{add_explicit, add_references, build_compatible_linked_note_ids}

abbrev reference : String → ReferenceType → NoteReference
reference target type = record {
  id = "r";
  source_note_id = codes "map";
  target_note_id = codes target;
  campaign_id = "c1";
  reference_type = type;
  label = none;
  qualifier = none;
  position_in_body = none;
  created_at = 0;
  updated_at = 0;
}

abbrev references : List NoteReference
references =
    reference "inn" linked
    ∷ reference "mill" linked
    ∷ reference "inn" inline
    ∷ reference "well" inline
    ∷ []

abbrev explicit : List (List ℕ)
explicit = codes "mill" ∷ codes "gone" ∷ codes "inn" ∷ codes "mill" ∷ []

build-ordered :
    build_compatible_linked_note_ids explicit references
    ≡ codes "mill" ∷ codes "inn" ∷ codes "well" ∷ []
unfolding build_compatible_linked_note_ids add_explicit add_references
build-ordered = refl
