-- ===== src/Api/Notes/Rows.antt =====
-- Rows of notes, and the notes that clients get: apps/api/src/note-store-notes.ts, mapNoteRow,
-- composeNote and groupReferencesBySource, with the LEFT JOIN of the two attributions.
use dnd_notes.Common.{
  ℕ, String, Bool, true, false, ◌&&◌, ◌||◌, not, Option, none, some, List, keep, ◌==◌, ltb, leb,
  same_codes, if◌then◌else◌,
}
use dnd_notes.Common.Sort.{order_by}
use dnd_notes.Api.Store.{Membership, Note, NoteStatus, NoteReference, Store}
use dnd_notes.Api.Memberships.{Attribution, find_membership}
use dnd_notes.Api.Notes.{is_linked, build_compatible_linked_note_ids}

pub record NoteRecord : Type 0 where
  pub id : List ℕ
  pub campaign_id : String
  pub title : String
  pub body : List ℕ
  pub tags : List String
  pub status : NoteStatus
  pub session_name : Option String
  pub explicit_linked_note_ids : List (List ℕ)
  pub created_by : Option Attribution
  pub last_edited_by : Option Attribution
  pub created_at : ℕ
  pub updated_at : ℕ

-- The joined membership: a missing one, and one with an empty identifier or name, attributes nothing.
abbrev pub attribution_of_row : Option Membership → Option Attribution
attribution_of_row none = none
attribution_of_row (some m) =
    if m.id == "" || m.display_name == ""
    then none
    else some (record { membership_id = m.id; display_name = m.display_name; role = m.role })

abbrev pub joined_attribution : Store → Option String → Option Attribution
joined_attribution s none = none
joined_attribution s (some id) = attribution_of_row (find_membership id s.memberships)

unfoldable pub map_note_row : Store → Note → NoteRecord
map_note_row s row = record {
  id = row.id;
  campaign_id = row.campaign_id;
  title = row.title;
  body = row.body;
  tags = row.tags;
  status = row.status;
  session_name = row.session_name;
  explicit_linked_note_ids = row.linked_notes;
  created_by = joined_attribution s row.created_by;
  last_edited_by = joined_attribution s row.last_edited_by;
  created_at = row.created_at;
  updated_at = row.updated_at;
}

abbrev pub membership_id : Option Attribution → Option String
membership_id none = none
membership_id (some a) = some a.membership_id

-- What insertPersistedNote writes.
abbrev pub row_of : NoteRecord → Note
row_of note = record {
  id = note.id;
  campaign_id = note.campaign_id;
  title = note.title;
  body = note.body;
  status = note.status;
  tags = note.tags;
  linked_notes = note.explicit_linked_note_ids;
  session_name = note.session_name;
  created_by = membership_id note.created_by;
  last_edited_by = membership_id note.last_edited_by;
  created_at = note.created_at;
  updated_at = note.updated_at;
}

-- The Note of types.ts.
pub record NoteView : Type 0 where
  pub id : List ℕ
  pub campaign_id : String
  pub title : String
  pub body : List ℕ
  pub status : NoteStatus
  pub tags : List String
  pub linked_note_ids : List (List ℕ)
  pub references : List NoteReference
  pub session_name : Option String
  pub created_by : Option Attribution
  pub last_edited_by : Option Attribution
  pub created_at : ℕ
  pub updated_at : ℕ

abbrev pub compose_note : NoteRecord → List NoteReference → NoteView
compose_note note references = record {
  id = note.id;
  campaign_id = note.campaign_id;
  title = note.title;
  body = note.body;
  status = note.status;
  tags = note.tags;
  linked_note_ids = build_compatible_linked_note_ids note.explicit_linked_note_ids references;
  references = references;
  session_name = note.session_name;
  created_by = note.created_by;
  last_edited_by = note.last_edited_by;
  created_at = note.created_at;
  updated_at = note.updated_at;
}

-- COALESCE(position_in_body, -1) ASC, created_at ASC.
abbrev pub place_before : Option ℕ → Option ℕ → (tie : Bool) → Bool
place_before none none tie = tie
place_before none (some q) tie = true
place_before (some p) none tie = false
place_before (some p) (some q) tie = ltb p q || (leb p q && tie)

-- CASE reference_type WHEN 'linked' THEN 0 ELSE 1 END ASC, then the places.
abbrev pub listed_first : NoteReference → NoteReference → Bool
listed_first a b =
    if is_linked a.reference_type
    then (not (is_linked b.reference_type)
        || place_before a.position_in_body b.position_in_body (ltb a.created_at b.created_at))
    else (not (is_linked b.reference_type)
        && place_before a.position_in_body b.position_in_body (ltb a.created_at b.created_at))

abbrev pub of_source : List ℕ → NoteReference → Bool
of_source source r = same_codes r.source_note_id source

-- The order in which the database comes upon rows. It may be any, and it decides between rows that
-- ORDER BY leaves tied, such as two explicit references of one note.
abbrev pub Scan : Type 0
Scan = List NoteReference → List NoteReference

unfoldable pub references_of_note : Scan → List ℕ → Store → List NoteReference
references_of_note scan source s =
    order_by listed_first (scan (keep (of_source source) s.references))

-- The rows of a campaign come source by source, in the order of references_of_note, so this is
-- what the map of groupReferencesBySource holds for a source, and the empty list where it holds nothing.
unfoldable pub grouped_references :
    Scan → (campaign_id : String) → (source : List ℕ) → Store → List NoteReference
grouped_references scan campaign_id source s =
    order_by listed_first
      (scan (keep (λ r. r.campaign_id == campaign_id && of_source source r) s.references))
