-- ===== src/Api/Notes/Writes.antt =====
-- The operations that write notes, apps/api/src/note-store.ts: create, update, delete, reset. Each runs in
-- one transaction: where it throws, the result is `failed` and no store. Identifiers and the time are
-- arguments; crypto and the clock supply them.
use dnd_notes.Common.{
  ℕ, suc, ◌+◌, ◌-◌, max, String, Bool, false, ◌&&◌, ◌||◌, not, Option, none, some, List, [], ◌∷◌,
  ◌++◌, map, keep, any, ◌==◌, or_else, coalesce, given, same_codes, update_where,
}
use dnd_notes.Api.Store.{Note, NoteStatus, NoteReference, Store}
use dnd_notes.Api.Campaigns.{require_campaign}
use dnd_notes.Api.Memberships.{Attribution, find_membership_attribution}
use dnd_notes.Api.Notes.Sync.{
  no_campaign, Outcome, done, failed, and_then, find_note, replace_note_references, sync_notes,
}
use dnd_notes.Api.Notes.Rows.{
  NoteRecord, map_note_row, membership_id, row_of, NoteView, compose_note, Scan, references_of_note,
}

pub record NoteInput : Type 0 where
  pub campaign_id : Option String
  pub title : String
  pub body : List ℕ
  pub tags : List String
  pub status : NoteStatus
  pub session_name : Option String
  pub linked_note_ids : Option (List (List ℕ))

abbrev pub attribution : Store → Option String → Option Attribution
attribution s none = none
attribution s (some id) = find_membership_attribution id s

abbrev pub new_note :
    (id : List ℕ)
    → (campaign_id : String) → Option Attribution
    → (timestamp : ℕ) → NoteInput
    → NoteRecord
new_note id campaign_id by timestamp input = record {
  id = id;
  campaign_id = campaign_id;
  title = input.title;
  body = input.body;
  tags = input.tags;
  status = input.status;
  session_name = input.session_name;
  explicit_linked_note_ids = or_else input.linked_note_ids [];
  created_by = by;
  last_edited_by = by;
  created_at = timestamp;
  updated_at = timestamp;
}

unfoldable pub insert_note : Note → Store → Store
insert_note row s = record s { notes = s.notes ++ row ∷ [] }

abbrev pub write_references :
    (fresh : ℕ → String) → NoteRecord → Store → Outcome (List NoteReference × Store)
write_references fresh note s =
    replace_note_references fresh false note.id note.campaign_id note.body
      note.explicit_linked_note_ids note.updated_at s

abbrev pub create_in : (fresh : ℕ → String) → NoteRecord → Store → Outcome (NoteView × Store)
create_in fresh note s =
    and_then (write_references fresh note (insert_note (row_of note) s))
      (λ written. done (compose_note note written.0, written.1))

unfoldable pub create_note :
    (id : List ℕ)
    → (fresh : ℕ → String) → (now : ℕ) → NoteInput
    → (membership : Option String) → Store
    → Outcome (NoteView × Store)
create_note id fresh now input membership s = elim (require_campaign input.campaign_id s) [
  | none ↦ failed no_campaign
  | some c ↦ create_in fresh (new_note id c.id (attribution s (given membership)) now input) s
]

abbrev pub create_timestamp_after : (now previous : ℕ) → ℕ
create_timestamp_after now previous = max now (previous + 1)

abbrev pub edited : (now : ℕ) → NoteInput → (by : Option Attribution) → NoteRecord → NoteRecord
edited now input by existing = record existing {
  title = input.title;
  body = input.body;
  tags = input.tags;
  status = input.status;
  session_name = input.session_name;
  explicit_linked_note_ids = or_else input.linked_note_ids existing.explicit_linked_note_ids;
  last_edited_by = coalesce by existing.last_edited_by;
  updated_at = create_timestamp_after now existing.updated_at;
}

-- The UPDATE: the campaign, the creator and the time of creation stay.
abbrev pub updated_row : NoteRecord → Note → Note
updated_row note row = record row {
  title = note.title;
  body = note.body;
  status = note.status;
  tags = note.tags;
  linked_notes = note.explicit_linked_note_ids;
  session_name = note.session_name;
  last_edited_by = membership_id note.last_edited_by;
  updated_at = note.updated_at;
}

unfoldable pub update_row : NoteRecord → Store → Store
update_row note s = record s {
  notes = update_where (λ row. same_codes row.id note.id) (updated_row note) s.notes;
}

abbrev pub update_in : (fresh : ℕ → String) → NoteRecord → Store → Outcome (Option NoteView × Store)
update_in fresh note s =
    and_then (write_references fresh note (update_row note s))
      (λ written. done (some (compose_note note written.0), written.1))

-- A note that does not exist gives none, and nothing is written.
unfoldable pub update_note :
    (id : List ℕ)
    → (fresh : ℕ → String) → (now : ℕ) → NoteInput
    → (membership : Option String) → Store
    → Outcome (Option NoteView × Store)
update_note id fresh now input membership s = elim (find_note id s.notes) [
  | none ↦ done (none, s)
  | some row ↦
      update_in fresh (edited now input (attribution s (given membership)) (map_note_row s row)) s
]

-- ON DELETE CASCADE, for the source and for the target.
abbrev pub cascade : (gone : Note → Bool) → List Note → List NoteReference → List NoteReference
cascade gone notes references =
    keep
      (λ (r : NoteReference). not (
        any (λ (n : Note). gone n && same_codes n.id r.source_note_id) notes
        || any (λ (n : Note). gone n && same_codes n.id r.target_note_id) notes))
      references

unfoldable pub delete_notes : (gone : Note → Bool) → Store → Store
delete_notes gone s = record s {
  notes = keep (λ n. not (gone n)) s.notes;
  references = cascade gone s.notes s.references;
}

unfoldable pub delete_note : List ℕ → Store → Bool × Store
delete_note id s = (any (λ n. same_codes n.id id) s.notes, delete_notes (λ n. same_codes n.id id) s)

-- Date.now() is larger than any number of notes, so the subtraction stops nowhere.
unfoldable pub new_notes :
    (ids : ℕ → List ℕ)
    → (campaign_id : String) → (base_timestamp : ℕ) → (index : ℕ) → List NoteInput
    → List NoteRecord
new_notes ids campaign_id base_timestamp index [] = []
new_notes ids campaign_id base_timestamp index (input ∷ inputs) =
    new_note (ids index) campaign_id none (base_timestamp - index) input
    ∷ new_notes ids campaign_id base_timestamp (suc index) inputs

unfoldable pub insert_notes : List NoteRecord → Store → Store
insert_notes [] s = s
insert_notes (note ∷ notes) s = insert_notes notes (insert_note (row_of note) s)

abbrev pub reset_in :
    Scan → (fresh : List ℕ → ℕ → String) → List NoteRecord → Store → Outcome (List NoteView × Store)
reset_in scan fresh notes s =
    and_then (sync_notes fresh false (map row_of notes) (insert_notes notes s)) (λ written.
      done
        (map (λ note. compose_note note (references_of_note scan note.id written)) notes, written))

unfoldable pub reset_notes :
    Scan
    → (ids : ℕ → List ℕ) → (fresh : List ℕ → ℕ → String) → (now : ℕ) → List NoteInput
    → Option String
    → Store
    → Outcome (List NoteView × Store)
reset_notes scan ids fresh now inputs campaign_id s = elim (require_campaign campaign_id s) [
  | none ↦ failed no_campaign
  | some c ↦
      reset_in scan fresh (new_notes ids c.id now 0 inputs)
        (delete_notes (λ n. n.campaign_id == c.id) s)
]
