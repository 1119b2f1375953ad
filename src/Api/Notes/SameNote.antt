-- ===== src/Api/Notes/SameNote.antt =====
-- When a note that is read is the one that was answered, and how a row is read.
use dnd_notes.Common.{
  ℕ, String, ◌≡◌, refl, sym, ap, ◌∙◌, Option, none, some, List, [], ◌∷◌, ◌++◌, map_some, same_codes,
  inl, inr, Bool-cases, none-ne,
}
use mathlib.Core.List.{Perm}
use dnd_notes.Api.Notes.{has}
use dnd_notes.Api.Notes.Laws.{has-build}
use dnd_notes.Common.Sort.{any-Perm}
use dnd_notes.Api.Store.{Note, NoteReference, Store}
use dnd_notes.Api.Memberships.{Attribution, find_membership}
use dnd_notes.Api.Notes.Sync.{find_note}
use dnd_notes.Api.Notes.Rows.{
  NoteRecord, attribution_of_row, joined_attribution, map_note_row, row_of, NoteView, compose_note,
  Scan, references_of_note,
}
use dnd_notes.Api.Notes.Reads.{get_note}
use dnd_notes.Api.Notes.Written.{same_codes_refl}

pub find-append :
    (id : List ℕ) (row : Note) (notes : List Note)
    → find_note id notes ≡ none
    → row.id ≡ id
    → find_note id (notes ++ row ∷ []) ≡ some row
find-append id row [] e same = rw (ap (λ x. same_codes x id) same ∙ same_codes_refl id) refl
find-append id row (n ∷ notes) e same = elim (Bool-cases (same_codes n.id id)) [
  | inl hit ↦ absurd (none-ne n (sym (rw hit at e)))
  | inr miss ↦ rw miss (find-append id row notes (rw miss at e) same)
]

-- The note that is read from its row, where the memberships did not change.
pub map_note_row-joined :
    (s t : Store) (note : NoteRecord) (creator editor : Option String)
    → t.memberships ≡ s.memberships
    → joined_attribution s creator ≡ note.created_by
    → joined_attribution s editor ≡ note.last_edited_by
    → map_note_row t (record (row_of note) { created_by = creator; last_edited_by = editor }) ≡ note
unfolding map_note_row
map_note_row-joined s t note creator editor e a b =
    ap
      (λ (c : Option Attribution). record note {
        created_by = c;
        last_edited_by = joined_attribution t editor;
      })
      (in_both note.created_by creator a)
    ∙ ap (λ (c : Option Attribution). record note { last_edited_by = c })
        (in_both note.last_edited_by editor b)
  where
    in_both :
        (by : Option Attribution) (id : Option String)
        → joined_attribution s id ≡ by
        → joined_attribution t id ≡ by
    in_both by none h = h
    in_both by (some id) h = ap (λ ms. attribution_of_row (find_membership id ms)) e ∙ h

-- A note as it was answered, but for the order of its references and of the linked notes that come from them.
pub record IsSameNote (answered read : NoteView) : Type 0 where
  pub references : Perm read.references answered.references
  pub linked_notes : (id : List ℕ) → has read.linked_note_ids id ≡ has answered.linked_note_ids id
  pub fields :
      record read { references = answered.references; linked_note_ids = answered.linked_note_ids }
      ≡ answered

compose_note-IsSameNote :
    (note : NoteRecord) (written read : List NoteReference)
    → Perm read written
    → IsSameNote (compose_note note written) (compose_note note read)
compose_note-IsSameNote note written read p = record {
  references = p;
  linked_notes = λ id.
      has-build note.explicit_linked_note_ids read id
      ∙ any-Perm (λ (r : NoteReference). same_codes r.target_note_id id) p
      ∙ sym (has-build note.explicit_linked_note_ids written id);
  fields = refl;
}

-- There is such a note among what was read.
abbrev pub IsRead : (answered : NoteView) → Option NoteView → Type 0
IsRead answered found = (read : NoteView) × (found ≡ some read) × IsSameNote answered read

abbrev pub AreRead : (answered found : Option NoteView) → Type 0
AreRead none found = found ≡ none
AreRead (some note) found = IsRead note found

pub get_note-IsRead :
    (scan : Scan) (note : NoteRecord) (row : Note) (references : List NoteReference) (t : Store)
    → find_note note.id t.notes ≡ some row
    → map_note_row t row ≡ note
    → Perm (references_of_note scan note.id t) references
    → IsRead (compose_note note references) (get_note scan note.id t)
unfolding get_note
get_note-IsRead scan note row references t found mapped same = (
  compose_note note (references_of_note scan note.id t),
  ap (map_some (λ r. compose_note (map_note_row t r) (references_of_note scan note.id t))) found
      ∙ ap (λ n. some (compose_note n (references_of_note scan note.id t))) mapped,
  compose_note-IsSameNote note references (references_of_note scan note.id t) same,
)
