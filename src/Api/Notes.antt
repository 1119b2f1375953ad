-- ===== src/Api/Notes.antt =====
-- The notes of the note store, in its child modules, and what they share: buildCompatibleLinkedNoteIds,
-- apps/api/src/note-store-notes.ts, the linked notes that a note shows to clients which know no references.
-- `seen` always has the members of `linkedNoteIds`, so one list stands for both.
pub mod Laws
pub mod Sync
pub mod Rows
pub mod Writes
pub mod Reads
pub mod Links
mod Kept
mod Written
mod Attributed
pub mod Pending
pub mod Strict
pub mod Rebuilt
pub mod Backlinks
pub mod SameNote
pub mod ReadBack
pub mod Invariant
mod Tests
mod Scenario
use dnd_notes.Common.{
  String, Bool, true, false, ◌&&◌, not, List, [], ◌∷◌, ◌++◌, map, keep, any, same_codes, ℕ,
  if◌then◌else◌,
}
use dnd_notes.Api.Store.{ReferenceType, linked, inline, NoteReference}

abbrev pub is_linked : ReferenceType → Bool
is_linked linked = true
is_linked inline = false

abbrev pub has : List (List ℕ) → List ℕ → Bool
has ids id = any (λ x. same_codes x id) ids

abbrev pub targets : List NoteReference → List (List ℕ)
targets references = map (λ r. r.target_note_id) references

abbrev pub push : (is_wanted : Bool) → List ℕ → List (List ℕ) → List (List ℕ)
push is_wanted id ids = if is_wanted && not (has ids id) then ids ++ id ∷ [] else ids

unfoldable pub add_explicit : (linked_targets explicit ids : List (List ℕ)) → List (List ℕ)
add_explicit linked_targets [] ids = ids
add_explicit linked_targets (id ∷ explicit) ids =
    add_explicit linked_targets explicit (push (has linked_targets id) id ids)

unfoldable pub add_references :
    (references : List NoteReference) → (ids : List (List ℕ)) → List (List ℕ)
add_references [] ids = ids
add_references (r ∷ references) ids = add_references references (push true r.target_note_id ids)

unfoldable pub build_compatible_linked_note_ids :
    (explicit : List (List ℕ)) → (references : List NoteReference) → List (List ℕ)
build_compatible_linked_note_ids explicit references =
    let linked_targets = targets (keep (λ r. is_linked r.reference_type) references) in
    add_references references (add_explicit linked_targets explicit [])
