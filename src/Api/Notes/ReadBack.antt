-- ===== src/Api/Notes/ReadBack.antt =====
-- What createNote and updateNote answer is what getNote reads afterwards.
use dnd_notes.Common.{
  ℕ, String, false, ◌≡◌, refl, sym, ap, ◌∙◌, subst, Option, none, some, List, find-true,
  find-update_where, map_some, All, same_codes, same_codes_iff, update_where, given, if◌then◌else◌,
}
use mathlib.Core.List.{Perm}
use dnd_notes.Api.Store.{Campaign, Note, NoteReference, Store}
use dnd_notes.Api.Campaigns.{require_campaign}
use dnd_notes.Api.Memberships.{Attribution}
use dnd_notes.Api.Notes.Sync.{no_campaign, done, failed, find_note}
use dnd_notes.Api.Notes.Rows.{
  NoteRecord, joined_attribution, membership_id, map_note_row, row_of, NoteView, compose_note, Scan,
}
use dnd_notes.Api.Notes.Writes.{
  NoteInput, attribution, new_note, insert_note, write_references, create_in, create_note, edited,
  updated_row, update_row, update_in, update_note,
}
use dnd_notes.Api.Notes.Reads.{get_note}
use dnd_notes.Api.Notes.Links.{Gives, and_then-Gives, Gives-done}
use dnd_notes.Api.Notes.Written.{ReadsBack, replace_note_references-ReadsBack, same_codes_refl}
use dnd_notes.Api.Notes.Attributed.{
  IsNamed, IsJoined, attribution-IsJoined, row-IsJoined, coalesce-IsJoined,
}
use dnd_notes.Api.Notes.SameNote.{
  find-append, map_note_row-joined, IsRead, AreRead, get_note-IsRead,
}

module _ (scan : Scan) (is_scan : (xs : List NoteReference) → Perm (scan xs) xs) where
  create_in-get_note :
      (fresh : ℕ → String) (note : NoteRecord) (s : Store)
      → find_note note.id s.notes ≡ none
      → IsJoined s note.created_by
      → IsJoined s note.last_edited_by
      → Gives
          (λ (r : NoteView × Store). IsRead r.0 (get_note scan note.id r.1))
          (create_in fresh note s)
  unfolding get_note insert_note
  create_in-get_note fresh note s new a b =
      let after = insert_note (row_of note) s in
      and_then-Gives (ReadsBack scan note.id after)
        (λ (r : NoteView × Store). IsRead r.0 (get_note scan note.id r.1))
        (write_references fresh note after)
        (λ written. done (compose_note note written.0, written.1))
        (replace_note_references-ReadsBack scan fresh false note.id note.campaign_id note.body
          note.explicit_linked_note_ids note.updated_at after is_scan)
        (λ written (references, notes, memberships).
          get_note-IsRead scan note (row_of note) written.0 written.1
            (ap (find_note note.id) notes ∙ find-append note.id (row_of note) s.notes new refl)
            (map_note_row-joined s written.1 note (membership_id note.created_by)
              (membership_id note.last_edited_by) memberships a b)
            references)

  find-updated :
      (note : NoteRecord) (row : Note) (notes : List Note)
      → find_note note.id notes ≡ some row
      → row.id ≡ note.id
      → find_note note.id
          (update_where (λ (r : Note). same_codes r.id note.id) (updated_row note) notes)
        ≡ some (updated_row note row)
  find-updated note row notes found same =
      find-update_where (λ (r : Note). same_codes r.id note.id)
        (λ (r : Note). same_codes r.id note.id) (updated_row note) notes (λ r. refl)
      ∙ ap (map_some (λ (r : Note). if same_codes r.id note.id then updated_row note r else r))
          found
      ∙ rw (ap (λ x. same_codes x note.id) same ∙ same_codes_refl note.id) refl

  unread : (id : List ℕ) (s : Store) → find_note id s.notes ≡ none → get_note scan id s ≡ none
  unfolding get_note
  unread id s e = rw e refl

  update_in-get_note :
      (fresh : ℕ → String) (now : ℕ) (input : NoteInput) (by : Option Attribution) (row : Note)
      (s : Store)
      → find_note row.id s.notes ≡ some row
      → IsJoined s by
      → Gives
          (λ (r : Option NoteView × Store). AreRead r.0 (get_note scan row.id r.1))
          (update_in fresh (edited now input by (map_note_row s row)) s)
  unfolding map_note_row update_row
  update_in-get_note fresh now input by row s found b =
      let note = edited now input by (map_note_row s row) in
      let after = update_row note s in
      and_then-Gives (ReadsBack scan row.id after)
        (λ (r : Option NoteView × Store). AreRead r.0 (get_note scan row.id r.1))
        (write_references fresh note after)
        (λ written. done (some (compose_note note written.0), written.1))
        (replace_note_references-ReadsBack scan fresh false row.id row.campaign_id note.body
          note.explicit_linked_note_ids note.updated_at after is_scan)
        (λ written (references, notes, memberships).
          get_note-IsRead scan note (updated_row note row) written.0 written.1
            (ap (find_note row.id) notes ∙ find-updated note row s.notes found refl)
            (map_note_row-joined s written.1 note row.created_by (membership_id note.last_edited_by)
              memberships refl
              (coalesce-IsJoined s by (joined_attribution s row.last_edited_by) b
                (row-IsJoined s row.last_edited_by)))
            references)

  -- A note that was created reads back as createNote answered it, with the same references and the same linked
  -- notes, in an order that may be another: where no note has its identifier yet, no membership has an
  -- empty identifier or name, and the database loses and makes up no rows.
  pub create_note-get_note :
      (id : List ℕ) (fresh : ℕ → String) (now : ℕ) (input : NoteInput) (membership : Option String)
      (s t : Store) (note : NoteView)
      → find_note id s.notes ≡ none
      → All IsNamed s.memberships
      → create_note id fresh now input membership s ≡ done (note, t)
      → IsRead note (get_note scan id t)
  unfolding create_note
  create_note-get_note id fresh now input membership s t note new named e =
      Gives-done (λ (r : NoteView × Store). IsRead r.0 (get_note scan id r.1))
        (create_note id fresh now input membership s) (note, t) e
        (by_campaign (require_campaign input.campaign_id s))
    where
      by_campaign :
          (o : Option Campaign)
          → Gives
              (λ (r : NoteView × Store). IsRead r.0 (get_note scan id r.1))
              (elim o [
                | none ↦ failed no_campaign
                | some c ↦
                    create_in fresh
                      (new_note id c.id (attribution s (given membership)) now input)
                      s
              ])
      by_campaign none = tt
      by_campaign (some c) =
          let joined = attribution-IsJoined s (given membership) named in
          create_in-get_note fresh (new_note id c.id (attribution s (given membership)) now input) s
            new joined joined

  -- What updateNote answers is what getNote answers afterwards: that there is no such note, or the note, with
  -- the same references and the same linked notes, in an order that may be another. No membership
  -- has an empty identifier or name, and the database loses and makes up no rows.
  pub update_note-get_note :
      (id : List ℕ) (fresh : ℕ → String) (now : ℕ) (input : NoteInput) (membership : Option String)
      (s t : Store) (note : Option NoteView)
      → All IsNamed s.memberships
      → update_note id fresh now input membership s ≡ done (note, t)
      → AreRead note (get_note scan id t)
  unfolding update_note
  update_note-get_note id fresh now input membership s t note named e =
      Gives-done (λ (r : Option NoteView × Store). AreRead r.0 (get_note scan id r.1))
        (update_note id fresh now input membership s) (note, t) e
        (by_row (find_note id s.notes) refl)
    where
      by_row :
          (o : Option Note)
          → find_note id s.notes ≡ o
          → Gives
              (λ (r : Option NoteView × Store). AreRead r.0 (get_note scan id r.1))
              (elim o [
                | none ↦ done (none, s)
                | some row ↦
                    update_in fresh
                      (edited now input (attribution s (given membership)) (map_note_row s row))
                      s
              ])
      by_row none found = unread id s found
      by_row (some row) found =
          let same =
            (same_codes_iff row.id id).0
              (find-true (λ (n : Note). same_codes n.id id) s.notes row found) in
          let by = attribution s (given membership) in
          subst
            (λ x.
              Gives (λ (r : Option NoteView × Store). AreRead r.0 (get_note scan x r.1))
                (update_in fresh (edited now input by (map_note_row s row)) s))
            same
            (update_in-get_note fresh now input by row s
              (subst (λ x. find_note x s.notes ≡ some row) (sym same) found)
              (attribution-IsJoined s (given membership) named))
