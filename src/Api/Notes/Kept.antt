-- ===== src/Api/Notes/Kept.antt =====
-- Creating and updating a note keep the references consistent.
use dnd_notes.Common.{
  ℕ, String, true, false, ◌&&◌, ◌==◌, ◌≡◌, refl, ◌∙◌, subst, Option, none, some, List, [], ◌∷◌,
  ◌++◌, All, All-weaken, same_codes, same_codes_iff, eq_refl, given, if◌then◌else◌, arith, inl, inr,
  Bool-cases,
}
use dnd_notes.Api.Store.{Campaign, Note, NoteReference, Store}
use dnd_notes.Api.Campaigns.{require_campaign}
use dnd_notes.Api.Notes.Sync.{no_campaign, done, failed, find_note}
use dnd_notes.Api.Notes.Rows.{NoteRecord, map_note_row, row_of, NoteView, compose_note}
use dnd_notes.Api.Notes.Writes.{
  NoteInput, attribution, new_note, insert_note, write_references, create_in, create_note, edited,
  updated_row, update_row, update_in, update_note,
}
use dnd_notes.Api.Notes.Links.{
  stands, IsLinked, AreLinked, Gives, and_then-Gives, any-update_where, any-append, Rewritten,
  replace_note_references-AreLinked,
}

-- More notes leave a reference consistent.
abbrev pub Keeps : List Note → List Note → Type 0
Keeps before after =
    (id : List ℕ) (c : String) → stands id c before ≡ true → stands id c after ≡ true

pub AreLinked-Keeps :
    (before after : List Note) (rs : List NoteReference)
    → Keeps before after
    → All (IsLinked before) rs
    → All (IsLinked after) rs
AreLinked-Keeps before after rs keeps all =
    All-weaken (IsLinked before) (IsLinked after) rs
      (λ r h. (keeps r.source_note_id r.campaign_id h.0, keeps r.target_note_id r.campaign_id h.1))
      all

pub same_codes_refl : (id : List ℕ) → same_codes id id ≡ true
same_codes_refl id = ground (arith, same_codes_iff id id)

pub stands-insert :
    (row : Note) (notes : List Note)
    → Keeps notes (notes ++ row ∷ []) × (stands row.id row.campaign_id (notes ++ row ∷ []) ≡ true)
stands-insert row notes = (
  (λ id c h. ground (
    arith,
    h,
    any-append (λ (n : Note). same_codes n.id id && n.campaign_id == c) notes (row ∷ []),
  )),
  ground (
    arith,
    any-append (λ (n : Note). same_codes n.id row.id && n.campaign_id == row.campaign_id) notes
        (row ∷ []),
    same_codes_refl row.id,
    eq_refl row.campaign_id,
  ),
)

create_in-AreLinked :
    (fresh : ℕ → String) (note : NoteRecord) (s : Store)
    → AreLinked s
    → Gives (λ (r : NoteView × Store). AreLinked r.1) (create_in fresh note s)
unfolding insert_note
create_in-AreLinked fresh note s linked =
    let (keeps, here) = stands-insert (row_of note) s.notes in
    let after = insert_note (row_of note) s in
    and_then-Gives (λ written. Rewritten after written.1) (λ (r : NoteView × Store). AreLinked r.1)
      (write_references fresh note after) (λ written. done (compose_note note written.0, written.1))
      (replace_note_references-AreLinked fresh false note.id note.campaign_id note.body
        note.explicit_linked_note_ids note.updated_at after here
        (AreLinked-Keeps s.notes after.notes s.references keeps linked))
      (λ written h. h.1)

stands-update_row :
    (note : NoteRecord) (s : Store) (id : List ℕ) (c : String)
    → stands id c (update_row note s).notes ≡ stands id c s.notes
unfolding update_row
stands-update_row note s id c =
    any-update_where (λ (row : Note). same_codes row.id note.id)
      (λ (n : Note). same_codes n.id id && n.campaign_id == c) (updated_row note) s.notes
      (λ x. refl)

stands-found :
    (id : List ℕ) (notes : List Note) (row : Note)
    → find_note id notes ≡ some row
    → stands row.id row.campaign_id notes ≡ true
stands-found id [] row e = ground arith
stands-found id (n ∷ notes) row e = elim (Bool-cases (same_codes n.id id)) [
  | inl same ↦
      subst (λ (m : Note). stands m.id m.campaign_id (n ∷ notes) ≡ true) (by_first same e)
        (ground (arith, same_codes_refl n.id, eq_refl n.campaign_id))
  | inr other ↦ ground (arith, stands-found id notes row (by_later other e))
]
  where
    by_first :
        same_codes n.id id ≡ true
        → (if same_codes n.id id then some n else find_note id notes) ≡ some row
        → n ≡ row
    by_first same e = ground (arith, same, e)

    by_later :
        same_codes n.id id ≡ false
        → (if same_codes n.id id then some n else find_note id notes) ≡ some row
        → find_note id notes ≡ some row
    by_later other e = ground (arith, other, e)

update_in-AreLinked :
    (fresh : ℕ → String) (note : NoteRecord) (s : Store)
    → stands note.id note.campaign_id s.notes ≡ true
    → AreLinked s
    → Gives (λ (r : Option NoteView × Store). AreLinked r.1) (update_in fresh note s)
unfolding update_row
update_in-AreLinked fresh note s here linked =
    let after = update_row note s in
    let keeps : Keeps s.notes after.notes = λ id c h. stands-update_row note s id c ∙ h in
    and_then-Gives (λ written. Rewritten after written.1)
      (λ (r : Option NoteView × Store). AreLinked r.1) (write_references fresh note after)
      (λ written. done (some (compose_note note written.0), written.1))
      (replace_note_references-AreLinked fresh false note.id note.campaign_id note.body
        note.explicit_linked_note_ids note.updated_at after (keeps note.id note.campaign_id here)
        (AreLinked-Keeps s.notes after.notes s.references keeps linked))
      (λ written h. h.1)

pub create_note-AreLinked :
    (id : List ℕ) (fresh : ℕ → String) (now : ℕ) (input : NoteInput) (membership : Option String)
    (s : Store)
    → AreLinked s
    → Gives (λ (r : NoteView × Store). AreLinked r.1) (create_note id fresh now input membership s)
unfolding create_note
create_note-AreLinked id fresh now input membership s linked =
    by_campaign (require_campaign input.campaign_id s)
  where
    by_campaign :
        (o : Option Campaign)
        → Gives
            (λ (r : NoteView × Store). AreLinked r.1)
            (elim o [
              | none ↦ failed no_campaign
              | some c ↦
                  create_in fresh (new_note id c.id (attribution s (given membership)) now input) s
            ])
    by_campaign none = tt
    by_campaign (some c) =
        create_in-AreLinked fresh (new_note id c.id (attribution s (given membership)) now input) s
          linked

pub update_note-AreLinked :
    (id : List ℕ) (fresh : ℕ → String) (now : ℕ) (input : NoteInput) (membership : Option String)
    (s : Store)
    → AreLinked s
    → Gives
        (λ (r : Option NoteView × Store). AreLinked r.1)
        (update_note id fresh now input membership s)
unfolding update_note map_note_row
update_note-AreLinked id fresh now input membership s linked =
    by_row (find_note id s.notes) (stands-found id s.notes)
  where
    by_row :
        (o : Option Note)
        → ((row : Note) → o ≡ some row → stands row.id row.campaign_id s.notes ≡ true)
        → Gives
            (λ (r : Option NoteView × Store). AreLinked r.1)
            (elim o [
              | none ↦ done (none, s)
              | some row ↦
                  update_in fresh
                    (edited now input (attribution s (given membership)) (map_note_row s row))
                    s
            ])
    by_row none here = linked
    by_row (some row) here =
        update_in-AreLinked fresh
          (edited now input (attribution s (given membership)) (map_note_row s row)) s
          (here row refl) linked
