-- ===== src/Api/Notes/Invariant.antt =====
-- Whatever sequence of operations a store has seen, its references are consistent with its notes.
use dnd_notes.Common.{
  ℕ, String, Bool, true, false, ◌&&◌, ◌||◌, not, ◌==◌, ◌≡◌, refl, sym, ◌∙◌, subst, Option, none,
  some, List, [], ◌∷◌, map, keep, any, All, All-weaken, same_codes, eq_refl, arith, inl, inr,
  Bool-cases,
}
use dnd_notes.Api.Store.{Campaign, Membership, ShareLink, Note, NoteReference, Store}
use dnd_notes.Api.Campaigns.{require_campaign}
use dnd_notes.Api.Consolidation.{reassign_attribution}
use dnd_notes.Api.Notes.Sync.{
  no_campaign, done, failed, replace_note_references, sync_notes, sync_note_references,
}
use dnd_notes.Api.Notes.Rows.{NoteRecord, row_of, NoteView, compose_note, Scan, references_of_note}
use dnd_notes.Api.Notes.Writes.{
  NoteInput, insert_note, create_note, update_note, cascade, delete_notes, delete_note, new_notes,
  insert_notes, reset_in, reset_notes,
}
use dnd_notes.Api.Notes.Kept.{
  Keeps, AreLinked-Keeps, same_codes_refl, stands-insert, create_note-AreLinked,
  update_note-AreLinked,
}
use dnd_notes.Api.Notes.Links.{
  stands, IsLinked, AreLinked, Gives, and_then-Gives, Gives-done, any-update_where, Rewritten,
  replace_note_references-AreLinked,
}

-- A reference that the cascade leaves keeps both notes.
stands-left :
    (gone : Note → Bool) (notes : List Note) (id : List ℕ) (c : String)
    → any (λ (n : Note). gone n && same_codes n.id id) notes ≡ false
    → stands id c notes ≡ true
    → stands id c (keep (λ n. not (gone n)) notes) ≡ true
stands-left gone [] id c e h = h
stands-left gone (n ∷ notes) id c e h = ground (arith, e, h, stands-left gone notes id c)

cascade-IsLinked :
    (gone : Note → Bool) (notes : List Note) (rs : List NoteReference)
    → All (IsLinked notes) rs
    → All (IsLinked (keep (λ n. not (gone n)) notes)) (cascade gone notes rs)
cascade-IsLinked gone notes [] all = tt
cascade-IsLinked gone notes (r ∷ rs) (h, all) =
    let source = any (λ (n : Note). gone n && same_codes n.id r.source_note_id) notes in
    let target = any (λ (n : Note). gone n && same_codes n.id r.target_note_id) notes in
    elim (Bool-cases (source || target)) [
      | inl e ↦ rw e (cascade-IsLinked gone notes rs all)
      | inr e ↦ rw e (
        (
          stands-left gone notes r.source_note_id r.campaign_id (ground (arith, e)) h.0,
          stands-left gone notes r.target_note_id r.campaign_id (ground (arith, e)) h.1,
        ),
        cascade-IsLinked gone notes rs all,
      )
    ]

delete_notes-AreLinked :
    (gone : Note → Bool) (s : Store) → AreLinked s → AreLinked (delete_notes gone s)
unfolding delete_notes
delete_notes-AreLinked gone s linked = cascade-IsLinked gone s.notes s.references linked

-- Every one of these notes stands among those.
abbrev Stand : List Note → List Note → Type 0
Stand notes rows = All (λ (n : Note). stands n.id n.campaign_id notes ≡ true) rows

sync_notes-AreLinked :
    (fresh : List ℕ → ℕ → String) (allow : Bool) (rows : List Note) (s : Store)
    → Stand s.notes rows
    → AreLinked s
    → Gives AreLinked (sync_notes fresh allow rows s)
unfolding sync_notes
sync_notes-AreLinked fresh allow [] s here linked = linked
sync_notes-AreLinked fresh allow (n ∷ rows) s here linked =
    and_then-Gives (λ written. Rewritten s written.1) AreLinked
      (replace_note_references (fresh n.id) allow n.id n.campaign_id n.body n.linked_notes
        n.updated_at s)
      (λ written. sync_notes fresh allow rows written.1)
      (replace_note_references-AreLinked (fresh n.id) allow n.id n.campaign_id n.body n.linked_notes
        n.updated_at s here.0 linked)
      (λ written h.
        sync_notes-AreLinked fresh allow rows written.1
          (subst (λ notes. Stand notes rows) (sym h.0) here.1) h.1)

Stand-self : (notes : List Note) → Stand notes notes
Stand-self [] = tt
Stand-self (n ∷ notes) = (
  ground (arith, same_codes_refl n.id, eq_refl n.campaign_id),
  All-weaken (λ (m : Note). stands m.id m.campaign_id notes ≡ true)
      (λ (m : Note). stands m.id m.campaign_id (n ∷ notes) ≡ true) notes (λ m h. ground (arith, h))
      (Stand-self notes),
)

pub sync_note_references-AreLinked :
    (fresh : List ℕ → ℕ → String) (s : Store)
    → AreLinked s
    → Gives AreLinked (sync_note_references fresh s)
unfolding sync_note_references
sync_note_references-AreLinked fresh s linked =
    sync_notes-AreLinked fresh true s.notes s (Stand-self s.notes) linked

insert_notes-Stand :
    (records : List NoteRecord) (s : Store)
    → AreLinked s
    → let after = insert_notes records s in
      AreLinked after × Keeps s.notes after.notes × Stand after.notes (map row_of records)
unfolding insert_notes insert_note
insert_notes-Stand [] s linked = (linked, (λ id c h. h), tt)
insert_notes-Stand (n ∷ records) s linked =
    let (keeps, here) = stands-insert (row_of n) s.notes in
    let next = insert_note (row_of n) s in
    let (l, k, st) =
      insert_notes-Stand records next
        (AreLinked-Keeps s.notes next.notes s.references keeps linked) in
    (l, (λ id c h. k id c (keeps id c h)), (k n.id n.campaign_id here, st))

reset_notes-AreLinked :
    (scan : Scan) (ids : ℕ → List ℕ) (fresh : List ℕ → ℕ → String) (now : ℕ)
    (inputs : List NoteInput) (campaign_id : Option String) (s : Store)
    → AreLinked s
    → Gives
        (λ (r : List NoteView × Store). AreLinked r.1)
        (reset_notes scan ids fresh now inputs campaign_id s)
unfolding reset_notes
reset_notes-AreLinked scan ids fresh now inputs campaign_id s linked =
    by_campaign (require_campaign campaign_id s)
  where
    by_campaign :
        (o : Option Campaign)
        → Gives
            (λ (r : List NoteView × Store). AreLinked r.1)
            (elim o [
              | none ↦ failed no_campaign
              | some c ↦
                  reset_in scan fresh
                    (new_notes ids c.id now 0 inputs)
                    (delete_notes (λ n. n.campaign_id == c.id) s)
            ])
    by_campaign none = tt
    by_campaign (some c) =
        let records = new_notes ids c.id now 0 inputs in
        let emptied = delete_notes (λ n. n.campaign_id == c.id) s in
        let (l, k, st) =
          insert_notes-Stand records emptied
            (delete_notes-AreLinked (λ n. n.campaign_id == c.id) s linked) in
        and_then-Gives AreLinked (λ (r : List NoteView × Store). AreLinked r.1)
          (sync_notes fresh false (map row_of records) (insert_notes records emptied))
          (λ written. done (
            map (λ note. compose_note note (references_of_note scan note.id written)) records,
            written,
          ))
          (sync_notes-AreLinked fresh false (map row_of records) (insert_notes records emptied) st
            l)
          (λ written h. h)

reassign_attribution-AreLinked :
    (campaign_id source target : String) (s : Store)
    → AreLinked s
    → AreLinked (reassign_attribution campaign_id source target s)
unfolding reassign_attribution
reassign_attribution-AreLinked campaign_id source target s linked =
    let after = reassign_attribution campaign_id source target s in
    AreLinked-Keeps s.notes after.notes s.references
      (λ id c h.
        any-update_where _ (λ (n : Note). same_codes n.id id && n.campaign_id == c) _ s.notes
          (λ x. refl)
        ∙ h)
      linked

-- One operation on the store. The other domains write the other tables, and the notes by
-- reassign_attribution only.
pub data Step : Store → Store → Type 0 where
  created :
      {s t : Store} {note : NoteView} (id : List ℕ) (fresh : ℕ → String) (now : ℕ)
      (input : NoteInput) (membership : Option String)
      → create_note id fresh now input membership s ≡ done (note, t)
      → Step s t
  updated :
      {s t : Store} {note : Option NoteView} (id : List ℕ) (fresh : ℕ → String) (now : ℕ)
      (input : NoteInput) (membership : Option String)
      → update_note id fresh now input membership s ≡ done (note, t)
      → Step s t
  deleted : {s : Store} (id : List ℕ) → Step s (delete_note id s).1
  reset :
      {s t : Store} {notes : List NoteView} (scan : Scan) (ids : ℕ → List ℕ)
      (fresh : List ℕ → ℕ → String) (now : ℕ) (inputs : List NoteInput)
      (campaign_id : Option String)
      → reset_notes scan ids fresh now inputs campaign_id s ≡ done (notes, t)
      → Step s t
  started :
      {s t : Store} (fresh : List ℕ → ℕ → String) → sync_note_references fresh s ≡ done t → Step s t
  reassigned :
      {s : Store} (campaign_id source target : String)
      → Step s (reassign_attribution campaign_id source target s)
  elsewhere :
      {s : Store} (campaigns : List Campaign) (memberships : List Membership)
      (links : List ShareLink)
      → Step s (record s { campaigns = campaigns; memberships = memberships; share_links = links })

pub data Steps : Store → Store → Type 0 where
  stay : {s : Store} → Steps s s
  followed : {s t u : Store} → Steps s t → Step t u → Steps s u

Step-AreLinked : {s t : Store} → Step s t → AreLinked s → AreLinked t
unfolding delete_note
Step-AreLinked (created {s} {t} {note} id fresh now input membership e) linked =
    Gives-done (λ (r : NoteView × Store). AreLinked r.1)
      (create_note id fresh now input membership s) (note, t) e
      (create_note-AreLinked id fresh now input membership s linked)
Step-AreLinked (updated {s} {t} {note} id fresh now input membership e) linked =
    Gives-done (λ (r : Option NoteView × Store). AreLinked r.1)
      (update_note id fresh now input membership s) (note, t) e
      (update_note-AreLinked id fresh now input membership s linked)
Step-AreLinked (deleted {s} id) linked = delete_notes-AreLinked (λ n. same_codes n.id id) s linked
Step-AreLinked (reset {s} {t} {notes} scan ids fresh now inputs campaign_id e) linked =
    Gives-done (λ (r : List NoteView × Store). AreLinked r.1)
      (reset_notes scan ids fresh now inputs campaign_id s) (notes, t) e
      (reset_notes-AreLinked scan ids fresh now inputs campaign_id s linked)
Step-AreLinked (started {s} {t} fresh e) linked =
    Gives-done AreLinked (sync_note_references fresh s) t e
      (sync_note_references-AreLinked fresh s linked)
Step-AreLinked (reassigned {s} campaign_id source target) linked =
    reassign_attribution-AreLinked campaign_id source target s linked
Step-AreLinked (elsewhere campaigns memberships links) linked = linked

-- From a store without references, no sequence of operations that writes, deletes, resets or
-- synchronizes notes leaves a reference whose source or target is missing or stands in another
-- campaign than the reference.
pub Steps-AreLinked : (s t : Store) → s.references ≡ [] → Steps s t → AreLinked t
Steps-AreLinked s t start stay = subst (All (IsLinked s.notes)) (sym start) tt
Steps-AreLinked s t start (followed steps step) =
    Step-AreLinked step (Steps-AreLinked s _ start steps)
