-- ===== src/Api/Notes/Sync.antt =====
-- The references of a note, from its body and its explicit list, apps/api/src/note-store.ts:
-- validateReferenceTarget, buildPendingReferences, replaceNoteReferences and the sync at startup.
-- `fresh` gives the identifiers of the new rows, by the note and the place in its list.
use dnd_notes.Common.{
  ℕ, suc, String, Bool, true, ◌||◌, not, Option, none, some, List, [], ◌∷◌, ◌++◌, find, keep, ◌==◌,
  same_codes, if◌then◌else◌,
}
use dnd_notes.Api.References.{
  InlineReference, ParseError, Parsed, parsed, refused, trim, is_empty,
  parse_inline_note_references,
}
use dnd_notes.Api.Store.{Note, NoteReference, ReferenceType, linked, inline, Store}
use dnd_notes.Api.Notes.{has}

-- What is thrown, and what is returned where nothing is.
pub data NoteError : Type 0 where
  no_campaign : NoteError
  bad_body : ParseError → NoteError
  not_found : (target : List ℕ) → NoteError
  other_campaign : (target : List ℕ) → NoteError

pub data Outcome {ℓ} (A : Type ℓ) : Type ℓ where
  done : A → Outcome A
  failed : NoteError → Outcome A

abbrev pub and_then {ℓ κ} : {A : Type ℓ} {B : Type κ} → Outcome A → (A → Outcome B) → Outcome B
and_then (done a) f = f a
and_then (failed e) f = failed e

pub record PendingReference : Type 0 where
  pub target_note_id : List ℕ
  pub reference_type : ReferenceType
  pub label : Option (List ℕ)
  pub qualifier : Option (List ℕ)
  pub position_in_body : Option ℕ

abbrev pub find_note : List ℕ → List Note → Option Note
find_note id notes = find (λ n. same_codes n.id id) notes

abbrev pub check_target : List ℕ → String → Option Note → Option NoteError
check_target target campaign_id none = some (not_found target)
check_target target campaign_id (some n) =
    if n.campaign_id == campaign_id then none else some (other_campaign target)

-- none where the target is accepted.
unfoldable pub validate_reference_target : List ℕ → String → Store → Option NoteError
validate_reference_target target campaign_id s =
    check_target target campaign_id (find_note target s.notes)

abbrev pub linked_to : List ℕ → PendingReference
linked_to target = record {
  target_note_id = target;
  reference_type = linked;
  label = none;
  qualifier = none;
  position_in_body = none;
}

abbrev pub inline_to : InlineReference → PendingReference
inline_to r = record {
  target_note_id = r.target_note_id;
  reference_type = inline;
  label = r.label;
  qualifier = r.qualifier;
  position_in_body = some r.position_in_body;
}

-- What a loop does with one target.
pub data Choice : Type 0 where
  pass : Choice
  take : Choice
  stop : NoteError → Choice

abbrev pub choose : (allow_invalid : Bool) → Option NoteError → Choice
choose allow none = take
choose allow (some e) = if allow then pass else stop e

abbrev pub choose_linked : Bool → String → Store → List (List ℕ) → List ℕ → Choice
choose_linked allow campaign_id s seen target =
    if is_empty target || has seen target
    then pass
    else choose allow (validate_reference_target target campaign_id s)

abbrev pub add_pending :
    PendingReference → Outcome (List PendingReference) → Outcome (List PendingReference)
add_pending p rest = and_then rest (λ ps. done (p ∷ ps))

-- The loop over the explicit list, then `later`. `seen` is explicitTargetIds.
unfoldable pub linked_references :
    Bool
    → String
    → Store
    → Outcome (List PendingReference)
    → (seen : List (List ℕ)) → List (List ℕ)
    → Outcome (List PendingReference)
linked_references allow campaign_id s later seen [] = later
linked_references allow campaign_id s later seen (id ∷ ids) =
    elim (choose_linked allow campaign_id s seen (trim id)) [
      | pass ↦ linked_references allow campaign_id s later seen ids
      | take ↦
          add_pending (linked_to (trim id))
            (linked_references allow campaign_id s later (trim id ∷ seen) ids)
      | stop e ↦ failed e
    ]

-- The loop over the references of the body.
unfoldable pub inline_references :
    Bool → String → Store → List InlineReference → Outcome (List PendingReference)
inline_references allow campaign_id s [] = done []
inline_references allow campaign_id s (r ∷ rs) =
    elim (choose allow (validate_reference_target r.target_note_id campaign_id s)) [
      | pass ↦ inline_references allow campaign_id s rs
      | take ↦ add_pending (inline_to r) (inline_references allow campaign_id s rs)
      | stop e ↦ failed e
    ]

-- An exception of the parser counts as no references where invalid ones are allowed. The parser
-- answers every body, so none stands for nothing.
abbrev pub read_body : (allow_invalid : Bool) → Option Parsed → Outcome (List InlineReference)
read_body allow none = done []
read_body allow (some (parsed rs)) = done rs
read_body allow (some (refused e)) = if allow then done [] else failed (bad_body e)

unfoldable pub build_pending_references :
    (allow_invalid : Bool)
    → (body : List ℕ) → (explicit : List (List ℕ)) → (campaign_id : String) → Store
    → Outcome (List PendingReference)
build_pending_references allow body explicit campaign_id s =
    and_then (read_body allow (parse_inline_note_references body)) (λ rs.
      linked_references allow campaign_id s (inline_references allow campaign_id s rs) [] explicit)

abbrev pub row_for :
    (id : String)
    → (source : List ℕ) → (campaign_id : String) → (timestamp : ℕ) → PendingReference
    → NoteReference
row_for id source campaign_id timestamp p = record {
  id = id;
  source_note_id = source;
  target_note_id = p.target_note_id;
  campaign_id = campaign_id;
  reference_type = p.reference_type;
  label = p.label;
  qualifier = p.qualifier;
  position_in_body = p.position_in_body;
  created_at = timestamp;
  updated_at = timestamp;
}

unfoldable pub persist :
    (fresh : ℕ → String)
    → (source : List ℕ) → (campaign_id : String) → (timestamp : ℕ) → (place : ℕ)
    → List PendingReference
    → List NoteReference
persist fresh source campaign_id timestamp place [] = []
persist fresh source campaign_id timestamp place (p ∷ ps) =
    row_for (fresh place) source campaign_id timestamp p
    ∷ persist fresh source campaign_id timestamp (suc place) ps

abbrev pub without_source : List ℕ → List NoteReference → List NoteReference
without_source source rs = keep (λ (r : NoteReference). not (same_codes r.source_note_id source)) rs

-- The references that are written, and the store with them.
unfoldable pub replace_note_references :
    (fresh : ℕ → String)
    → (allow_invalid : Bool) → (source : List ℕ) → (campaign_id : String) → (body : List ℕ)
    → (explicit : List (List ℕ)) → (timestamp : ℕ) → Store
    → Outcome (List NoteReference × Store)
replace_note_references fresh allow source campaign_id body explicit timestamp s =
    and_then (build_pending_references allow body explicit campaign_id s) (λ pending.
      let rows = persist fresh source campaign_id timestamp 0 pending in
      done (rows, record s { references = without_source source s.references ++ rows }))

-- The loop over notes, at startup and at a reset.
unfoldable pub sync_notes :
    (fresh : List ℕ → ℕ → String) → (allow_invalid : Bool) → List Note → Store → Outcome Store
sync_notes fresh allow [] s = done s
sync_notes fresh allow (n ∷ notes) s =
    and_then
      (replace_note_references (fresh n.id) allow n.id n.campaign_id n.body n.linked_notes
        n.updated_at s)
      (λ written. sync_notes fresh allow notes written.1)

unfoldable pub sync_note_references : (fresh : List ℕ → ℕ → String) → Store → Outcome Store
sync_note_references fresh s = sync_notes fresh true s.notes s
