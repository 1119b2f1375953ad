-- ===== src/Api/Notes/Pending.antt =====
-- Which references a note gets where faults do not count, without the loops: the accepted targets.
use dnd_notes.Common.{
  ℕ, String, Bool, true, false, ◌||◌, not, ◌≡◌, refl, ap, ◌∙◌, Option, none, some, List, [], ◌∷◌,
  ◌++◌, map, keep, is_some, if◌then◌else◌,
}
use dnd_notes.Api.Store.{Store}
use dnd_notes.Api.References.{
  InlineReference, Parsed, parsed, refused, trim, is_empty, parse_inline_note_references,
}
use dnd_notes.Api.Notes.{has}
use dnd_notes.Api.Notes.Sync.{
  NoteError, Outcome, done, failed, and_then, PendingReference, validate_reference_target,
  linked_to, inline_to, add_pending, choose, pass, take, stop, linked_references, inline_references,
  read_body, build_pending_references,
}

-- The identifiers that are not blank, each where it stands first.
abbrev pub distinct_ids : (seen : List (List ℕ)) → List (List ℕ) → List (List ℕ)
distinct_ids seen [] = []
distinct_ids seen (id ∷ ids) =
    if is_empty id || has seen id then distinct_ids seen ids else id ∷ distinct_ids (id ∷ seen) ids

abbrev pub is_valid : (campaign_id : String) → Store → List ℕ → Bool
is_valid campaign_id s id = not (is_some (validate_reference_target id campaign_id s))

abbrev pub linked_inline : List (List ℕ) → List InlineReference → List PendingReference
linked_inline ids rs = map linked_to ids ++ map inline_to rs

inline_lenient :
    (campaign_id : String) (s : Store) (rs : List InlineReference)
    → inline_references true campaign_id s rs
      ≡ done (
          map inline_to
            (keep (λ (r : InlineReference). is_valid campaign_id s r.target_note_id) rs))
unfolding inline_references
inline_lenient campaign_id s [] = refl
inline_lenient campaign_id s (r ∷ rs) =
    turn (validate_reference_target r.target_note_id campaign_id s)
      (inline_references true campaign_id s rs)
      (keep (λ (x : InlineReference). is_valid campaign_id s x.target_note_id) rs)
      (inline_lenient campaign_id s rs)
  where
    turn :
        (o : Option NoteError) (on : Outcome (List PendingReference)) (kept : List InlineReference)
        → on ≡ done (map inline_to kept)
        → elim (choose true o) [
          | pass ↦ on
          | take ↦ add_pending (inline_to r) on
          | stop e ↦ failed e
        ]
          ≡ done (map inline_to (if not (is_some o) then r ∷ kept else kept))
    turn none on kept h = ap (add_pending (inline_to r)) h
    turn (some e) on kept h = h

linked_lenient :
    (campaign_id : String) (s : Store) (later : List PendingReference) (seen ids : List (List ℕ))
    → linked_references true campaign_id s (done later) seen ids
      ≡ done (
          map linked_to (distinct_ids seen (keep (is_valid campaign_id s) (map trim ids))) ++ later)
unfolding linked_references
linked_lenient campaign_id s later seen [] = refl
linked_lenient campaign_id s later seen (id ∷ ids) =
    turn (trim id) (is_empty (trim id) || has seen (trim id)) refl
      (validate_reference_target (trim id) campaign_id s)
      (keep (is_valid campaign_id s) (map trim ids)) (linked_lenient campaign_id s later seen ids)
      (linked_lenient campaign_id s later (trim id ∷ seen) ids)
  where
    turn :
        (t : List ℕ) (b : Bool)
        → (is_empty t || has seen t) ≡ b
        → (o : Option NoteError) (kept : List (List ℕ))
        → {over on : Outcome (List PendingReference)}
        → over ≡ done (map linked_to (distinct_ids seen kept) ++ later)
        → on ≡ done (map linked_to (distinct_ids (t ∷ seen) kept) ++ later)
        → elim (if b then pass else choose true o) [
          | pass ↦ over
          | take ↦ add_pending (linked_to t) on
          | stop e ↦ failed e
        ]
          ≡ done (
              map linked_to (distinct_ids seen (if not (is_some o) then t ∷ kept else kept))
              ++ later)
    turn t true e none kept h k = rw e h
    turn t false e none kept h k = rw e (ap (add_pending (linked_to t)) k)
    turn t true e (some x) kept h k = h
    turn t false e (some x) kept h k = h

-- The references of a body that can be read, and none of one that cannot.
abbrev pub readable : Option Parsed → List InlineReference
readable (some (parsed rs)) = rs
readable (some (refused e)) = []
readable none = []

-- Where invalid references are allowed, nothing fails: the references are the accepted identifiers of the
-- explicit list, trimmed and each of them once, then the accepted references of the body.
pub build_pending_references-lenient :
    (body : List ℕ) (explicit : List (List ℕ)) (campaign_id : String) (s : Store)
    → build_pending_references true body explicit campaign_id s
      ≡ done (
          linked_inline (distinct_ids [] (keep (is_valid campaign_id s) (map trim explicit))) (
            keep
              (λ (r : InlineReference). is_valid campaign_id s r.target_note_id)
              (readable (parse_inline_note_references body))))
unfolding build_pending_references
build_pending_references-lenient body explicit campaign_id s =
    by_parsed (parse_inline_note_references body)
  where
    on :
        (rs : List InlineReference)
        → linked_references true campaign_id s (inline_references true campaign_id s rs) [] explicit
          ≡ done (
              linked_inline
                (distinct_ids [] (keep (is_valid campaign_id s) (map trim explicit)))
                (keep (λ (r : InlineReference). is_valid campaign_id s r.target_note_id) rs))
    on rs =
        ap (λ later. linked_references true campaign_id s later [] explicit)
          (inline_lenient campaign_id s rs)
        ∙ linked_lenient campaign_id s
            (map inline_to
              (keep (λ (r : InlineReference). is_valid campaign_id s r.target_note_id) rs))
            [] explicit

    by_parsed :
        (o : Option Parsed)
        → and_then (read_body true o) (λ rs.
          linked_references true campaign_id s
            (inline_references true campaign_id s rs)
            []
            explicit)
          ≡ done (
              linked_inline (distinct_ids [] (keep (is_valid campaign_id s) (map trim explicit))) (
                keep
                  (λ (r : InlineReference). is_valid campaign_id s r.target_note_id)
                  (readable o)))
    by_parsed none = on []
    by_parsed (some (parsed rs)) = on rs
    by_parsed (some (refused e)) = on []
