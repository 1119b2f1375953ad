-- ===== src/Web/References/Agreement.antt =====
-- The client and the API agree on references.
use dnd_notes.Common.{
  ℕ, true, false, ◌≡◌, refl, sym, ap, ◌∙◌, Option, none, some, List, [], ◌∷◌, ◌++◌, All, same_codes,
  same_codes_iff, or_else, if◌then◌else◌, arith, inl, inr, Bool-cases,
}
use dnd_notes.Api.References.{
  InlineReference, Parsed, parsed, is_empty, break_at, parse_inline_note_references,
}
use dnd_notes.Api.References.Laws.{is_part, join}
use dnd_notes.Api.References.RoundTrip.{
  Written, plain, labelled, qualified, first_part, later_parts, reference_at, write,
  parse_inline_note_references-write,
}
use dnd_notes.Web.References.{
  InlineNoteReference, get_inline_note_reference_display_text, present, in_brackets,
  format_inline_note_reference,
}

-- What the API reads, without the place.
abbrev pub seen_by_client : InlineReference → InlineNoteReference
seen_by_client r = record { note_id = r.target_note_id; label = r.label; qualifier = r.qualifier }

-- The reference that is written, in the API's terms.
abbrev pub written_of : InlineNoteReference → Written
written_of r =
    let shown = get_inline_note_reference_display_text r in
    elim (present r.qualifier) [
      | none ↦ if same_codes shown r.note_id then plain r.note_id else labelled r.note_id shown
      | some qualifier ↦ qualified r.note_id shown qualifier
    ]

abbrev Framed : List ℕ → Written → Type 0
Framed text w = text ≡ write (([], w) ∷ []) []

format-Framed : (r : InlineNoteReference) → Framed (format_inline_note_reference r) (written_of r)
unfolding format_inline_note_reference join
format-Framed r =
    by_parts (present r.qualifier) r.note_id (get_inline_note_reference_display_text r)
  where
    by_parts :
        (o : Option (List ℕ)) (id shown : List ℕ)
        → Framed
            (elim o [
              | none ↦
                  if same_codes shown id then in_brackets id else in_brackets (id ++ b'|' ∷ shown)
              | some qualifier ↦ in_brackets (id ++ b'|' ∷ (shown ++ b'|' ∷ qualifier))
            ])
            (elim o [
              | none ↦ if same_codes shown id then plain id else labelled id shown
              | some qualifier ↦ qualified id shown qualifier
            ])
    by_parts (some qualifier) id shown = refl
    by_parts none id shown = elim (Bool-cases (same_codes shown id)) [
      | inl e ↦ rw e refl
      | inr e ↦ rw e refl
    ]

-- An identifier, a label or a qualifier that can stand in a reference: trimmed, not empty, and without
-- marks.
abbrev pub IsClean : Option (List ℕ) → Type 0
IsClean none = Unit
IsClean (some text) = is_part text ≡ true

-- What the API reads of a reference that the client has written: the note, the text that is shown, and the
-- qualifier.
abbrev pub ReadsAs : InlineNoteReference → Option Parsed → Type 0
ReadsAs r answer =
    (read : InlineReference) × (answer ≡ some (parsed (read ∷ [])))
    × (read.target_note_id ≡ r.note_id)
    × (or_else read.label read.target_note_id ≡ get_inline_note_reference_display_text r)
    × (read.qualifier ≡ r.qualifier)
    × (read.position_in_body ≡ 0)

abbrev Fits :
    (id shown : List ℕ) → (qualifier : Option (List ℕ)) → (position : ℕ) → Written → Type 0
Fits id shown qualifier position w =
    All (λ p. is_part p ≡ true) (first_part w ∷ later_parts w)
    × ((reference_at position w).target_note_id ≡ id)
    × (or_else (reference_at position w).label (reference_at position w).target_note_id ≡ shown)
    × ((reference_at position w).qualifier ≡ qualifier)
    × ((reference_at position w).position_in_body ≡ position)

written-Fits :
    (id shown : List ℕ) (qualifier : Option (List ℕ)) (position : ℕ)
    → is_part id ≡ true
    → is_part shown ≡ true
    → IsClean qualifier
    → Fits id shown qualifier position (elim (present qualifier) [
      | none ↦ if same_codes shown id then plain id else labelled id shown
      | some q ↦ qualified id shown q
    ])
written-Fits id shown none position a b c = elim (Bool-cases (same_codes shown id)) [
  | inl e ↦ rw e ((a, tt), refl, sym ((same_codes_iff shown id).0 e), refl, refl)
  | inr e ↦ rw e ((a, (b, tt)), refl, refl, refl, refl)
]
written-Fits id shown (some q) position a b c =
    let full : is_empty q ≡ false = ground (arith, c) in
    rw full ((a, (b, (c, tt))), refl, refl, refl, refl)

shown-clean :
    (r : InlineNoteReference)
    → is_part r.note_id ≡ true
    → IsClean r.label
    → is_part (get_inline_note_reference_display_text r) ≡ true
shown-clean r a b = by_label r.label b
  where
    by_label : (label : Option (List ℕ)) → IsClean label → is_part (or_else label r.note_id) ≡ true
    by_label none c = a
    by_label (some text) c = c

-- A reference that the client writes is the one that the API reads: the same note, the same text shown, the
-- same qualifier, at the start of the body, where its parts can stand in a reference.
pub format-parse_inline_note_references :
    (r : InlineNoteReference)
    → is_part r.note_id ≡ true
    → IsClean r.label
    → IsClean r.qualifier
    → ReadsAs r (parse_inline_note_references (format_inline_note_reference r))
unfolding break_at
format-parse_inline_note_references r clean clean_label clean_qualifier =
    let shown = get_inline_note_reference_display_text r in
    let (parts, target, text, qualifier, position) =
      written-Fits r.note_id shown r.qualifier 0 clean (shown-clean r clean clean_label)
        clean_qualifier in
    (
      reference_at 0 (written_of r),
      ap parse_inline_note_references (format-Framed r)
          ∙ parse_inline_note_references-write (([], written_of r) ∷ []) [] ((refl, parts), tt)
              refl,
      target,
      text,
      qualifier,
      position,
    )
