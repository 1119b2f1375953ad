-- ===== src/Web/References.antt =====
-- apps/web/src/note-references.ts: how the client finds and reads the references of a text, and writes a
-- reference, on code units. The links that are made of them, their escapes and the code blocks that are left
-- alone are other regular expressions, and left out.
pub mod Agreement
mod Tests
use dnd_notes.Common.{
  ℕ, zero, suc, ◌+◌, length, ◌||◌, ◌=ℕ◌, Bool, true, false, ◌&&◌, not, Option, none, some, List, [],
  ◌∷◌, ◌++◌, codes, same_codes, or_else, is_some, if◌then◌else◌,
}
use dnd_notes.Api.References.{trim, split, is_empty, strip_prefix}

pub record InlineNoteReference : Type 0 where
  pub note_id : List ℕ
  pub label : Option (List ℕ)
  pub qualifier : Option (List ℕ)

abbrev pub normalize_reference_part : List ℕ → Option (List ℕ)
normalize_reference_part value =
    let trimmed = trim value in if is_empty trimmed then none else some trimmed

abbrev pub with_id :
    (note_id : List ℕ) → (label qualifier : Option (List ℕ)) → Option InlineNoteReference
with_id note_id label qualifier =
    if is_empty note_id
    then none
    else some (record { note_id = note_id; label = label; qualifier = qualifier })

abbrev pub of_raw_parts : List (List ℕ) → Option InlineNoteReference
of_raw_parts [] = none
of_raw_parts (id ∷ []) = with_id (trim id) none none
of_raw_parts (id ∷ label ∷ []) = with_id (trim id) (normalize_reference_part label) none
of_raw_parts (id ∷ label ∷ qualifier ∷ []) =
    with_id (trim id) (normalize_reference_part label) (normalize_reference_part qualifier)
of_raw_parts (id ∷ label ∷ qualifier ∷ extra ∷ extras) = none

unfoldable pub parse_inline_note_reference_text : List ℕ → Option InlineNoteReference
parse_inline_note_reference_text raw_parts = of_raw_parts (split b'|' raw_parts)

abbrev pub get_inline_note_reference_display_text : InlineNoteReference → List ℕ
get_inline_note_reference_display_text r = or_else r.label r.note_id

-- An empty qualifier counts as none.
abbrev pub present : Option (List ℕ) → Option (List ℕ)
present none = none
present (some text) = if is_empty text then none else some text

abbrev pub in_brackets : List ℕ → List ℕ
in_brackets raw = codes "![[" ++ (raw ++ codes "]]")

unfoldable pub format_inline_note_reference : InlineNoteReference → List ℕ
format_inline_note_reference r =
    let shown = get_inline_note_reference_display_text r in
    elim (present r.qualifier) [
      | none ↦
          if same_codes shown r.note_id
          then in_brackets r.note_id
          else in_brackets (r.note_id ++ b'|' ∷ shown)
      | some qualifier ↦ in_brackets (r.note_id ++ b'|' ∷ (shown ++ b'|' ∷ qualifier))
    ]

-- What ([^\]\n]+?) can take at most, and the rest.
unfoldable pub take_inside : List ℕ → List ℕ × List ℕ
take_inside [] = ([], [])
take_inside (c ∷ text) =
    let (inside, rest) = take_inside text in
    if c =ℕ b']' || c =ℕ b'\n' then ([], c ∷ text) else (c ∷ inside, rest)

-- The group takes one at least, and as its characters are no brackets, all that it can where the two
-- brackets follow.
abbrev pub close : List ℕ × List ℕ → Option (List ℕ)
close (inside, rest) =
    if is_empty inside || not (is_some (strip_prefix (codes "]]") rest)) then none else some inside

abbrev pub inside_open : Option (List ℕ) → Option (List ℕ)
inside_open none = none
inside_open (some text) = close (take_inside text)

-- inlineNoteReferencePattern, at the start of a text: what its group matches.
unfoldable pub inline_note_reference_match : List ℕ → Option (List ℕ)
inline_note_reference_match text = inside_open (strip_prefix (codes "![[") text)

abbrev pub read_match :
    Option InlineNoteReference → List InlineNoteReference → List InlineNoteReference
read_match none later = later
read_match (some r) later = r ∷ later

abbrev pub on_match : Option (List ℕ) → (ℕ → List InlineNoteReference) → List InlineNoteReference
on_match none from = from 0
on_match (some inside) from =
    read_match (parse_inline_note_reference_text inside) (from (length inside + 4))

-- From left to right; `skipped` counts the code units to come that belong to the last match.
unfoldable pub extract_from : (skipped : ℕ) → List ℕ → List InlineNoteReference
extract_from skipped [] = []
extract_from (suc skipped) (c ∷ text) = extract_from skipped text
extract_from zero (c ∷ text) =
    on_match (inline_note_reference_match (c ∷ text)) (λ skipped. extract_from skipped text)

unfoldable pub extract_inline_note_references : List ℕ → List InlineNoteReference
extract_inline_note_references markdown = extract_from 0 markdown
