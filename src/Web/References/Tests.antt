-- ===== src/Web/References/Tests.antt =====
-- A reference with a label and a qualifier, and some that only the client or only the API reads; the theorems at work on them.
use dnd_notes.Common.{codes, ◌≡◌, refl, none, some, [], ◌∷◌}
use dnd_notes.Api.References.{
  strip_prefix, split, trim_start, trim_end, read_raw, parse_inline_note_references,
}
use dnd_notes.Web.References.{
  take_inside, inline_note_reference_match, extract_from, extract_inline_note_references,
  InlineNoteReference, parse_inline_note_reference_text, format_inline_note_reference,
}
use dnd_notes.Web.References.Agreement.{ReadsAs, format-parse_inline_note_references}

abbrev inn : InlineNoteReference
inn = record { note_id = codes "n1"; label = none; qualifier = some (codes "old") }

format-parse_inline_note_references_example :
    ReadsAs inn (parse_inline_note_references (format_inline_note_reference inn))
unfolding trim_start trim_end
format-parse_inline_note_references_example = format-parse_inline_note_references inn refl tt refl

both_found :
    extract_inline_note_references (codes "![[ n1|the inn]] or ![[n2]]")
    ≡ record { note_id = codes "n1"; label = some (codes "the inn"); qualifier = none }
      ∷ record { note_id = codes "n2"; label = none; qualifier = none }
      ∷ []
unfolding extract_inline_note_references extract_from inline_note_reference_match take_inside
    strip_prefix parse_inline_note_reference_text split trim_start trim_end
both_found = refl

-- With a bracket in the label, the API reads the reference, and the client finds none.
api_reads_bracket :
    read_raw 0 (codes "n1|a]b")
    ≡ some (record {
      target_note_id = codes "n1";
      label = some (codes "a]b");
      qualifier = none;
      position_in_body = 0;
    })
unfolding read_raw split trim_start trim_end
api_reads_bracket = refl

client_misses_bracket : extract_inline_note_references (codes "![[n1|a]b]]") ≡ []
unfolding extract_inline_note_references extract_from inline_note_reference_match take_inside
    strip_prefix
client_misses_bracket = refl

-- A blank label.
client_accepts :
    parse_inline_note_reference_text (codes "n1| ")
    ≡ some (record { note_id = codes "n1"; label = none; qualifier = none })
unfolding parse_inline_note_reference_text split trim_start trim_end
client_accepts = refl

api_refuses : read_raw 0 (codes "n1| ") ≡ none
unfolding read_raw split trim_start trim_end
api_refuses = refl
