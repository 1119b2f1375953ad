-- ===== src/Api/References/Tests.antt =====
-- Bodies with references, and one whose reference is not closed; the theorems at work on them.
use dnd_notes.Common.{ℕ, ◌≡◌, refl, some, List, [], ◌∷◌, length, codes}
use dnd_notes.Api.References.{
  Parsed, parsed, refused, missing_close, invalid, strip_prefix, break_at, trim_start, trim_end,
  split, read_raw, round, parse_from, parse_inline_note_references,
}
use dnd_notes.Api.References.Laws.{join}
use dnd_notes.Api.References.RoundTrip.{
  Written, plain, labelled, write, references_from, parse_inline_note_references-write,
}
use dnd_notes.Api.References.Ends.{Within, parse_inline_note_references-Within}

abbrev body : List (List ℕ × Written)
body =
    (codes "To ", labelled (codes "n1") (codes "the inn"))
    ∷ (codes ", or !", plain (codes "n2"))
    ∷ []

abbrev written : List ℕ
written = codes "To ![[n1|the inn]], or !![[n2]] again"

write-body : write body (codes " again") ≡ written
unfolding join
write-body = refl

parse-open : parse_inline_note_references (codes "a ![[n1] b") ≡ some (refused (missing_close 3))
unfolding parse_inline_note_references parse_from round break_at strip_prefix
parse-open = refl

parse-blank :
    parse_inline_note_references (codes "![[n1| ]]") ≡ some (refused (invalid 1 (codes "n1| ")))
unfolding parse_inline_note_references parse_from round break_at strip_prefix split read_raw
    trim_start trim_end
parse-blank = refl

parse_inline_note_references-write_example :
    parse_inline_note_references (write body (codes " again"))
    ≡ some (parsed (references_from 0 body))
unfolding break_at strip_prefix split trim_start trim_end
parse_inline_note_references-write_example =
    parse_inline_note_references-write body (codes " again")
      ((refl, (refl, (refl, tt))), ((refl, (refl, tt)), tt)) refl

parse_inline_note_references-Within_example :
    (p : Parsed) × (parse_inline_note_references written ≡ some p) × Within 0 (length written) p
parse_inline_note_references-Within_example = parse_inline_note_references-Within written
