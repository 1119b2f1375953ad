-- ===== src/Api/References.antt =====
-- parseInlineNoteReferences, apps/api/src/note-references.ts, on the code units of a note's body.
-- Fuel bounds the references of a body; each takes at least five units, so the length is enough.
pub mod Laws
pub mod RoundTrip
pub mod Ends
mod Tests
use dnd_notes.Common.{
  ℕ, zero, suc, ◌+◌, String, Bool, true, false, ◌&&◌, ◌||◌, Option, none, some, List, [], ◌∷◌, ◌++◌,
  map, any, length, ◌=ℕ◌, leb, if◌then◌else◌, codes,
}

pub record InlineReference : Type 0 where
  pub target_note_id : List ℕ
  pub label : Option (List ℕ)
  pub qualifier : Option (List ℕ)
  pub position_in_body : ℕ

-- The two errors, with what their messages name: the character, counted from 1.
pub data ParseError : Type 0 where
  missing_close : (character : ℕ) → ParseError
  invalid : (character : ℕ) → (raw_content : List ℕ) → ParseError

pub data Parsed : Type 0 where
  parsed : List InlineReference → Parsed
  refused : ParseError → Parsed

-- What follows the prefix, where the text starts with it.
unfoldable pub strip_prefix : List ℕ → List ℕ → Option (List ℕ)
strip_prefix [] text = some text
strip_prefix (m ∷ prefix) [] = none
strip_prefix (m ∷ prefix) (c ∷ text) =
    let rest = strip_prefix prefix text in if m =ℕ c then rest else none

abbrev pub add_before : ℕ → Option (List ℕ × List ℕ) → Option (List ℕ × List ℕ)
add_before c none = none
add_before c (some (before, after)) = some (c ∷ before, after)

abbrev pub or_later : Option (List ℕ) → Option (List ℕ × List ℕ) → Option (List ℕ × List ℕ)
or_later none later = later
or_later (some after) later = some ([], after)

-- indexOf: what stands before the first occurrence of the marker, and after it.
unfoldable pub break_at : (marker : List ℕ) → List ℕ → Option (List ℕ × List ℕ)
break_at marker [] = none
break_at marker (c ∷ text) =
    or_later (strip_prefix marker (c ∷ text)) (add_before c (break_at marker text))

-- The white space and line ends that String.trim removes.
abbrev pub is_space : ℕ → Bool
is_space c =
    leb 9 c && leb c 13
    || c =ℕ 32
    || c =ℕ 160
    || c =ℕ 5760
    || leb 8192 c && leb c 8202
    || c =ℕ 8232
    || c =ℕ 8233
    || c =ℕ 8239
    || c =ℕ 8287
    || c =ℕ 12288
    || c =ℕ 65279

unfoldable pub trim_start : List ℕ → List ℕ
trim_start [] = []
trim_start (c ∷ text) = let rest = trim_start text in if is_space c then rest else c ∷ text

abbrev pub add_unless_blank : ℕ → List ℕ → List ℕ
add_unless_blank c [] = if is_space c then [] else c ∷ []
add_unless_blank c (d ∷ rest) = c ∷ d ∷ rest

unfoldable pub trim_end : List ℕ → List ℕ
trim_end [] = []
trim_end (c ∷ text) = add_unless_blank c (trim_end text)

abbrev pub trim : List ℕ → List ℕ
trim text = trim_end (trim_start text)

abbrev pub push_head : ℕ → List (List ℕ) → List (List ℕ)
push_head c [] = (c ∷ []) ∷ []
push_head c (part ∷ parts) = (c ∷ part) ∷ parts

unfoldable pub split : (mark : ℕ) → List ℕ → List (List ℕ)
split mark [] = [] ∷ []
split mark (c ∷ text) =
    let rest = split mark text in if c =ℕ mark then [] ∷ rest else push_head c rest

abbrev pub is_empty : List ℕ → Bool
is_empty [] = true
is_empty (c ∷ text) = false

abbrev pub of_parts : (position : ℕ) → List (List ℕ) → Option InlineReference
of_parts position (target ∷ []) = some (record {
  target_note_id = target;
  label = none;
  qualifier = none;
  position_in_body = position;
})
of_parts position (target ∷ label ∷ []) = some (record {
  target_note_id = target;
  label = some label;
  qualifier = none;
  position_in_body = position;
})
of_parts position (target ∷ label ∷ qualifier ∷ []) = some (record {
  target_note_id = target;
  label = some label;
  qualifier = some qualifier;
  position_in_body = position;
})
of_parts position _ = none

unfoldable pub read_raw : (position : ℕ) → List ℕ → Option InlineReference
read_raw position raw =
    let parts = map trim (split b'|' raw) in
    if any (λ c. c =ℕ b'\n' || c =ℕ b'\r') raw || any is_empty parts
    then none
    else of_parts position parts

-- One round of the loop.
pub data Round : Type 0 where
  finished : Round
  failed : ParseError → Round
  found : InlineReference → (cursor : ℕ) → (rest : List ℕ) → Round

abbrev pub after_read : (start : ℕ) → (raw rest : List ℕ) → Option InlineReference → Round
after_read start raw rest none = failed (invalid (start + 1) raw)
after_read start raw rest (some r) = found r (start + 3 + length raw + 2) rest

abbrev pub after_open : (start : ℕ) → Option (List ℕ × List ℕ) → Round
after_open start none = failed (missing_close (start + 1))
after_open start (some (raw, rest)) = after_read start raw rest (read_raw start raw)

abbrev pub after_find : (cursor : ℕ) → Option (List ℕ × List ℕ) → Round
after_find cursor none = finished
after_find cursor (some (before, inside)) =
    after_open (cursor + length before) (break_at (codes "]]") inside)

unfoldable pub round : (cursor : ℕ) → List ℕ → Round
round cursor text = after_find cursor (break_at (codes "![[") text)

abbrev pub prepend : InlineReference → Option Parsed → Option Parsed
prepend r none = none
prepend r (some (parsed references)) = some (parsed (r ∷ references))
prepend r (some (refused error)) = some (refused error)

unfoldable pub parse_from : (fuel : ℕ) → (cursor : ℕ) → List ℕ → Option Parsed
parse_from zero cursor text = none
parse_from (suc fuel) cursor text = elim (round cursor text) [
  | finished ↦ some (parsed [])
  | failed error ↦ some (refused error)
  | found r next rest ↦ prepend r (parse_from fuel next rest)
]

unfoldable pub parse_inline_note_references : List ℕ → Option Parsed
parse_inline_note_references body = parse_from (suc (length body)) 0 body
