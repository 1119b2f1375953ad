-- ===== src/Api/References/RoundTrip.antt =====
-- References that are written into a body are read back from it.
use dnd_notes.Common.{
  ℕ, zero, suc, ◌+◌, ◌≤◌, ◌<◌, Bool, true, false, ◌||◌, ◌≡◌, refl, ap, ◌∙◌, Option, none, some,
  List, [], ◌∷◌, ◌++◌, map, any, length, length-append, ◌=ℕ◌, codes, same_codes_iff, arith, All,
}
use dnd_notes.Api.References.{
  InlineReference, Parsed, parsed, break_at, trim, split, is_empty, of_parts, read_raw, Round,
  finished, failed, found, refused, after_read, after_open, after_find, round, prepend, parse_from,
  parse_inline_note_references,
}
use dnd_notes.Api.References.Laws.{open-append, close-append, is_mark, is_part, join, split-join}

-- A reference as it is written: ![[target]], ![[target|label]], ![[target|label|qualifier]].
pub data Written : Type 0 where
  plain : (target : List ℕ) → Written
  labelled : (target label : List ℕ) → Written
  qualified : (target label qualifier : List ℕ) → Written

abbrev pub first_part : Written → List ℕ
first_part (plain t) = t
first_part (labelled t l) = t
first_part (qualified t l q) = t

abbrev pub later_parts : Written → List (List ℕ)
later_parts (plain t) = []
later_parts (labelled t l) = l ∷ []
later_parts (qualified t l q) = l ∷ q ∷ []

abbrev pub raw : Written → List ℕ
raw w = join (first_part w ∷ later_parts w)

abbrev pub reference_at : ℕ → Written → InlineReference
reference_at position (plain t) = record {
  target_note_id = t;
  label = none;
  qualifier = none;
  position_in_body = position;
}
reference_at position (labelled t l) = record {
  target_note_id = t;
  label = some l;
  qualifier = none;
  position_in_body = position;
}
reference_at position (qualified t l q) = record {
  target_note_id = t;
  label = some l;
  qualifier = some q;
  position_in_body = position;
}

-- A body: texts that are each followed by a reference, and a last text.
abbrev pub write : List (List ℕ × Written) → (last : List ℕ) → List ℕ
write [] last = last
write ((text, w) ∷ body) last = text ++ (codes "![[" ++ (raw w ++ (codes "]]" ++ write body last)))

abbrev pub references_from : (cursor : ℕ) → List (List ℕ × Written) → List InlineReference
references_from cursor [] = []
references_from cursor ((text, w) ∷ body) =
    let start = cursor + length text in
    reference_at start w ∷ references_from (start + 3 + length (raw w) + 2) body

abbrev pub IsWritten : List ℕ × Written → Type 0
IsWritten (text, w) =
    (break_at (codes "![[") text ≡ none)
    × All (λ p. is_part p ≡ true) (first_part w ∷ later_parts w)

any-append :
    (p : ℕ → Bool) (xs ys : List ℕ) → any p xs ≡ false → any p ys ≡ false → any p (xs ++ ys) ≡ false
any-append p [] ys e f = f
any-append p (x ∷ xs) ys e f = ground (arith, e, any-append p xs ys (ground (arith, e)) f)

part-clean :
    (q : ℕ → Bool) (part : List ℕ)
    → ((c : ℕ) → is_mark c ≡ false → q c ≡ false)
    → any is_mark part ≡ false
    → any q part ≡ false
part-clean q [] f e = refl
part-clean q (c ∷ part) f e =
    ground (arith, f c (ground (arith, e)), part-clean q part f (ground (arith, e)))

-- A joined reference has no line end and no bracket.
join-clean :
    (q : ℕ → Bool) (part : List ℕ) (parts : List (List ℕ))
    → ((c : ℕ) → is_mark c ≡ false → q c ≡ false)
    → q b'|' ≡ false
    → All (λ p. is_part p ≡ true) (part ∷ parts)
    → any q (join (part ∷ parts)) ≡ false
unfolding join
join-clean q part [] f bar (e, es) = part-clean q part f (ground (arith, e))
join-clean q part (next ∷ parts) f bar (e, es) =
    any-append q part (b'|' ∷ join (next ∷ parts)) (part-clean q part f (ground (arith, e)))
      (ground (arith, bar, join-clean q next parts f bar es))

map-trim :
    (parts : List (List ℕ))
    → All (λ p. is_part p ≡ true) parts
    → (map trim parts ≡ parts) × (any is_empty parts ≡ false)
map-trim [] e = (refl, refl)
map-trim (part ∷ parts) (e, es) =
    let (same, full) = map-trim parts es in
    (
      ground (arith, same, (same_codes_iff (trim part) part).0 (ground (arith, e))),
      ground (arith, e, full),
    )

of_parts-reference_at :
    (position : ℕ) (w : Written)
    → of_parts position (first_part w ∷ later_parts w) ≡ some (reference_at position w)
of_parts-reference_at position (plain t) = refl
of_parts-reference_at position (labelled t l) = refl
of_parts-reference_at position (qualified t l q) = refl

read_raw-raw :
    (position : ℕ) (w : Written)
    → All (λ p. is_part p ≡ true) (first_part w ∷ later_parts w)
    → read_raw position (raw w) ≡ some (reference_at position w)
unfolding read_raw
read_raw-raw position w es =
    let parts = first_part w ∷ later_parts w in
    let (same, full) = map-trim parts es in
    let whole : map trim (split b'|' (raw w)) ≡ parts =
      ap (map trim) (split-join (first_part w) (later_parts w) es) ∙ same in
    let ends =
      join-clean (λ c. c =ℕ b'\n' || c =ℕ b'\r') (first_part w) (later_parts w)
        (λ c e. ground (arith, e)) refl es in
    ground (arith, whole, full, ends, of_parts-reference_at position w)

-- One round reads one written reference.
round-write :
    (cursor : ℕ) (text : List ℕ) (w : Written) (rest : List ℕ)
    → IsWritten (text, w)
    → round cursor (text ++ (codes "![[" ++ (raw w ++ (codes "]]" ++ rest))))
      ≡ found
          (reference_at (cursor + length text) w)
          (cursor + length text + 3 + length (raw w) + 2)
          rest
unfolding round
round-write cursor text w rest (clear, es) =
    let inside = raw w ++ (codes "]]" ++ rest) in
    let start = cursor + length text in
    ap (after_find cursor) (open-append text inside clear)
    ∙ ap (after_open start) (
        close-append (raw w) rest (
          join-clean (λ c. c =ℕ b']') (first_part w) (later_parts w) (λ c e. ground (arith, e)) refl
            es))
    ∙ ap (after_read start (raw w) rest) (read_raw-raw start w es)

abbrev after_round : ℕ → Round → Option Parsed
after_round fuel finished = some (parsed [])
after_round fuel (failed error) = some (refused error)
after_round fuel (found r next rest) = prepend r (parse_from fuel next rest)

round-last :
    (cursor : ℕ) (last : List ℕ) → break_at (codes "![[") last ≡ none → round cursor last ≡ finished
unfolding round
round-last cursor last e = ap (after_find cursor) e

length-write :
    (text : List ℕ) (w : Written) (rest : List ℕ)
    → length rest + 5 ≤ length (text ++ (codes "![[" ++ (raw w ++ (codes "]]" ++ rest))))
length-write text w rest = omega (
  arith,
  length-append text (codes "![[" ++ (raw w ++ (codes "]]" ++ rest))),
  length-append (raw w) (codes "]]" ++ rest),
)

parse_from-write :
    (fuel cursor : ℕ) (body : List (List ℕ × Written)) (last : List ℕ)
    → All IsWritten body
    → break_at (codes "![[") last ≡ none
    → length (write body last) < fuel
    → parse_from fuel cursor (write body last) ≡ some (parsed (references_from cursor body))
unfolding parse_from
parse_from-write zero cursor body last es e h = absurd (omega arith)
parse_from-write (suc fuel) cursor [] last es e h = ap (after_round fuel) (round-last cursor last e)
parse_from-write (suc fuel) cursor ((text, w) ∷ body) last (here, es) e h =
    let start = cursor + length text in
    let next = start + 3 + length (raw w) + 2 in
    ap (after_round fuel) (round-write cursor text w (write body last) here)
    ∙ ap (prepend (reference_at start w)) (
        parse_from-write fuel next body last es e
          (omega (arith, length-write text w (write body last), h)))

-- A body of texts without an opening marker and of references is read back as these references, each
-- at the character at which it was written. A part of a reference is not empty, has nothing to trim,
-- and has no bracket, bar or line end.
pub parse_inline_note_references-write :
    (body : List (List ℕ × Written)) (last : List ℕ)
    → All IsWritten body
    → break_at (codes "![[") last ≡ none
    → parse_inline_note_references (write body last) ≡ some (parsed (references_from 0 body))
unfolding parse_inline_note_references
parse_inline_note_references-write body last es e =
    parse_from-write (suc (length (write body last))) 0 body last es e (omega arith)
