-- ===== src/Api/References/Ends.antt =====
-- Every body gets an answer, whose positions lie in the body.
use dnd_notes.Common.{
  either, map, ◌||◌, none-ne, some_unique, ℕ, zero, suc, ◌+◌, ◌≤◌, ◌<◌, ◌≡◌, refl, sym, ap, subst,
  Option, none, some, List, [], ◌∷◌, any, length, ◌=ℕ◌, codes, arith,
}
use dnd_notes.Api.References.{
  InlineReference, ParseError, missing_close, invalid, Parsed, parsed, refused, break_at, of_parts,
  is_empty, split, trim, read_raw, Round, finished, failed, found, after_read, after_open,
  after_find, round, prepend, parse_from, parse_inline_note_references,
}
use dnd_notes.Api.References.Laws.{break_at-length}

abbrev pub character : ParseError → ℕ
character (missing_close n) = n
character (invalid n raw) = n

-- The references start one behind the other, each with its five or more units in the body.
abbrev pub Ordered : (low high : ℕ) → List InlineReference → Type 0
Ordered low high [] = Unit
Ordered low high (r ∷ references) =
    (low ≤ r.position_in_body)
    × (r.position_in_body + 5 ≤ high)
    × Ordered (r.position_in_body + 5) high references

abbrev pub Within : (low high : ℕ) → Parsed → Type 0
Within low high (parsed references) = Ordered low high references
Within low high (refused error) = (low < character error) × (character error ≤ high)

-- What one round leaves.
abbrev Leaves : (cursor : ℕ) → (text : List ℕ) → Round → Type 0
Leaves cursor text finished = Unit
Leaves cursor text (failed error) =
    (cursor < character error) × (character error ≤ cursor + length text)
Leaves cursor text (found r next rest) =
    (cursor ≤ r.position_in_body)
    × (r.position_in_body + 5 ≤ next)
    × (next + length rest ≡ cursor + length text)
    × (length rest < length text)

of_parts-position :
    (position : ℕ) (parts : List (List ℕ)) (r : InlineReference)
    → of_parts position parts ≡ some r
    → r.position_in_body ≡ position
of_parts-position position [] r e = absurd (none-ne r e)
of_parts-position position (a ∷ []) r e = sym (ap (λ q. q.position_in_body) (some_unique e))
of_parts-position position (a ∷ b ∷ []) r e = sym (ap (λ q. q.position_in_body) (some_unique e))
of_parts-position position (a ∷ b ∷ c ∷ []) r e = sym (ap (λ q. q.position_in_body) (some_unique e))
of_parts-position position (a ∷ b ∷ c ∷ d ∷ parts) r e = absurd (none-ne r e)

read_raw-position :
    (position : ℕ) (raw : List ℕ) (r : InlineReference)
    → read_raw position raw ≡ some r
    → r.position_in_body ≡ position
unfolding read_raw
read_raw-position position raw r =
    either (λ found_r. found_r ≡ some r → r.position_in_body ≡ position)
      (any (λ c. c =ℕ b'\n' || c =ℕ b'\r') raw || any is_empty (map trim (split b'|' raw))) _ _
      (λ e. absurd (none-ne r e)) (of_parts-position position (map trim (split b'|' raw)) r)

after_read-Leaves :
    (cursor : ℕ) (text before raw rest : List ℕ)
    → length text ≡ length before + 3 + (length raw + 2 + length rest)
    → (read : Option InlineReference) → read_raw (cursor + length before) raw ≡ read
    → Leaves cursor text (after_read (cursor + length before) raw rest read)
after_read-Leaves cursor text before raw rest size none e = (omega arith, omega (arith, size))
after_read-Leaves cursor text before raw rest size (some r) e =
    let place = read_raw-position (cursor + length before) raw r e in
    (omega (arith, place), omega (arith, place), omega (arith, size), omega (arith, size))

after_open-Leaves :
    (cursor : ℕ) (text before inside : List ℕ)
    → length text ≡ length before + 3 + length inside
    → (closed : Option (List ℕ × List ℕ)) → break_at (codes "]]") inside ≡ closed
    → Leaves cursor text (after_open (cursor + length before) closed)
after_open-Leaves cursor text before inside size none e = (omega arith, omega (arith, size))
after_open-Leaves cursor text before inside size (some (raw, rest)) e =
    after_read-Leaves cursor text before raw rest
      (omega (arith, size, break_at-length (codes "]]") inside raw rest e))
      (read_raw (cursor + length before) raw) refl

after_find-Leaves :
    (cursor : ℕ) (text : List ℕ) (opened : Option (List ℕ × List ℕ))
    → break_at (codes "![[") text ≡ opened
    → Leaves cursor text (after_find cursor opened)
after_find-Leaves cursor text none e = tt
after_find-Leaves cursor text (some (before, inside)) e =
    after_open-Leaves cursor text before inside
      (omega (arith, break_at-length (codes "![[") text before inside e))
      (break_at (codes "]]") inside) refl

round-Leaves : (cursor : ℕ) (text : List ℕ) → Leaves cursor text (round cursor text)
unfolding round
round-Leaves cursor text = after_find-Leaves cursor text (break_at (codes "![[") text) refl

Answers : (cursor : ℕ) → List ℕ → Option Parsed → Type 0
Answers cursor text answer =
    (p : Parsed) × (answer ≡ some p) × Within cursor (cursor + length text) p

Ordered-low :
    (low low' high : ℕ) (references : List InlineReference)
    → low ≤ low'
    → Ordered low' high references
    → Ordered low high references
Ordered-low low low' high [] h ok = tt
Ordered-low low low' high (r ∷ references) h (a, b, rest) = (omega (arith, h, a), b, rest)

prepend-Answers :
    (cursor : ℕ) (text : List ℕ) (r : InlineReference) (next : ℕ) (rest : List ℕ)
    → Leaves cursor text (found r next rest)
    → (answer : Option Parsed) → Answers next rest answer
    → Answers cursor text (prepend r answer)
unfolding Answers
prepend-Answers cursor text r next rest (a, b, c, d) answer (p, e, within) =
    subst (λ o. Answers cursor text (prepend r o)) (sym e) (by_parsed p within)
  where
    by_parsed :
        (p : Parsed) → Within next (next + length rest) p → Answers cursor text (prepend r (some p))
    by_parsed (parsed references) ok = (
      parsed (r ∷ references),
      refl,
      (
        a,
        omega (arith, b, c),
        Ordered-low (r.position_in_body + 5) next (cursor + length text) references b
            (subst (λ high. Ordered next high references) c ok),
      ),
    )
    by_parsed (refused error) (low, high) =
        (refused error, refl, (omega (arith, a, b, low), omega (arith, c, high)))

parse_from-Answers :
    (fuel cursor : ℕ) (text : List ℕ)
    → length text < fuel
    → Answers cursor text (parse_from fuel cursor text)
unfolding parse_from Answers
parse_from-Answers zero cursor text h = absurd (omega arith)
parse_from-Answers (suc fuel) cursor text h =
    by_round (round cursor text) (round-Leaves cursor text)
      (λ next rest. parse_from-Answers fuel next rest) h
  where
    by_round :
        (r : Round)
        → Leaves cursor text r
        → ((next : ℕ) (rest : List ℕ)
            → length rest < fuel
            → Answers next rest (parse_from fuel next rest))
        → length text < suc fuel
        → Answers cursor text (elim r [
          | finished ↦ some (parsed [])
          | failed error ↦ some (refused error)
          | found r next rest ↦ prepend r (parse_from fuel next rest)
        ])
    by_round finished l k h = (parsed [], refl, tt)
    by_round (failed error) l k h = (refused error, refl, l)
    by_round (found r next rest) l k h =
        prepend-Answers cursor text r next rest l (parse_from fuel next rest)
          (k next rest (omega (arith, h, l.3)))

-- Every body gets an answer: references that start one behind the other, each with at least five
-- characters of the body, or an error that names a character of the body.
pub parse_inline_note_references-Within :
    (body : List ℕ)
    → (p : Parsed) × (parse_inline_note_references body ≡ some p) × Within 0 (length body) p
unfolding parse_inline_note_references Answers
parse_inline_note_references-Within body =
    let (p, e, within) = parse_from-Answers (suc (length body)) 0 body (omega arith) in
    (p, e, subst (λ high. Within 0 high p) (omega arith) within)
