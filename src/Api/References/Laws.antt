-- ===== src/Api/References/Laws.antt =====
-- What was written as references is read back, and every body gets an answer.
use dnd_notes.Common.{
  not, ℕ, ◌+◌, Bool, true, false, ◌&&◌, ◌||◌, ◌≡◌, refl, ap, ◌∙◌, inl, inr, none, some, List, [],
  ◌∷◌, ◌++◌, any, length, ◌=ℕ◌, =ℕ_iff, codes, same_codes, arith, All, Option-cases, Bool-cases,
}
use dnd_notes.Api.References.{
  strip_prefix, break_at, trim, trim_start, trim_end, is_space, add_unless_blank, split, is_empty,
}

strip_prefix-length :
    (prefix text after : List ℕ)
    → strip_prefix prefix text ≡ some after
    → length text ≡ length prefix + length after
unfolding strip_prefix
strip_prefix-length [] text after e = ground (arith, e)
strip_prefix-length (m ∷ prefix) [] after e = ground (arith, e)
strip_prefix-length (m ∷ prefix) (c ∷ text) after e =
    ground (arith, e, strip_prefix-length prefix text after)

pub break_at-length :
    (marker text before after : List ℕ)
    → break_at marker text ≡ some (before, after)
    → length text ≡ length before + length marker + length after
unfolding break_at
break_at-length marker [] before after e = ground (arith, e)
break_at-length marker (c ∷ text) before after e =
    elim (Option-cases (strip_prefix marker (c ∷ text))) [
      | inl later ↦ elim (Option-cases (break_at marker text)) [
        | inl none_left ↦ absurd (ground (arith, later, none_left, e))
        | inr ((b, a), here) ↦ ground (arith, later, here, e, break_at-length marker text b a here)
      ]
      | inr (rest, here) ↦ ground (arith, here, e, strip_prefix-length marker (c ∷ text) rest here)
    ]

break_at-none :
    (marker : List ℕ) (c : ℕ) (text : List ℕ)
    → break_at marker (c ∷ text) ≡ none
    → (strip_prefix marker (c ∷ text) ≡ none) × (break_at marker text ≡ none)
unfolding break_at
break_at-none marker c text e = elim (Option-cases (strip_prefix marker (c ∷ text))) [
  | inl later ↦ elim (Option-cases (break_at marker text)) [
    | inl none_left ↦ (later, none_left)
    | inr (pair, here) ↦ absurd (ground (arith, later, here, e))
  ]
  | inr (rest, here) ↦ absurd (ground (arith, here, e))
]

break_at-later :
    (marker : List ℕ) (c : ℕ) (text before after : List ℕ)
    → strip_prefix marker (c ∷ text) ≡ none
    → break_at marker text ≡ some (before, after)
    → break_at marker (c ∷ text) ≡ some (c ∷ before, after)
unfolding break_at
break_at-later marker c text before after later here = ground (arith, later, here)

-- The opening marker does not overlap itself.
open-alone :
    (c : ℕ) (text rest : List ℕ)
    → strip_prefix (codes "![[") (c ∷ text) ≡ none
    → strip_prefix (codes "![[") (c ∷ text ++ (codes "![[" ++ rest)) ≡ none
unfolding strip_prefix
open-alone c [] rest e = ground (arith)
open-alone c (d ∷ []) rest e = ground (arith)
open-alone c (d ∷ a ∷ text) rest e = ground (arith, e)

-- The first marker of a text that has none before it.
pub open-append :
    (text rest : List ℕ)
    → break_at (codes "![[") text ≡ none
    → break_at (codes "![[") (text ++ (codes "![[" ++ rest)) ≡ some (text, rest)
open-append [] rest e = unfold break_at strip_prefix in refl
open-append (c ∷ text) rest e =
    let (here, later) = break_at-none (codes "![[") c text e in
    break_at-later (codes "![[") c (text ++ (codes "![[" ++ rest)) text rest
      (open-alone c text rest here) (open-append text rest later)

close-alone :
    (c : ℕ) (text : List ℕ) → (c =ℕ b']') ≡ false → strip_prefix (codes "]]") (c ∷ text) ≡ none
unfolding strip_prefix
close-alone c text e = ground (arith, e, =ℕ_iff b']' c, =ℕ_iff c b']')

pub close-append :
    (text rest : List ℕ)
    → any (λ c. c =ℕ b']') text ≡ false
    → break_at (codes "]]") (text ++ (codes "]]" ++ rest)) ≡ some (text, rest)
close-append [] rest e = unfold break_at strip_prefix in refl
close-append (c ∷ text) rest e =
    break_at-later (codes "]]") c (text ++ (codes "]]" ++ rest)) text rest
      (close-alone c _ (ground (arith, e))) (close-append text rest (ground (arith, e)))

-- The parts of a reference: no mark of the syntax, no line end, nothing to trim.
abbrev pub is_mark : ℕ → Bool
is_mark c = c =ℕ b']' || c =ℕ b'|' || c =ℕ b'\n' || c =ℕ b'\r'

abbrev pub is_part : List ℕ → Bool
is_part text = not (is_empty text) && same_codes (trim text) text && not (any is_mark text)

unfoldable pub join : List (List ℕ) → List ℕ
join [] = []
join (part ∷ []) = part
join (part ∷ next ∷ parts) = part ++ b'|' ∷ join (next ∷ parts)

split-part :
    (part rest : List ℕ)
    → any is_mark part ≡ false
    → split b'|' (part ++ b'|' ∷ rest) ≡ part ∷ split b'|' rest
unfolding split
split-part [] rest e = refl
split-part (c ∷ part) rest e = ground (arith, e, split-part part rest (ground (arith, e)))

split-last : (part : List ℕ) → any is_mark part ≡ false → split b'|' part ≡ part ∷ []
unfolding split
split-last [] e = refl
split-last (c ∷ part) e = ground (arith, e, split-last part (ground (arith, e)))

pub split-join :
    (part : List ℕ) (parts : List (List ℕ))
    → All (λ p. is_part p ≡ true) (part ∷ parts)
    → split b'|' (join (part ∷ parts)) ≡ part ∷ parts
unfolding join
split-join part [] (e, _) = split-last part (ground (arith, e))
split-join part (next ∷ parts) (e, es) =
    split-part part (join (next ∷ parts)) (ground (arith, e))
    ∙ ap (λ l. part ∷ l) (split-join next parts es)

trim_start-trim_end :
    (text : List ℕ) → trim_start (trim_end (trim_start text)) ≡ trim_end (trim_start text)
unfolding trim_start trim_end
trim_start-trim_end [] = refl
trim_start-trim_end (c ∷ text) = elim (Bool-cases (is_space c)) [
  | inl blank ↦ rw blank (trim_start-trim_end text)
  | inr mark ↦ rw mark (stay (trim_end text) mark)
]
  where
    stay :
        (rest : List ℕ)
        → is_space c ≡ false
        → trim_start (add_unless_blank c rest) ≡ add_unless_blank c rest
    stay [] mark = rw (mark, mark) refl
    stay (d ∷ rest) mark = rw mark refl

trim_end-trim_end : (text : List ℕ) → trim_end (trim_end text) ≡ trim_end text
unfolding trim_end
trim_end-trim_end [] = refl
trim_end-trim_end (c ∷ text) = stay (trim_end text) (trim_end-trim_end text)
  where
    stay :
        (rest : List ℕ)
        → trim_end rest ≡ rest
        → trim_end (add_unless_blank c rest) ≡ add_unless_blank c rest
    stay [] e = elim (Bool-cases (is_space c)) [
      | inl blank ↦ rw blank refl
      | inr mark ↦ rw (mark, mark) refl
    ]
    stay (d ∷ rest) e = ap (add_unless_blank c) e

-- A trimmed text stays as it is.
pub trim-trim : (text : List ℕ) → trim (trim text) ≡ trim text
trim-trim text = ap trim_end (trim_start-trim_end text) ∙ trim_end-trim_end (trim_start text)
