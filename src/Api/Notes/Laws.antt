-- ===== src/Api/Notes/Laws.antt =====
-- Which notes are linked, and how often.
use dnd_notes.Common.{
  ℕ, ◌+◌, ◌≤◌, Bool, true, false, ◌&&◌, ◌||◌, ◌≡◌, refl, ap, subst, inl, inr, List, [], ◌∷◌, ◌++◌,
  keep, any, count, same_codes, same_codes_iff, if◌then◌else◌, arith, Bool-cases,
}
use dnd_notes.Api.Notes.{
  NoteReference, is_linked, has, targets, push, add_explicit, add_references,
  build_compatible_linked_note_ids,
}

abbrev times : List ℕ → List (List ℕ) → ℕ
times id ids = count (λ x. same_codes x id) ids

times-append :
    (id : List ℕ) (xs ys : List (List ℕ)) → times id (xs ++ ys) ≡ times id xs + times id ys
times-append id [] ys = omega arith
times-append id (x ∷ xs) ys = omega (arith, times-append id xs ys)

has-append : (xs ys : List (List ℕ)) (id : List ℕ) → has (xs ++ ys) id ≡ (has xs id || has ys id)
has-append [] ys id = refl
has-append (x ∷ xs) ys id = ground (arith, has-append xs ys id)

none-times : (id : List ℕ) (ids : List (List ℕ)) → has ids id ≡ false → times id ids ≡ 0
none-times id [] e = refl
none-times id (x ∷ ids) e = ground (arith, none-times id ids)

some-times : (id : List ℕ) (ids : List (List ℕ)) → has ids id ≡ true → 1 ≤ times id ids
some-times id [] e = ground (arith, e)
some-times id (x ∷ ids) e = ground (arith, some-times id ids)

push-times :
    (ok : Bool) (id x : List ℕ) (ids : List (List ℕ))
    → times x ids ≤ 1
    → times x (push ok id ids) ≤ 1
push-times ok id x ids once = elim (Bool-cases (has ids id)) [
  | inl seen ↦ ground (arith, seen, once)
  | inr fresh ↦ ground (
    arith,
    fresh,
    once,
    times-append x ids (id ∷ []),
    none-times id ids fresh,
    same_codes_iff id x,
  )
]

push-has :
    (ok : Bool) (id x : List ℕ) (ids : List (List ℕ))
    → has (push ok id ids) x ≡ (has ids x || (ok && same_codes id x))
push-has ok id x ids = elim (Bool-cases (has ids id)) [
  | inl seen ↦ ground (arith, seen, same_codes_iff id x)
  | inr fresh ↦ ground (arith, fresh, has-append ids (id ∷ []) x)
]

has-same :
    (ids : List (List ℕ)) (id x : List ℕ)
    → (same_codes id x) ≡ true
    → has ids id ≡ true
    → has ids x ≡ true
has-same ids id x same e = subst (λ y. has ids y ≡ true) ((same_codes_iff id x).0 same) e

add_explicit-times :
    (linked_targets explicit : List (List ℕ)) (x : List ℕ) (ids : List (List ℕ))
    → times x ids ≤ 1
    → times x (add_explicit linked_targets explicit ids) ≤ 1
unfolding add_explicit
add_explicit-times linked_targets [] x ids once = once
add_explicit-times linked_targets (id ∷ explicit) x ids once =
    add_explicit-times linked_targets explicit x (push (has linked_targets id) id ids)
      (push-times (has linked_targets id) id x ids once)

add_explicit-has :
    (linked_targets explicit : List (List ℕ)) (x : List ℕ) (ids : List (List ℕ))
    → has (add_explicit linked_targets explicit ids) x ≡ true
    → (has ids x || has linked_targets x) ≡ true
unfolding add_explicit
add_explicit-has linked_targets [] x ids e = ground (arith, e)
add_explicit-has linked_targets (id ∷ explicit) x ids e = ground (
  arith,
  add_explicit-has linked_targets explicit x (push (has linked_targets id) id ids) e,
  push-has (has linked_targets id) id x ids,
  has-same linked_targets id x,
)

add_references-times :
    (references : List NoteReference) (x : List ℕ) (ids : List (List ℕ))
    → times x ids ≤ 1
    → times x (add_references references ids) ≤ 1
unfolding add_references
add_references-times [] x ids once = once
add_references-times (r ∷ references) x ids once =
    add_references-times references x (push true r.target_note_id ids)
      (push-times true r.target_note_id x ids once)

add_references-has :
    (references : List NoteReference) (x : List ℕ) (ids : List (List ℕ))
    → has (add_references references ids) x ≡ (has ids x || has (targets references) x)
unfolding add_references
add_references-has [] x ids = ground (arith)
add_references-has (r ∷ references) x ids = ground (
  arith,
  add_references-has references x (push true r.target_note_id ids),
  push-has true r.target_note_id x ids,
)

targets-keep :
    (p : NoteReference → Bool) (references : List NoteReference) (x : List ℕ)
    → has (targets (keep p references)) x ≡ true
    → has (targets references) x ≡ true
targets-keep p [] x e = e
targets-keep p (r ∷ references) x e = ground (arith, e, targets-keep p references x)

has-targets :
    (references : List NoteReference) (id : List ℕ)
    → has (targets references) id ≡ any (λ r. same_codes r.target_note_id id) references
has-targets [] id = refl
has-targets (r ∷ references) id =
    ap (λ b. (same_codes r.target_note_id id) || b) (has-targets references id)

-- The linked notes are the targets of the references, each of them once: no other note is listed, also
-- when the explicit list names one, and none is listed twice or left out.
pub build_compatible_linked_note_ids-times :
    (explicit : List (List ℕ)) (references : List NoteReference) (id : List ℕ)
    → count (λ x. same_codes x id) (build_compatible_linked_note_ids explicit references)
      ≡ (if any (λ r. same_codes r.target_note_id id) references then 1 else 0)
unfolding build_compatible_linked_note_ids
build_compatible_linked_note_ids-times explicit references id =
    let linked_targets =
      targets (keep (λ (r : NoteReference). is_linked r.reference_type) references) in
    let first = add_explicit linked_targets explicit [] in
    let result = add_references references first in
    let once =
      add_references-times references id first
        (add_explicit-times linked_targets explicit id [] (omega arith)) in
    let members = add_references-has references id first in
    elim (Bool-cases (has (targets references) id)) [
      | inl target ↦
          ground (arith, once, target, members, has-targets references id, some-times id result)
      | inr other ↦ ground (
        arith,
        other,
        members,
        has-targets references id,
        none-times id result,
        add_explicit-has linked_targets explicit id [],
        targets-keep (λ r. is_linked r.reference_type) references id,
      )
    ]

-- The linked notes are the targets.
pub has-build :
    (explicit : List (List ℕ)) (references : List NoteReference) (id : List ℕ)
    → has (build_compatible_linked_note_ids explicit references) id
      ≡ any (λ r. same_codes r.target_note_id id) references
has-build explicit references id =
    let ids = build_compatible_linked_note_ids explicit references in
    ground (
      arith,
      build_compatible_linked_note_ids-times explicit references id,
      none-times id ids,
      some-times id ids,
    )
