-- ===== src/Api/Notes/Backlinks.antt =====
-- The backlinks of a note, from the table of references.
use dnd_notes.Common.{
  ℕ, String, Bool, ◌&&◌, ◌||◌, ◌==◌, ◌≡◌, refl, ap, ◌∙◌, Option, none, some, List, [], ◌∷◌, map,
  keep, any, map_some, same_codes, arith, inl, inr, Bool-cases,
}
use dnd_notes.Common.Sort.{place, order_by, any-Perm}
use mathlib.Core.List.{Perm}
use dnd_notes.Api.Store.{Campaign, Note, NoteReference, Store}
use dnd_notes.Api.Campaigns.{require_campaign}
use dnd_notes.Api.Notes.{has}
use dnd_notes.Api.Notes.Laws.{has-build}
use dnd_notes.Api.Notes.Rows.{
  map_note_row, NoteView, listed_first, of_source, Scan, grouped_references,
}
use dnd_notes.Api.Notes.Reads.{newer, listed, list_notes_of, list_notes, get_note, get_backlinks}

module _ {ℓ} {A : Type ℓ} (before : A → A → Bool) (q : A → Bool) where
  any-place : (x : A) (ys : List A) → any q (place before x ys) ≡ (q x || any q ys)
  unfolding place
  any-place x [] = refl
  any-place x (y ∷ ys) = elim (Bool-cases (before y x)) [
    | inl e ↦ rw e (ground (arith, any-place x ys))
    | inr e ↦ rw e refl
  ]

  any-order_by : (xs : List A) → any q (order_by before xs) ≡ any q xs
  unfolding order_by
  any-order_by [] = refl
  any-order_by (x ∷ xs) = any-place x (order_by before xs) ∙ ap (λ b. q x || b) (any-order_by xs)

any-kept {ℓ} :
    {A : Type ℓ} (p q : A → Bool) (xs : List A) → any q (keep p xs) ≡ any (λ x. p x && q x) xs
any-kept p q [] = refl
any-kept p q (x ∷ xs) = ground (arith, any-kept p q xs)

-- A reference from a note to a note, in a campaign.
abbrev pub links : (campaign_id : String) → (source target : List ℕ) → NoteReference → Bool
links campaign_id source target r =
    (r.campaign_id == campaign_id && of_source source r) && same_codes r.target_note_id target

has-listed :
    (scan : Scan) (s : Store) (campaign_id : String) (id : List ℕ) (row : Note)
    → ((xs : List NoteReference) → Perm (scan xs) xs)
    → has (listed scan s campaign_id row).linked_note_ids id
      ≡ any (links campaign_id row.id id) s.references
unfolding grouped_references map_note_row
has-listed scan s campaign_id id row is_scan =
    has-build row.linked_notes (grouped_references scan campaign_id row.id s) id
    ∙ any-order_by listed_first (λ (r : NoteReference). same_codes r.target_note_id id)
        (scan (
          keep (λ (r : NoteReference). r.campaign_id == campaign_id && of_source row.id r)
            s.references))
    ∙ any-Perm (λ (r : NoteReference). same_codes r.target_note_id id) (is_scan _)
    ∙ any-kept (λ (r : NoteReference). r.campaign_id == campaign_id && of_source row.id r)
        (λ (r : NoteReference). same_codes r.target_note_id id) s.references

keep-map {ℓ κ} :
    {A : Type ℓ} {B : Type κ} (f : A → B) (p q : B → Bool) (xs : List A)
    → ((x : A) → p (f x) ≡ q (f x))
    → keep p (map f xs) ≡ keep q (map f xs)
keep-map f p q [] h = refl
keep-map f p q (x ∷ xs) h = elim (Bool-cases (q (f x))) [
  | inl e ↦ rw (h x, e) (ap (f x ∷◌) (keep-map f p q xs h))
  | inr e ↦ rw (h x, e) (keep-map f p q xs h)
]

-- The backlinks of a note are the listed notes of its campaign from which a row of the references of this
-- campaign leads to the note, in the order of the list, in whatever order the database comes upon the rows of
-- references, of which it loses and makes up none.
pub get_backlinks-links :
    (scan : Scan) (id : List ℕ) (s : Store) (target : NoteView) (c : Campaign)
    → ((xs : List NoteReference) → Perm (scan xs) xs)
    → get_note scan id s ≡ some target
    → require_campaign (some target.campaign_id) s ≡ some c
    → get_backlinks scan id s
      ≡ some
          (keep (λ (n : NoteView). any (links c.id n.id id) s.references) (list_notes_of scan s c))
unfolding get_backlinks list_notes list_notes_of map_note_row
get_backlinks-links scan id s target c is_scan found campaign =
    ap
      (λ (o : Option NoteView). elim o [
        | none ↦ some []
        | some t ↦
            map_some (keep (λ (n : NoteView). has n.linked_note_ids id))
              (list_notes scan (some t.campaign_id) s)
      ])
      found
    ∙ ap
        (λ (o : Option Campaign).
          map_some (keep (λ (n : NoteView). has n.linked_note_ids id))
            (elim o [ none ↦ none | some c ↦ some (list_notes_of scan s c) ]))
        campaign
    ∙ ap some (
        keep-map (listed scan s c.id) (λ n. has n.linked_note_ids id)
          (λ n. any (links c.id n.id id) s.references)
          (order_by newer (keep (λ n. n.campaign_id == c.id) s.notes))
          (λ row. has-listed scan s c.id id row is_scan))
