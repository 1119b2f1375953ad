-- ===== src/Api/Notes/Written.antt =====
-- The references that are written are those that are read back.
use dnd_notes.Common.{
  ℕ, suc, String, Bool, true, not, ◌≡◌, refl, ap, ◌∙◌, subst, List, [], ◌∷◌, ◌++◌, keep, All,
  same_codes, same_codes_iff, arith, inl, inr, Bool-cases,
}
use mathlib.Core.List.{Perm}
use mathlib.Core.List.Perm
use dnd_notes.Common.Sort.{order_by, order_by-perm}
use dnd_notes.Api.Store.{NoteReference, Store}
use dnd_notes.Api.Notes.Sync.{
  Outcome, done, failed, PendingReference, build_pending_references, row_for, persist,
  without_source, replace_note_references,
}
use dnd_notes.Api.Notes.Rows.{listed_first, of_source, Scan, references_of_note}
use dnd_notes.Api.Notes.Links.{Gives, and_then-Gives}

-- Of every reference to be written, and of every row that is written.
pub everywhere :
    {P : PendingReference → Type 0}
    → ((p : PendingReference) → P p)
    → (ps : List PendingReference) → All P ps
everywhere f [] = tt
everywhere f (p ∷ ps) = (f p, everywhere f ps)

pub persist-All :
    (fresh : ℕ → String) (source : List ℕ) (campaign_id : String) (timestamp place : ℕ)
    (P : PendingReference → Type 0) (Q : NoteReference → Type 0) (ps : List PendingReference)
    → ((p : PendingReference) (place : ℕ)
        → P p
        → Q (row_for (fresh place) source campaign_id timestamp p))
    → All P ps
    → All Q (persist fresh source campaign_id timestamp place ps)
unfolding persist
persist-All fresh source campaign_id timestamp place P Q [] f all = tt
persist-All fresh source campaign_id timestamp place P Q (p ∷ ps) f (h, all) =
    (f p place h, persist-All fresh source campaign_id timestamp (suc place) P Q ps f all)

pub keep-All {ℓ} :
    {A : Type ℓ} (q : A → Bool) (xs : List A) → All (λ x. q x ≡ true) xs → keep q xs ≡ xs
keep-All q [] all = refl
keep-All q (x ∷ xs) (e, all) = rw e (ap (x ∷◌) (keep-All q xs all))

pub keep-append {ℓ} :
    {A : Type ℓ} (q : A → Bool) (xs ys : List A) → keep q (xs ++ ys) ≡ keep q xs ++ keep q ys
keep-append q [] ys = refl
keep-append q (x ∷ xs) ys = elim (Bool-cases (q x)) [
  | inl e ↦ rw e (ap (x ∷◌) (keep-append q xs ys))
  | inr e ↦ rw e (keep-append q xs ys)
]

keep-without {ℓ} :
    {A : Type ℓ} (q : A → Bool) (xs : List A) → keep q (keep (λ x. not (q x)) xs) ≡ []
keep-without q [] = refl
keep-without q (x ∷ xs) = elim (Bool-cases (q x)) [
  | inl e ↦ rw e (keep-without q xs)
  | inr e ↦ rw (e, e) (keep-without q xs)
]

pub same_codes_refl : (id : List ℕ) → same_codes id id ≡ true
same_codes_refl id = ground (arith, same_codes_iff id id)

persist-source :
    (fresh : ℕ → String) (source : List ℕ) (campaign_id : String) (timestamp place : ℕ)
    (ps : List PendingReference)
    → keep (of_source source) (persist fresh source campaign_id timestamp place ps)
      ≡ persist fresh source campaign_id timestamp place ps
persist-source fresh source campaign_id timestamp place ps =
    keep-All (of_source source) (persist fresh source campaign_id timestamp place ps) (
      persist-All fresh source campaign_id timestamp place (λ _. Unit)
        (λ r. of_source source r ≡ true) ps (λ p at _. same_codes_refl source)
        (everywhere (λ _. tt) ps))

-- The references that are read for the note are those that were written, in some order. The other
-- tables that notes are read from stay.
abbrev pub ReadsBack : Scan → (source : List ℕ) → Store → List NoteReference × Store → Type 0
ReadsBack scan source s written =
    Perm (references_of_note scan source written.1) written.0
    × (written.1.notes ≡ s.notes)
    × (written.1.memberships ≡ s.memberships)

anything : {A : Type 0} (o : Outcome A) → Gives (λ _. Unit) o
anything (done a) = tt
anything (failed e) = tt

pub replace_note_references-ReadsBack :
    (scan : Scan) (fresh : ℕ → String) (allow : Bool) (source : List ℕ) (campaign_id : String)
    (body : List ℕ) (explicit : List (List ℕ)) (timestamp : ℕ) (s : Store)
    → ((xs : List NoteReference) → Perm (scan xs) xs)
    → Gives
        (ReadsBack scan source s)
        (replace_note_references fresh allow source campaign_id body explicit timestamp s)
unfolding replace_note_references references_of_note
replace_note_references-ReadsBack scan fresh allow source campaign_id body explicit timestamp s
      is_scan =
    and_then-Gives (λ _. Unit) (ReadsBack scan source s)
      (build_pending_references allow body explicit campaign_id s)
      (λ pending.
        let rows = persist fresh source campaign_id timestamp 0 pending in
        done (rows, record s { references = without_source source s.references ++ rows }))
      (anything (build_pending_references allow body explicit campaign_id s))
      (λ pending _.
        let rows = persist fresh source campaign_id timestamp 0 pending in
        let found =
          keep-append (of_source source) (without_source source s.references) rows
          ∙ ap (λ xs. xs ++ keep (of_source source) rows)
              (keep-without (of_source source) s.references)
          ∙ persist-source fresh source campaign_id timestamp 0 pending in
        (
          subst
              (Perm (
                order_by listed_first
                  (scan (keep (of_source source) (without_source source s.references ++ rows)))))
              found (Perm.trans (order_by-perm listed_first _) (is_scan _)),
          refl,
          refl,
        ))
