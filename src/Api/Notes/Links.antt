-- ===== src/Api/Notes/Links.antt =====
-- The two tables of notes and references stay consistent under each operation of the note store.
use dnd_notes.Common.{
  ℕ, suc, String, Bool, true, false, ◌&&◌, ◌||◌, not, ◌==◌, ◌≡◌, refl, subst, Option, none, some,
  List, [], ◌∷◌, ◌++◌, keep, any, All, All-append, same_codes, update_where, if◌then◌else◌, arith,
  inl, inr, Bool-cases,
}
use dnd_notes.Api.Store.{Note, NoteReference, Store}
use dnd_notes.Api.References.{InlineReference, trim, is_empty, parse_inline_note_references}
use dnd_notes.Api.Notes.{has}
use dnd_notes.Api.Notes.Sync.{
  NoteError, Outcome, done, failed, and_then, PendingReference, find_note, check_target,
  validate_reference_target, linked_to, inline_to, Choice, pass, take, stop, choose, choose_linked,
  add_pending, linked_references, inline_references, read_body, build_pending_references, persist,
  without_source, replace_note_references,
}

-- A note with this identifier stands in this campaign.
abbrev pub stands : List ℕ → (campaign_id : String) → List Note → Bool
stands id campaign_id notes =
    any (λ (n : Note). same_codes n.id id && n.campaign_id == campaign_id) notes

-- The source and the target of a reference stand in its campaign.
abbrev pub IsLinked : List Note → NoteReference → Type 0
IsLinked notes r =
    (stands r.source_note_id r.campaign_id notes ≡ true)
    × (stands r.target_note_id r.campaign_id notes ≡ true)

abbrev pub AreLinked : Store → Type 0
AreLinked s = All (IsLinked s.notes) s.references

-- What holds of the result where there is one.
abbrev pub Gives {ℓ} : {A : Type ℓ} → (A → Type 0) → Outcome A → Type 0
Gives P (done a) = P a
Gives P (failed e) = Unit

pub and_then-Gives {ℓ κ} :
    {A : Type ℓ} {B : Type κ} (P : A → Type 0) (Q : B → Type 0) (o : Outcome A) (f : A → Outcome B)
    → Gives P o
    → ((a : A) → P a → Gives Q (f a))
    → Gives Q (and_then o f)
and_then-Gives P Q (done a) f p k = k a p
and_then-Gives P Q (failed e) f p k = tt

pub Gives-done {ℓ} :
    {A : Type ℓ} (P : A → Type 0) (o : Outcome A) (a : A) → o ≡ done a → Gives P o → P a
Gives-done P o a e h = subst (Gives P) e h

pub any-keep {ℓ} :
    {A : Type ℓ} (p q : A → Bool) (xs : List A)
    → ((x : A) → q x ≡ true → p x ≡ true)
    → any q (keep p xs) ≡ any q xs
any-keep p q [] h = refl
any-keep p q (x ∷ xs) h = ground (arith, h x, any-keep p q xs h)

pub any-update_where {ℓ} :
    {A : Type ℓ} (p q : A → Bool) (f : A → A) (xs : List A)
    → ((x : A) → q (f x) ≡ q x)
    → any q (update_where p f xs) ≡ any q xs
any-update_where p q f [] h = refl
any-update_where p q f (x ∷ xs) h = ground (arith, h x, any-update_where p q f xs h)

pub any-append {ℓ} :
    {A : Type ℓ} (q : A → Bool) (xs ys : List A) → any q (xs ++ ys) ≡ (any q xs || any q ys)
any-append q [] ys = refl
any-append q (x ∷ xs) ys = ground (arith, any-append q xs ys)

pub stands-of_check :
    (id : List ℕ) (campaign_id : String) (notes : List Note)
    → check_target id campaign_id (find_note id notes) ≡ none
    → stands id campaign_id notes ≡ true
stands-of_check id campaign_id [] e = ground arith
stands-of_check id campaign_id (n ∷ notes) e =
    ground (arith, e, stands-of_check id campaign_id notes)

-- The target of a pending reference stands in the campaign.
abbrev pub IsSound : (campaign_id : String) → Store → PendingReference → Type 0
IsSound campaign_id s p = validate_reference_target p.target_note_id campaign_id s ≡ none

choose-take : (allow : Bool) (o : Option NoteError) → choose allow o ≡ take → o ≡ none
choose-take allow none e = refl
choose-take true (some x) e = cc
choose-take false (some x) e = cc

choose_linked-take :
    (allow : Bool) (campaign_id : String) (s : Store) (seen : List (List ℕ)) (id : List ℕ)
    → choose_linked allow campaign_id s seen id ≡ take
    → validate_reference_target id campaign_id s ≡ none
choose_linked-take allow campaign_id s seen id e =
    by_test (is_empty id || has seen id) (choose allow (validate_reference_target id campaign_id s))
      e (choose-take allow (validate_reference_target id campaign_id s))
  where
    by_test :
        {o : Type 0} (b : Bool) (c : Choice) → (if b then pass else c) ≡ take → (c ≡ take → o) → o
    by_test true c e k = cc
    by_test false c e k = k e

-- A turn of either loop: what is taken comes in front, and the rest goes on.
pub turn-Gives :
    (Q : List PendingReference → Type 0) (p : PendingReference) (c : Choice)
    (o on : Outcome (List PendingReference))
    → ((ps : List PendingReference) → c ≡ take → Q ps → Q (p ∷ ps))
    → Gives Q o
    → Gives Q on
    → Gives Q (elim c [ pass ↦ o | take ↦ add_pending p on | stop e ↦ failed e ])
turn-Gives Q p pass o on h k l = k
turn-Gives Q p take o on h k l = and_then-Gives Q Q on (λ ps. done (p ∷ ps)) l (λ ps q. h ps refl q)
turn-Gives Q p (stop e) o on h k l = tt

linked_references-IsSound :
    (allow : Bool) (campaign_id : String) (s : Store) (later : Outcome (List PendingReference))
    (seen ids : List (List ℕ))
    → Gives (All (IsSound campaign_id s)) later
    → Gives (All (IsSound campaign_id s)) (linked_references allow campaign_id s later seen ids)
unfolding linked_references
linked_references-IsSound allow campaign_id s later seen [] h = h
linked_references-IsSound allow campaign_id s later seen (id ∷ ids) h =
    turn-Gives (All (IsSound campaign_id s)) (linked_to (trim id))
      (choose_linked allow campaign_id s seen (trim id))
      (linked_references allow campaign_id s later seen ids)
      (linked_references allow campaign_id s later (trim id ∷ seen) ids)
      (λ ps e all. (choose_linked-take allow campaign_id s seen (trim id) e, all))
      (linked_references-IsSound allow campaign_id s later seen ids h)
      (linked_references-IsSound allow campaign_id s later (trim id ∷ seen) ids h)

inline_references-IsSound :
    (allow : Bool) (campaign_id : String) (s : Store) (rs : List InlineReference)
    → Gives (All (IsSound campaign_id s)) (inline_references allow campaign_id s rs)
unfolding inline_references
inline_references-IsSound allow campaign_id s [] = tt
inline_references-IsSound allow campaign_id s (r ∷ rs) =
    let rest = inline_references-IsSound allow campaign_id s rs in
    turn-Gives (All (IsSound campaign_id s)) (inline_to r)
      (choose allow (validate_reference_target r.target_note_id campaign_id s))
      (inline_references allow campaign_id s rs) (inline_references allow campaign_id s rs)
      (λ ps e all.
        (choose-take allow (validate_reference_target r.target_note_id campaign_id s) e, all))
      rest rest

pub build_pending_references-IsSound :
    (allow : Bool) (body : List ℕ) (explicit : List (List ℕ)) (campaign_id : String) (s : Store)
    → Gives
        (All (IsSound campaign_id s))
        (build_pending_references allow body explicit campaign_id s)
unfolding build_pending_references
build_pending_references-IsSound allow body explicit campaign_id s =
    and_then-Gives (λ _. Unit) (All (IsSound campaign_id s))
      (read_body allow (parse_inline_note_references body))
      (λ rs.
        linked_references allow campaign_id s (inline_references allow campaign_id s rs) []
          explicit)
      (any_result (read_body allow (parse_inline_note_references body)))
      (λ rs _.
        linked_references-IsSound allow campaign_id s (inline_references allow campaign_id s rs) []
          explicit (inline_references-IsSound allow campaign_id s rs))
  where
    any_result : (o : Outcome (List InlineReference)) → Gives (λ _. Unit) o
    any_result (done a) = tt
    any_result (failed e) = tt

persist-IsLinked :
    (fresh : ℕ → String) (source : List ℕ) (campaign_id : String) (timestamp place : ℕ) (s : Store)
    (ps : List PendingReference)
    → stands source campaign_id s.notes ≡ true
    → All (IsSound campaign_id s) ps
    → All (IsLinked s.notes) (persist fresh source campaign_id timestamp place ps)
unfolding persist validate_reference_target
persist-IsLinked fresh source campaign_id timestamp place s [] here all = tt
persist-IsLinked fresh source campaign_id timestamp place s (p ∷ ps) here (h, all) = (
  (here, stands-of_check p.target_note_id campaign_id s.notes h),
  persist-IsLinked fresh source campaign_id timestamp (suc place) s ps here all,
)

pub All-keep_of {ℓ} :
    {A : Type ℓ} (P : A → Type 0) (q : A → Bool) (xs : List A) → All P xs → All P (keep q xs)
All-keep_of P q [] all = tt
All-keep_of P q (x ∷ xs) (h, all) = elim (Bool-cases (q x)) [
  | inl e ↦ rw e (h, All-keep_of P q xs all)
  | inr e ↦ rw e (All-keep_of P q xs all)
]

-- The notes stay, and the references are consistent again.
abbrev pub Rewritten : Store → Store → Type 0
Rewritten s t = (t.notes ≡ s.notes) × AreLinked t

pub replace_note_references-AreLinked :
    (fresh : ℕ → String) (allow : Bool) (source : List ℕ) (campaign_id : String) (body : List ℕ)
    (explicit : List (List ℕ)) (timestamp : ℕ) (s : Store)
    → stands source campaign_id s.notes ≡ true
    → AreLinked s
    → Gives
        (λ written. Rewritten s written.1)
        (replace_note_references fresh allow source campaign_id body explicit timestamp s)
unfolding replace_note_references
replace_note_references-AreLinked fresh allow source campaign_id body explicit timestamp s here
      linked =
    and_then-Gives (All (IsSound campaign_id s)) (λ written. Rewritten s written.1)
      (build_pending_references allow body explicit campaign_id s)
      (λ pending.
        let rows = persist fresh source campaign_id timestamp 0 pending in
        done (rows, record s { references = without_source source s.references ++ rows }))
      (build_pending_references-IsSound allow body explicit campaign_id s)
      (λ pending all. (
        refl,
        All-append (IsLinked s.notes) (without_source source s.references)
            (persist fresh source campaign_id timestamp 0 pending)
            (All-keep_of (IsLinked s.notes) (λ r. not (same_codes r.source_note_id source))
              s.references linked)
            (persist-IsLinked fresh source campaign_id timestamp 0 s pending here all),
      ))
