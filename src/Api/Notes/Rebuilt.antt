-- ===== src/Api/Notes/Rebuilt.antt =====
-- After a start, the references are those that the notes name, and no others.
use dnd_notes.Common.{
  ℕ, String, Bool, true, not, ◌≡◌, refl, sym, ap, ◌∙◌, subst, List, [], ◌∷◌, ◌++◌, append_assoc,
  append-nil, map, keep, any, All, All-weaken, Distinct, same_codes, same_codes_iff, arith, inl,
  inr, Bool-cases, ◌≢◌,
}
use dnd_notes.Api.Store.{Note, NoteReference, Store}
use dnd_notes.Api.References.{InlineReference, trim, parse_inline_note_references}
use dnd_notes.Api.Notes.Sync.{
  done, and_then, persist, without_source, replace_note_references, sync_notes,
  sync_note_references, validate_reference_target,
}
use dnd_notes.Api.Notes.Written.{keep-append, keep-All, persist-All, everywhere}
use dnd_notes.Api.Notes.Pending.{
  distinct_ids, is_valid, linked_inline, readable, build_pending_references-lenient,
}

-- What a note names: its explicit list, then its body, as far as the targets are accepted.
abbrev pub named_references : (fresh : List ℕ → ℕ → String) → Store → Note → List NoteReference
named_references fresh s n = persist (fresh n.id) n.id n.campaign_id n.updated_at 0 (
    linked_inline (distinct_ids [] (keep (is_valid n.campaign_id s) (map trim n.linked_notes))) (
      keep (λ (r : InlineReference). is_valid n.campaign_id s r.target_note_id)
        (readable (parse_inline_note_references n.body))))

abbrev pub all_named : (fresh : List ℕ → ℕ → String) → Store → List Note → List NoteReference
all_named fresh s [] = []
all_named fresh s (n ∷ notes) = named_references fresh s n ++ all_named fresh s notes

-- The references of the other notes.
abbrev left_by : List Note → List NoteReference → List NoteReference
left_by [] rs = rs
left_by (n ∷ notes) rs = left_by notes (without_source n.id rs)

replace-named :
    (fresh : List ℕ → ℕ → String) (n : Note) (s : Store)
    → replace_note_references
        (fresh n.id)
        true
        n.id
        n.campaign_id
        n.body
        n.linked_notes
        n.updated_at
        s
      ≡ done (
        named_references fresh s n,
        record s { references = without_source n.id s.references ++ named_references fresh s n },
      )
unfolding replace_note_references
replace-named fresh n s =
    ap
      (λ o. and_then o (λ pending.
        let rows = persist (fresh n.id) n.id n.campaign_id n.updated_at 0 pending in
        done (rows, record s { references = without_source n.id s.references ++ rows })))
      (build_pending_references-lenient n.body n.linked_notes n.campaign_id s)

-- The references table plays no part in what a note names.
all_named-same :
    (fresh : List ℕ → ℕ → String) (s : Store) (rs : List NoteReference) (notes : List Note)
    → all_named fresh (record s { references = rs }) notes ≡ all_named fresh s notes
unfolding validate_reference_target
all_named-same fresh s rs [] = refl
all_named-same fresh s rs (n ∷ notes) =
    ap (named_references fresh s n ++◌) (all_named-same fresh s rs notes)

named_references-same :
    (fresh : List ℕ → ℕ → String) (s : Store) (rs : List NoteReference) (n : Note)
    → named_references fresh (record s { references = rs }) n ≡ named_references fresh s n
unfolding validate_reference_target
named_references-same fresh s rs n = refl

left_by-append :
    (notes : List Note) (xs ys : List NoteReference)
    → left_by notes (xs ++ ys) ≡ left_by notes xs ++ left_by notes ys
left_by-append [] xs ys = refl
left_by-append (n ∷ notes) xs ys =
    ap (left_by notes)
      (keep-append (λ (r : NoteReference). not (same_codes r.source_note_id n.id)) xs ys)
    ∙ left_by-append notes (without_source n.id xs) (without_source n.id ys)

apart : (a b : List ℕ) → b ≢ a → not (same_codes a b) ≡ true
apart a b differ = ground (arith, same_codes_iff a b, λ (e : a ≡ b). differ (sym e))

-- Other notes leave a note's references.
left_by-others :
    (id : List ℕ) (notes : List Note) (rs : List NoteReference)
    → All (λ y. y ≢ id) (map (λ (n : Note). n.id) notes)
    → All (λ (r : NoteReference). r.source_note_id ≡ id) rs
    → left_by notes rs ≡ rs
left_by-others id [] rs others all = refl
left_by-others id (n ∷ notes) rs (differ, others) all =
    ap (left_by notes) (
      keep-All (λ (r : NoteReference). not (same_codes r.source_note_id n.id)) rs
        (All-weaken (λ (r : NoteReference). r.source_note_id ≡ id)
          (λ (r : NoteReference). not (same_codes r.source_note_id n.id) ≡ true) rs
          (λ r e. subst (λ x. not (same_codes x n.id) ≡ true) (sym e) (apart id n.id differ)) all))
    ∙ left_by-others id notes rs others all

named_references-source :
    (fresh : List ℕ → ℕ → String) (s : Store) (n : Note)
    → All (λ (r : NoteReference). r.source_note_id ≡ n.id) (named_references fresh s n)
named_references-source fresh s n =
    persist-All (fresh n.id) n.id n.campaign_id n.updated_at 0 (λ _. Unit)
      (λ r. r.source_note_id ≡ n.id)
      (linked_inline (distinct_ids [] (keep (is_valid n.campaign_id s) (map trim n.linked_notes))) (
        keep (λ (r : InlineReference). is_valid n.campaign_id s r.target_note_id)
          (readable (parse_inline_note_references n.body))))
      (λ p at _. refl)
      (everywhere (λ _. tt)
        (linked_inline (distinct_ids [] (keep (is_valid n.campaign_id s) (map trim n.linked_notes)))
          (keep (λ (r : InlineReference). is_valid n.campaign_id s r.target_note_id)
            (readable (parse_inline_note_references n.body)))))

sync_notes-named :
    (fresh : List ℕ → ℕ → String) (notes : List Note) (s : Store)
    → Distinct (map (λ (n : Note). n.id) notes)
    → sync_notes fresh true notes s
      ≡ done (record s { references = left_by notes s.references ++ all_named fresh s notes })
unfolding sync_notes
sync_notes-named fresh [] s distinct =
    ap (λ rs. done (record s { references = rs })) (sym (append-nil s.references))
sync_notes-named fresh (n ∷ notes) s (differ, distinct) =
    let own = named_references fresh s n in
    let rest = without_source n.id s.references in
    ap (λ o. and_then o (λ written. sync_notes fresh true notes written.1))
      (replace-named fresh n s)
    ∙ sync_notes-named fresh notes (record s { references = rest ++ own }) distinct
    ∙ ap (λ rs. done (record s { references = rs }))
        (ap (λ named. left_by notes (rest ++ own) ++ named)
            (all_named-same fresh s (rest ++ own) notes)
          ∙ ap (λ left. left ++ all_named fresh s notes)
              (left_by-append notes rest own
                ∙ ap (left_by notes rest ++◌)
                    (left_by-others n.id notes own differ (named_references-source fresh s n)))
          ∙ append_assoc (left_by notes rest) own (all_named fresh s notes))

-- A reference whose source is one of the notes is not left.
abbrev pub sourced : List Note → NoteReference → Bool
sourced notes r = any (λ (n : Note). same_codes n.id r.source_note_id) notes

sourced-without :
    (n : Note) (notes : List Note) (rs : List NoteReference)
    → All (λ r. sourced (n ∷ notes) r ≡ true) rs
    → All (λ r. sourced notes r ≡ true) (without_source n.id rs)
sourced-without n notes [] all = tt
sourced-without n notes (r ∷ rs) (h, all) = elim (Bool-cases (same_codes r.source_note_id n.id)) [
  | inl e ↦ rw e (sourced-without n notes rs all)
  | inr e ↦ rw e (
    ground
        (arith, e, h, same_codes_iff r.source_note_id n.id, same_codes_iff n.id r.source_note_id),
    sourced-without n notes rs all,
  )
]

left_by-sourced :
    (notes : List Note) (rs : List NoteReference)
    → All (λ r. sourced notes r ≡ true) rs
    → left_by notes rs ≡ []
left_by-sourced [] [] all = refl
left_by-sourced [] (r ∷ rs) all = cc
left_by-sourced (n ∷ notes) rs all =
    left_by-sourced notes (without_source n.id rs) (sourced-without n notes rs all)

-- The synchronization at startup does not fail, and whatever the references were, it leaves exactly those
-- that the notes name, note by note: the accepted identifiers of the explicit list, trimmed and each of them
-- once, and the accepted references of the body, none where the body cannot be read. No two notes share
-- an identifier, and the source of each reference is a note, as the tables' keys demand; its target and its
-- campaign may be any.
pub sync_note_references-rebuilt :
    (fresh : List ℕ → ℕ → String) (s : Store)
    → Distinct (map (λ (n : Note). n.id) s.notes)
    → All (λ r. sourced s.notes r ≡ true) s.references
    → sync_note_references fresh s ≡ done (record s { references = all_named fresh s s.notes })
unfolding sync_note_references
sync_note_references-rebuilt fresh s distinct known =
    sync_notes-named fresh s.notes s distinct
    ∙ ap (λ left. done (record s { references = left ++ all_named fresh s s.notes }))
        (left_by-sourced s.notes s.references known)
