-- ===== src/Api/Notes/Attributed.antt =====
-- The attributions of a note read back from the identifiers that its row holds.
use dnd_notes.Common.{
  String, false, ◌||◌, ◌==◌, ◌≡◌, refl, sym, ap, ◌∙◌, subst, Option, none, some, find-true,
  find-All, All, eq_iff, inl, inr, Bool-cases, Option-cases, coalesce,
}
use dnd_notes.Api.Store.{Membership, Store}
use dnd_notes.Api.Memberships.{
  Attribution, find_membership, attribution_of, find_membership_attribution,
}
use dnd_notes.Api.Notes.Rows.{attribution_of_row, joined_attribution, membership_id}
use dnd_notes.Api.Notes.Writes.{attribution}

-- A membership whose identifier and name are not empty.
abbrev pub IsNamed : Membership → Type 0
IsNamed m = ((m.id == "") ≡ false) × ((m.display_name == "") ≡ false)

-- An attribution that the join reads again from its identifier.
abbrev pub IsJoined : Store → Option Attribution → Type 0
IsJoined s by = joined_attribution s (membership_id by) ≡ by

attribution_of_row-IsNamed :
    (m : Membership) → IsNamed m → attribution_of_row (some m) ≡ attribution_of (some m)
attribution_of_row-IsNamed m (a, b) = rw (a, b) refl

pub attribution-IsJoined :
    (s : Store) (membership : Option String)
    → All IsNamed s.memberships
    → IsJoined s (attribution s membership)
unfolding find_membership_attribution
attribution-IsJoined s none named = refl
attribution-IsJoined s (some id) named = elim (Option-cases (find_membership id s.memberships)) [
  | inl e ↦ rw e refl
  | inr (m, e) ↦
      let named_m = find-All IsNamed (λ (r : Membership). r.id == id) s.memberships m named e in
      let same =
        (eq_iff m.id id).0 (find-true (λ (r : Membership). r.id == id) s.memberships m e) in
      let found = ap (λ x. find_membership x s.memberships) same ∙ e in
      subst (IsJoined s) (sym (ap attribution_of e))
        (ap attribution_of_row found ∙ attribution_of_row-IsNamed m named_m)
]

pub row-IsJoined : (s : Store) (id : Option String) → IsJoined s (joined_attribution s id)
row-IsJoined s none = refl
row-IsJoined s (some id) = elim (Option-cases (find_membership id s.memberships)) [
  | inl e ↦ rw e refl
  | inr (m, e) ↦
      let same =
        (eq_iff m.id id).0 (find-true (λ (r : Membership). r.id == id) s.memberships m e) in
      subst (IsJoined s) (sym (ap attribution_of_row e))
        (by_name m (ap (λ x. find_membership x s.memberships) same ∙ e))
]
  where
    by_name :
        (m : Membership)
        → find_membership m.id s.memberships ≡ some m
        → IsJoined s (attribution_of_row (some m))
    by_name m e = elim (Bool-cases (m.id == "" || m.display_name == "")) [
      | inl t ↦ rw t refl
      | inr f ↦ rw f (ap attribution_of_row e ∙ rw f refl)
    ]

pub coalesce-IsJoined :
    (s : Store) (a b : Option Attribution) → IsJoined s a → IsJoined s b → IsJoined s (coalesce a b)
coalesce-IsJoined s none b ha hb = hb
coalesce-IsJoined s (some a) b ha hb = ha
