-- ===== src/Api/Consolidation/Laws.antt =====
-- What moving attribution does to the notes, and that it does so only after a successful preview.
use dnd_notes.Common.{
  ◌+◌, String, Bool, true, false, ◌&&◌, ◌||◌, not, ◌≡◌, refl, ◌≢◌, ◌⊎◌, inl, inr, Option, none,
  some, List, [], ◌∷◌, arith, ◌==◌, eq_iff, eq_refl, if◌then◌else◌, keep, count, update_where,
  Bool-cases,
}
use dnd_notes.Api.Store.{Note, Store, equals}
use dnd_notes.Api.Memberships.{owns_campaign}
use dnd_notes.Api.Consolidation.{
  authored_by, edited_by, consolidation_counts, moved, reassign_attribution, Consolidation,
  ConsolidationResult, ready, source_not_found, target_not_found, same_membership, forbidden,
  campaign_not_found, preview_membership_consolidation, apply_if_ready, consolidate_memberships,
}

count-union :
    (p q : Note → Bool) (ns : List Note)
    → count (λ n. p n || q n) ns + count (λ n. p n && q n) ns ≡ count p ns + count q ns
count-union p q [] = refl
count-union p q (n ∷ ns) = ground (arith, count-union p q ns)

-- The four counts of a preview are those of two sets of notes, their intersection and their union.
pub consolidation_counts-union :
    (campaign_id source : String) (s : Store)
    → let c = consolidation_counts campaign_id source s in
      c.affected + c.authored_and_edited ≡ c.authored + c.edited
unfolding consolidation_counts
consolidation_counts-union campaign_id source s =
    count-union (authored_by source) (edited_by source)
      (keep (λ n. n.campaign_id == campaign_id) s.notes)

module _ (campaign_id source target : String) (differ : source ≢ target) where
  abbrev touched : Note → Bool
  touched n = n.campaign_id == campaign_id && (authored_by source n || edited_by source n)

  abbrev move : Note → Note
  move n = record n {
    created_by = moved source target n.created_by;
    last_edited_by = moved source target n.last_edited_by;
  }

  abbrev in_campaign : Note → Bool
  in_campaign n = n.campaign_id == campaign_id

  moved-source : (o : Option String) → equals (moved source target o) source ≡ false
  moved-source none = refl
  moved-source (some a) = ground (arith, eq_iff a source, eq_iff target source)

  moved-target :
      (o : Option String)
      → (if equals (moved source target o) target then 1 else 0)
        ≡ (if equals o source then 1 else 0) + (if equals o target then 1 else 0)
  moved-target none = refl
  moved-target (some a) =
      ground (arith, eq_iff a source, eq_iff a target, eq_iff target target, eq_refl target)

  abbrev after : List Note → List Note
  after ns = keep in_campaign (update_where touched move ns)

  authored-source : (ns : List Note) → count (authored_by source) (after ns) ≡ 0
  authored-source [] = refl
  authored-source (n ∷ ns) = ground (arith, authored-source ns, moved-source n.created_by)

  edited-source : (ns : List Note) → count (edited_by source) (after ns) ≡ 0
  edited-source [] = refl
  edited-source (n ∷ ns) = ground (arith, edited-source ns, moved-source n.last_edited_by)

  authored-target :
      (ns : List Note)
      → count (authored_by target) (after ns)
        ≡ count (authored_by source) (keep in_campaign ns)
          + count (authored_by target) (keep in_campaign ns)
  authored-target [] = refl
  authored-target (n ∷ ns) = ground (arith, authored-target ns, moved-target n.created_by)

  edited-target :
      (ns : List Note)
      → count (edited_by target) (after ns)
        ≡ count (edited_by source) (keep in_campaign ns)
          + count (edited_by target) (keep in_campaign ns)
  edited-target [] = refl
  edited-target (n ∷ ns) = ground (arith, edited-target ns, moved-target n.last_edited_by)

  others :
      (ns : List Note)
      → keep (λ n. not (in_campaign n)) (update_where touched move ns)
        ≡ keep (λ n. not (in_campaign n)) ns
  others [] = refl
  others (n ∷ ns) = ground (arith, others ns)

-- Moving attribution from one membership to another: none of the campaign's notes names the source
-- any more, the target has its own and the source's, and notes of other campaigns are untouched.
abbrev pub Moved : String → String → String → Store → Store → Type 0
Moved campaign_id source target s t =
    let old_source = consolidation_counts campaign_id source s in
    let old_target = consolidation_counts campaign_id target s in
    let new_source = consolidation_counts campaign_id source t in
    let new_target = consolidation_counts campaign_id target t in
    (new_source.authored ≡ 0)
    × (new_source.edited ≡ 0)
    × (new_target.authored ≡ old_source.authored + old_target.authored)
    × (new_target.edited ≡ old_source.edited + old_target.edited)
    × (keep (λ n. not (n.campaign_id == campaign_id)) t.notes
        ≡ keep (λ n. not (n.campaign_id == campaign_id)) s.notes)
    × (t.memberships ≡ s.memberships)

reassign-Moved :
    (campaign_id source target : String) (s : Store)
    → source ≢ target
    → Moved campaign_id source target s (reassign_attribution campaign_id source target s)
unfolding consolidation_counts reassign_attribution
reassign-Moved campaign_id source target s differ = (
  authored-source campaign_id source target differ s.notes,
  edited-source campaign_id source target differ s.notes,
  authored-target campaign_id source target differ s.notes,
  edited-target campaign_id source target differ s.notes,
  others campaign_id source target differ s.notes,
  refl,
)

preview-ready :
    (exists : Bool) (campaign_id source target user : String) (s : Store) (c : Consolidation)
    → preview_membership_consolidation exists campaign_id source target user s ≡ ready c
    → (owns_campaign campaign_id user s ≡ true) × (source ≢ target)
unfolding preview_membership_consolidation
preview-ready false campaign_id source target user s c e = cc
preview-ready true campaign_id source target user s c e =
    elim (Bool-cases (owns_campaign campaign_id user s)) [
      | inr stranger ↦ absurd (ground (arith, stranger, e))
      | inl own ↦ (own, λ same. ground (arith, own, e, same, eq_iff source target))
    ]

abbrev Answer :
    Bool
    → String
    → String
    → String
    → Store
    → ConsolidationResult
    → ConsolidationResult × Store
    → Type 0
Answer owns campaign_id source target s preview (r, t) =
    (r ≡ preview)
    × ((((c : Consolidation) → r ≢ ready c) × (t ≡ s))
        ⊎ (((c : Consolidation) × (r ≡ ready c))
            × (owns ≡ true)
            × Moved campaign_id source target s t))

apply-Answer :
    (owns : Bool) (campaign_id source target : String) (s : Store) (r : ConsolidationResult)
    → ((c : Consolidation) → r ≡ ready c → (owns ≡ true) × (source ≢ target))
    → Answer owns campaign_id source target s r (apply_if_ready campaign_id source target r s)
apply-Answer owns campaign_id source target s (ready c) h =
    let (own, differ) = h c refl in
    (refl, inr ((c, refl), own, reassign-Moved campaign_id source target s differ))
apply-Answer owns campaign_id source target s source_not_found h = (refl, inl ((λ c e. cc), refl))
apply-Answer owns campaign_id source target s target_not_found h = (refl, inl ((λ c e. cc), refl))
apply-Answer owns campaign_id source target s same_membership h = (refl, inl ((λ c e. cc), refl))
apply-Answer owns campaign_id source target s forbidden h = (refl, inl ((λ c e. cc), refl))
apply-Answer owns campaign_id source target s campaign_not_found h = (refl, inl ((λ c e. cc), refl))

-- A consolidation is refused exactly as its preview says, and then writes nothing. Otherwise the
-- campaign's owner asked for it, and the notes' attribution moves as a whole: no note of the
-- campaign names the source any more, the target has its own notes and the source's, and the notes
-- of other campaigns and all memberships are untouched.
pub consolidate_memberships-Moved :
    (exists : Bool) (campaign_id source target user : String) (s : Store)
    → let (r, t) = consolidate_memberships exists campaign_id source target user s in
      (r ≡ preview_membership_consolidation exists campaign_id source target user s)
      × ((((c : Consolidation) → r ≢ ready c) × (t ≡ s))
          ⊎ (((c : Consolidation) × (r ≡ ready c))
              × (owns_campaign campaign_id user s ≡ true)
              × Moved campaign_id source target s t))
unfolding consolidate_memberships
consolidate_memberships-Moved exists campaign_id source target user s =
    apply-Answer (owns_campaign campaign_id user s) campaign_id source target s _
      (preview-ready exists campaign_id source target user s)
