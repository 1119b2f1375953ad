-- ===== src/Api/Campaigns/Laws.antt =====
-- Who owns a campaign once it exists, and who may change it.
use dnd_notes.Common.{
  ◌+◌, ◌≤◌, String, Bool, true, false, ◌&&◌, ◌≡◌, refl, ◌∙◌, ◌≢◌, ◌⊎◌, inl, inr, Option, none, some,
  List, [], ◌∷◌, ◌++◌, arith, ◌==◌, eq_iff, eq_refl, ◌=ℕ◌, find, find-true, find-update_where, any,
  count, update_where, is_some, given, Bool-cases,
}
use dnd_notes.Api.Store.{is_owner, Campaign, Membership, Store}
use dnd_notes.Api.Memberships.{
  of_user, insert_membership, owns_campaign, get_owner_membership_for_campaign,
  count_owner_memberships,
}
use dnd_notes.Api.Campaigns.{
  CampaignInput, OwnerAccount, default_campaign_id, default_campaign, default_owner, is_active,
  get_campaign, is_campaign_active, insert_campaign, create_campaign, rewrite, may_update,
  update_found, update_campaign, insert_default_campaign_if_missing, ensure_default_campaign,
}

module _ {A : Type 0} (p : A → Bool) (y : A) where
  find-append_last : (xs : List A) → find p xs ≡ none → p y ≡ true → find p (xs ++ y ∷ []) ≡ some y
  find-append_last [] e h = ground arith
  find-append_last (x ∷ xs) e h = ground (arith, find-append_last xs)

  find-append_some : (xs : List A) → p y ≡ true → is_some (find p (xs ++ y ∷ [])) ≡ true
  find-append_some [] h = ground arith
  find-append_some (x ∷ xs) h = ground (arith, find-append_some xs h)

  any-append : (xs : List A) → p y ≡ true → any p (xs ++ y ∷ []) ≡ true
  any-append [] h = ground arith
  any-append (x ∷ xs) h = ground (arith, any-append xs h)

  count-append : (xs : List A) → p y ≡ true → count p (xs ++ y ∷ []) ≡ count p xs + 1
  count-append [] h = ground arith
  count-append (x ∷ xs) h = ground (arith, count-append xs h)

-- A campaign that was created under a new identifier is found, is active, and is owned by the
-- account that created it.
pub create_campaign-owns_campaign :
    (input : CampaignInput) (account : OwnerAccount) (id membership_id now : String) (s : Store)
    → get_campaign id s ≡ none
    → let (c, t) = create_campaign input account id membership_id now s in
      (get_campaign id t ≡ some c)
      × (is_campaign_active id t ≡ true)
      × (owns_campaign id account.id t ≡ true)
unfolding create_campaign get_campaign is_campaign_active owns_campaign
    get_owner_membership_for_campaign insert_membership insert_campaign
create_campaign-owns_campaign input account id membership_id now s new =
    let found =
      find-append_last (λ c. c.id == id) (create_campaign input account id membership_id now s).0
        s.campaigns new (eq_refl id) in
    (
      found,
      ground (arith, found),
      find-append_some (λ m. of_user id account.id m && is_owner m.role) _ s.memberships
          (ground (arith, eq_refl id, eq_refl account.id)),
    )

abbrev is_default : Campaign → Bool
is_default c = c.id == default_campaign_id

insert_default-there :
    (now : String) (s : Store)
    → any is_default (insert_default_campaign_if_missing now s).campaigns ≡ true
unfolding insert_default_campaign_if_missing insert_campaign
insert_default-there now s = elim (Bool-cases (any is_default s.campaigns)) [
  | inl there ↦ ground (arith, there)
  | inr missing ↦
      ground (arith, missing, any-append is_default (default_campaign now) s.campaigns refl)
]

insert_default-same :
    (now : String) (s : Store)
    → any is_default s.campaigns ≡ true
    → insert_default_campaign_if_missing now s ≡ s
unfolding insert_default_campaign_if_missing
insert_default-same now s there = ground (arith, there)

ensure_default-facts :
    (membership_id now later : String) (s : Store)
    → let t = ensure_default_campaign membership_id now later s in
      (any is_default t.campaigns ≡ true)
      × ((count_owner_memberships default_campaign_id t =ℕ 0) ≡ false)
unfolding ensure_default_campaign count_owner_memberships insert_membership
ensure_default-facts membership_id now later s =
    let t = insert_default_campaign_if_missing now s in
    let q = λ (m : Membership). m.campaign_id == default_campaign_id && is_owner m.role in
    elim (Bool-cases (count q t.memberships =ℕ 0)) [
      | inl ownerless ↦ (
        ground (arith, ownerless, insert_default-there now s),
        ground (
          arith,
          ownerless,
          count-append q (default_owner membership_id later) t.memberships refl,
        ),
      )
      | inr owned ↦ (ground (arith, owned, insert_default-there now s), ground (arith, owned))
    ]

ensure_default-same :
    (membership_id now later : String) (s : Store)
    → any is_default s.campaigns ≡ true
    → (count_owner_memberships default_campaign_id s =ℕ 0) ≡ false
    → ensure_default_campaign membership_id now later s ≡ s
unfolding ensure_default_campaign
ensure_default-same membership_id now later s there owned =
    ground (arith, insert_default-same now s there, owned)

-- Ensuring the default campaign leaves one that is there with an owner, and doing so again, at any
-- later time, changes nothing.
pub ensure_default_campaign-twice :
    (membership_id now later again now' later' : String) (s : Store)
    → let t = ensure_default_campaign membership_id now later s in
      (any (λ c. c.id == default_campaign_id) t.campaigns ≡ true)
      × (1 ≤ count_owner_memberships default_campaign_id t)
      × (ensure_default_campaign again now' later' t ≡ t)
ensure_default_campaign-twice membership_id now later again now' later' s =
    let (there, owned) = ensure_default-facts membership_id now later s in
    (there, ground (arith, owned), ensure_default-same again now' later' _ there owned)

abbrev pub Updated :
    String
    → CampaignInput
    → Option String
    → String
    → String
    → Store
    → Option Campaign
    → Option Campaign × Store
    → Type 0
Updated id input user now other s none (r, t) = (r ≡ none) × (t ≡ s)
Updated id input user now other s (some c) (r, t) =
    (((is_active c && may_update id (given user) s) ≡ false) × (r ≡ none) × (t ≡ s))
    ⊎ (((is_active c && may_update id (given user) s) ≡ true)
        × (r ≡ some (rewrite input now c))
        × (get_campaign id t ≡ some (rewrite input now c))
        × (get_campaign other t ≡ get_campaign other s)
        × (t.memberships ≡ s.memberships))

update-others :
    (id : String) (input : CampaignInput) (now other : String) (cs : List Campaign)
    → other ≢ id
    → find (λ c. c.id == other) (update_where (λ c. c.id == id) (rewrite input now) cs)
      ≡ find (λ c. c.id == other) cs
update-others id input now other [] ne = refl
update-others id input now other (c ∷ cs) ne =
    ground (arith, update-others id input now other cs ne, eq_iff c.id id, eq_iff c.id other)

update_found-Updated :
    (id : String) (input : CampaignInput) (user : Option String) (now other : String) (s : Store)
    (o : Option Campaign)
    → other ≢ id
    → get_campaign id s ≡ o
    → Updated id input user now other s o (update_found id input (given user) now s o)
unfolding get_campaign
update_found-Updated id input user now other s none ne e = (refl, refl)
update_found-Updated id input user now other s (some c) ne e =
    elim (Bool-cases (is_active c && may_update id (given user) s)) [
      | inr barred ↦ inl (barred, ground (arith, barred), ground (arith, barred))
      | inl allowed ↦
          let same = find-true (λ x. x.id == id) s.campaigns c e in
          let c_id : c.id ≡ id = ground (arith, same, eq_iff c.id id) in
          let written =
            find-update_where (λ x. x.id == id) (λ x. x.id == c.id) (rewrite input now) s.campaigns
              (λ x. refl) in
          inr (
            allowed,
            ground (arith, allowed),
            ground (arith, allowed, written, e, eq_refl c.id),
            ground (
              arith,
              allowed,
              update-others c.id input now other s.campaigns (λ q. ne (q ∙ c_id)),
            ),
            ground (arith, allowed),
          )
    ]

-- An update is answered by the campaign's row: it is refused, and writes nothing, where there is no
-- such campaign, where it is archived, or where an account is named that does not own it. Otherwise
-- the row is found rewritten, every other campaign is found as it was, and no membership changes.
pub update_campaign-Updated :
    (id : String) (input : CampaignInput) (user : Option String) (now other : String) (s : Store)
    → other ≢ id
    → Updated id input user now other s (get_campaign id s) (update_campaign id input user now s)
unfolding update_campaign
update_campaign-Updated id input user now other s ne =
    update_found-Updated id input user now other s (get_campaign id s) ne refl
