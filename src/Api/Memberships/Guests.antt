-- ===== src/Api/Memberships/Guests.antt =====
-- Guests: how a guest joins by a token, and how an account claims a guest's membership.
use dnd_notes.Common.{
  String, Bool, true, false, ◌&&◌, not, ◌≡◌, refl, ◌≢◌, ◌⊎◌, inl, inr, Option, none, some, List, [],
  ◌∷◌, arith, ◌==◌, eq_iff, eq_refl, if◌then◌else◌, find, find-true, find-All, find-update_where,
  update_where, is_some, All, Bool-cases, Option-cases,
}
use dnd_notes.Api.Store.{is_owner, Membership, Store}
use dnd_notes.Api.Memberships.{
  find_membership, is_guest_token, get_user_membership_for_campaign, get_guest_membership_by_token,
  claimed, already_linked, account_already_member, not_found, ClaimResult, claimed_by, claim_free,
  claim_found, claim_guest_membership,
}

module _ (hash : String → String) where
  -- The rows after a claim: another identifier, an owner's, or the new token's hash.
  abbrev IsRotated : String → String → Membership → Type 0
  IsRotated id token r =
      (r.id ≢ id) ⊎ (is_owner r.role ≡ true) ⊎ (r.guest_token_id ≡ some (hash token))

  update-IsRotated :
      (id user token now : String) (ms : List Membership)
      → All (IsRotated id token) (
          update_where
            (λ r. r.id == id && not (is_owner r.role))
            (claimed_by hash user token now)
            ms)
  update-IsRotated id user token now [] = tt
  update-IsRotated id user token now (m ∷ ms) =
      (by_test (m.id == id) (is_owner m.role) refl refl, update-IsRotated id user token now ms)
    where
      by_test :
          (same own : Bool)
          → (m.id == id) ≡ same
          → is_owner m.role ≡ own
          → IsRotated id token
              (if m.id == id && not (is_owner m.role) then claimed_by hash user token now m else m)
      by_test true true e o = rw (e, o) (inr (inl o))
      by_test true false e o = rw (e, o) (inr (inr refl))
      by_test false own e o = rw e (inl (λ q. ground (arith, eq_iff m.id id)))

  claim_free-IsRotated :
      (user token now : String) (m w : Membership) (o : Option Membership) (s : Store)
      → (claim_free hash user token now m o s).0 ≡ claimed w token
      → All (IsRotated m.id token) (claim_free hash user token now m o s).1.memberships
  unfolding claim_free
  claim_free-IsRotated user token now m w (some e) s won = cc
  claim_free-IsRotated user token now m w none s won =
      update-IsRotated m.id user token now s.memberships

  claim_found-IsRotated :
      (user token now : String) (m w : Membership) (s : Store)
      → (claim_found hash user token now (some m) s).0 ≡ claimed w token
      → All (IsRotated m.id token) (claim_found hash user token now (some m) s).1.memberships
  unfolding claim_found
  claim_found-IsRotated user token now m w s won = elim (Bool-cases (is_owner m.role)) [
    | inl own ↦ absurd (cc (rw own at won))
    | inr visitor ↦ elim (Bool-cases (is_some m.user_id)) [
      | inl held ↦ absurd (cc (rw (visitor, held) at won))
      | inr free ↦
          rw (visitor, free)
            (claim_free-IsRotated user token now m w _ s (rw (visitor, free) at won))
    ]
  ]

  claim_found-missing :
      (user token now : String) (w : Membership) (s : Store)
      → (claim_found hash user token now none s).0 ≢ claimed w token
  unfolding claim_found
  claim_found-missing user token now w s = cc

  -- Once a guest's membership has been claimed, the token that it was joined by opens it no more;
  -- this rests on the two tokens having different hashes.
  pub claim-rotates :
      (id user token now old : String) (s : Store) (m x : Membership)
      → (claim_guest_membership hash id user token now s).0 ≡ claimed m token
      → hash old ≢ hash token
      → get_guest_membership_by_token hash old (claim_guest_membership hash id user token now s).1
        ≡ some x
      → x.id ≢ id
  unfolding claim_guest_membership get_guest_membership_by_token
  claim-rotates id user token now old s m x won differ found =
      elim (Option-cases (find_membership id s.memberships)) [
        | inl e ↦ absurd (claim_found-missing user token now m s (rw e at won))
        | inr (m0, e) ↦
            let all = claim_found-IsRotated user token now m0 m s (rw e at won) in
            let p = is_guest_token hash old in
            let ms = (claim_found hash user token now (some m0) s).1.memberships in
            let f : find p ms ≡ some x = rw e at found in
            let spared = find-All (IsRotated m0.id token) p ms x all f in
            let t = find-true p ms x f in
            let same = find-true (λ r. r.id == id) s.memberships m0 e in
            λ q. ground (arith, spared, t, same, eq_iff m0.id id, eq_iff (hash token) (hash old))
      ]

  -- The four answers to a claim, with what was found and what is written.
  abbrev pub Answers : (id user token now : String) → Store → ClaimResult × Store → Type 0
  Answers id user token now s (r, t) =
      ((r ≡ not_found)
        × (t ≡ s)
        × ((find_membership id s.memberships ≡ none)
            ⊎ ((m : Membership) × (find_membership id s.memberships ≡ some m)
                × (is_owner m.role ≡ true))))
      ⊎ ((m : Membership) × (find_membership id s.memberships ≡ some m)
          × (is_owner m.role ≡ false)
          × (is_some m.user_id ≡ true)
          × (r ≡ already_linked m)
          × (t ≡ s))
      ⊎ ((m : Membership) × (find_membership id s.memberships ≡ some m)
          × (is_owner m.role ≡ false)
          × (m.user_id ≡ none)
          × ((e : Membership) × (get_user_membership_for_campaign user m.campaign_id s ≡ some e)
              × (r ≡ account_already_member e)
              × (t ≡ s)))
      ⊎ ((m : Membership) × (find_membership id s.memberships ≡ some m)
          × (is_owner m.role ≡ false)
          × (m.user_id ≡ none)
          × (get_user_membership_for_campaign user m.campaign_id s ≡ none)
          × (r ≡ claimed (claimed_by hash user token now m) token)
          × (find_membership id t.memberships ≡ some (claimed_by hash user token now m)))

  -- A claim answers by what it finds, and writes only where it succeeds: the membership must be a
  -- guest's that no account holds, and the account must not be a member of its campaign yet.
  pub claim-Answers :
      (id user token now : String) (s : Store)
      → Answers id user token now s (claim_guest_membership hash id user token now s)
  unfolding claim_guest_membership claim_found claim_free
  claim-Answers id user token now s = elim (Option-cases (find_membership id s.memberships)) [
    | inl e ↦ inl (ground (arith, e), ground (arith, e), inl e)
    | inr (m, e) ↦ elim (Bool-cases (is_owner m.role)) [
      | inl own ↦ inl (ground (arith, e, own), ground (arith, e, own), inr (m, e, own))
      | inr visitor ↦ elim (Option-cases m.user_id) [
        | inr (u, held) ↦ inr (
            inl (
              m,
              e,
              visitor,
              ground (arith, held),
              ground (arith, e, visitor, held),
              ground (arith, e, visitor, held),
            ))
        | inl free ↦ elim (Option-cases (get_user_membership_for_campaign user m.campaign_id s)) [
          | inr (x, member) ↦ inr (
              inr (
                inl (
                  m,
                  e,
                  visitor,
                  free,
                  (
                    x,
                    member,
                    ground (arith, e, visitor, free, member),
                    ground (arith, e, visitor, free, member),
                  ),
                )))
          | inl new ↦ inr (
              inr (
                inr (
                  m,
                  e,
                  visitor,
                  free,
                  new,
                  ground (arith, e, visitor, free, new),
                  ground (
                    arith,
                    e,
                    visitor,
                    free,
                    new,
                    find-true (λ x. x.id == id) s.memberships m e,
                    eq_iff m.id id,
                    eq_refl m.id,
                    find-update_where (λ x. x.id == id) (λ x. x.id == m.id && not (is_owner x.role))
                        (claimed_by hash user token now) s.memberships (λ x. refl),
                  ),
                )))
        ]
      ]
    ]
  ]
