-- ===== src/Api/ShareLinks/Laws.antt =====
-- What a share link opens, and for how long.
use dnd_notes.Common.{
  String, Bool, true, false, ◌&&◌, ◌≡◌, refl, ◌∙◌, ap, ◌≢◌, ◌⊎◌, inl, inr, none, some, List, [],
  ◌∷◌, ◌++◌, arith, ◌==◌, eq_iff, eq_refl, text_lt, find, find-true, update_where, is_some, All,
  find-All, Option-cases,
}
use dnd_notes.Api.Store.{ShareLink, Store}
use dnd_notes.Api.ShareLinks.{
  ShareLinkInput, unexpired, is_live, new_link, create_campaign_share_link, is_target, revoked,
  revoke_campaign_share_link, available, reveal_row, get_campaign_share_link_reveal,
  get_campaign_share_link_by_token,
}

-- A row that a revocation missed, or whose revocation is on record.
abbrev IsSpared : String → String → ShareLink → Type 0
IsSpared campaign_id id l = (is_target campaign_id id l ≡ false) ⊎ (is_some l.revoked_at ≡ true)

update-IsSpared :
    (campaign_id id now later : String) (ls : List ShareLink)
    → All (IsSpared campaign_id id) (update_where (is_target campaign_id id) (revoked now later) ls)
update-IsSpared campaign_id id now later [] = tt
update-IsSpared campaign_id id now later (l ∷ ls) =
    (ground arith, update-IsSpared campaign_id id now later ls)

module _ (hash : String → String) where
  -- A token opens a link only if that link's row carries the token's hash, is not revoked, and has
  -- no expiry or one whose text is greater than the text of the present time.
  pub by_token-is_live :
      (token now : String) (s : Store) (l : ShareLink)
      → get_campaign_share_link_by_token hash token now s ≡ some l
      → (l.token_hash ≡ hash token)
        × (l.revoked_at ≡ none)
        × ((l.expires_at ≡ none)
            ⊎ ((until : String) × (l.expires_at ≡ some until) × (text_lt now until ≡ true)))
  unfolding get_campaign_share_link_by_token
  by_token-is_live token now s l e =
      let t = find-true (λ x. x.token_hash == hash token && is_live now x) s.share_links l e in
      elim (Option-cases l.expires_at) [
        | inl forever ↦
            (ground (arith, t, eq_iff l.token_hash (hash token)), ground (arith, t), inl forever)
        | inr (until, x) ↦ (
          ground (arith, t, eq_iff l.token_hash (hash token)),
          ground (arith, t),
          inr (until, x, ground (arith, t, x)),
        )
      ]

  find-append :
      (p : ShareLink → Bool) (xs ys : List ShareLink)
      → find p xs ≡ none
      → find p (xs ++ ys) ≡ find p ys
  find-append p [] ys e = refl
  find-append p (x ∷ xs) ys e = ground (arith, find-append p xs ys)

  find-none_and :
      (p q : ShareLink → Bool) (xs : List ShareLink)
      → find p xs ≡ none
      → find (λ x. p x && q x) xs ≡ none
  find-none_and p q [] e = refl
  find-none_and p q (x ∷ xs) e = ground (arith, find-none_and p q xs)

  -- A link that the owner of an active campaign creates opens by its token and is revealed to the
  -- owner, at every later time that its expiry allows, where its identifier is new, its token is not
  -- empty, and no row carries its token's hash.
  pub create-by_token :
      (campaign_id : String) (input : ShareLinkInput) (id token created now : String) (s : Store)
      → find (λ l. l.token_hash == hash token) s.share_links ≡ none
      → find (λ l. l.id == id) s.share_links ≡ none
      → token ≢ ""
      → unexpired input.expires_at now ≡ true
      → let (r, t) =
          create_campaign_share_link hash true true campaign_id input id token created s in
        let l = new_link hash campaign_id input id token created in
        (r ≡ some (l, token))
        × (get_campaign_share_link_by_token hash token now t ≡ some l)
        × (get_campaign_share_link_reveal true campaign_id id now t ≡ some (available token))
  unfolding create_campaign_share_link get_campaign_share_link_by_token
      get_campaign_share_link_reveal
  create-by_token campaign_id input id token created now s fresh_hash fresh_id nonempty live =
      let l = new_link hash campaign_id input id token created in
      let of_id =
        find-none_and (λ x. x.id == id) (λ x. x.campaign_id == campaign_id) s.share_links
          fresh_id in
      let of_live = find-none_and (is_target campaign_id id) (is_live now) s.share_links of_id in
      let found : find (λ x. is_target campaign_id id x && is_live now x) (s.share_links ++ l ∷ [])
          ≡ some l =
        find-append (λ x. is_target campaign_id id x && is_live now x) s.share_links (l ∷ [])
          of_live
        ∙ ground (arith, eq_refl id, eq_refl campaign_id) in
      (
        refl,
        find-append (λ x. x.token_hash == hash token && is_live now x) s.share_links (l ∷ [])
              (find-none_and (λ x. x.token_hash == hash token) (is_live now) s.share_links
                fresh_hash)
            ∙ ground (arith, eq_refl (hash token)),
        ap reveal_row found ∙ ground (arith, eq_iff token ""),
      )

  -- No token opens a link once its owner has revoked it.
  pub revoke-by_token :
      (campaign_id id token now later present : String) (s : Store) (l : ShareLink)
      → get_campaign_share_link_by_token hash token present
          (revoke_campaign_share_link true campaign_id id now later s).1
        ≡ some l
      → ¬ ((l.id ≡ id) × (l.campaign_id ≡ campaign_id))
  unfolding get_campaign_share_link_by_token revoke_campaign_share_link
  revoke-by_token campaign_id id token now later present s l e (same_id, same_campaign) =
      let p = λ (x : ShareLink). x.token_hash == hash token && is_live present x in
      let ls = update_where (is_target campaign_id id) (revoked now later) s.share_links in
      let spared =
        find-All (IsSpared campaign_id id) p ls l
          (update-IsSpared campaign_id id now later s.share_links) e in
      ground (arith, find-true p ls l e, spared, eq_iff l.id id, eq_iff l.campaign_id campaign_id)
